-- ===== src/Identity/Practices/Publication.antt =====
-- practice.cpp: the states that a practice reaches from its opening, and the way to its publication.
use pdr.Base.{◌≡◌, ◌∙◌, refl, Bool, true, false, not, ◌&&◌, Option, has_value, arith}
use pdr.Core.Errors.{ok}
use pdr.Core.Ids.{TenantId}
use pdr.Core.Time.{Instant}
use pdr.Identity.Practices.{
  Visibility, hidden, pending, published, refused, same_visibility, RefusalReason, Practice, opened,
  is_discoverable, asked_to_publish, publish, refused_because, hide,
}

-- One operation on a practice.
pub data Step : Practice → Practice → Type 0 where
  asks : {p q : Practice} (at : Instant) → asked_to_publish p at ≡ ok q → Step p q
  is_published : {p q : Practice} (at : Instant) → publish p at ≡ ok q → Step p q
  is_refused :
      {p q : Practice} (reason : RefusalReason) (at : Instant)
      → refused_because p reason at ≡ ok q
      → Step p q
  hides : {p : Practice} (at : Instant) → Step p (hide p at)

pub data Reached (tenant : TenantId) : Practice → Type 0 where
  at_start : (at : Instant) → Reached tenant (opened tenant at)
  after : {p q : Practice} → Reached tenant p → Step p q → Reached tenant q

-- What the fields of a practice say in each state: a request and a decision, and the reason of a
-- refusal.
abbrev pub fields_of : Visibility → Option Instant → Option Instant → Option RefusalReason → Bool
fields_of hidden asked decided reason = not (has_value reason)
fields_of pending asked decided reason =
    has_value asked && (not (has_value decided) && not (has_value reason))
fields_of published asked decided reason =
    has_value asked && (has_value decided && not (has_value reason))
fields_of refused asked decided reason = has_value asked && (has_value decided && has_value reason)
fields_of Visibility.boundary asked decided reason = false

unfoldable pub IsCoherent : Practice → Type 0
IsCoherent p = fields_of p.visibility p.asked_at p.decided_at p.refusal ≡ true

fields_published :
    (v : Visibility) (p : Practice) (at : Instant) {q : Practice}
    → p.visibility ≡ v
    → publish p at ≡ ok q
    → IsCoherent p
    → IsCoherent q
unfolding IsCoherent publish
fields_published v p at at_v e h = ground arith

fields_refused :
    (v : Visibility) (p : Practice) (reason : RefusalReason) (at : Instant) {q : Practice}
    → p.visibility ≡ v
    → refused_because p reason at ≡ ok q
    → IsCoherent p
    → IsCoherent q
unfolding IsCoherent refused_because
fields_refused v p reason at at_v e h = ground arith

Step-IsCoherent : {p q : Practice} → Step p q → IsCoherent p → IsCoherent q
unfolding IsCoherent asked_to_publish publish refused_because hide
Step-IsCoherent (asks at e) h = ground (arith, e)
Step-IsCoherent {p} (is_published at e) h = fields_published p.visibility p at refl e h
Step-IsCoherent {p} (is_refused reason at e) h = fields_refused p.visibility p reason at refl e h
Step-IsCoherent (hides at) h = refl

Step-tenant : {p q : Practice} → Step p q → q.tenant ≡ p.tenant
unfolding asked_to_publish publish refused_because hide
Step-tenant (asks at e) = ground (arith, e)
Step-tenant (is_published at e) = ground (arith, e)
Step-tenant (is_refused reason at e) = ground (arith, e)
Step-tenant (hides at) = refl

-- A practice that is reached from its opening has the fields of its state: while a request waits it
-- has the moment of the request and no decision, a decision on it has both moments, and a reason
-- stands exactly in a refused one. It stays the same practice.
pub reached-IsCoherent :
    (tenant : TenantId) (p : Practice) → Reached tenant p → IsCoherent p × (p.tenant ≡ tenant)
unfolding IsCoherent opened
reached-IsCoherent tenant _ (at_start at) = (refl, refl)
reached-IsCoherent tenant _ (after {p} r s) =
    let before = reached-IsCoherent tenant p r in
    (Step-IsCoherent s before.0, Step-tenant s ∙ before.1)

-- A step that makes a practice discoverable is the decision on a request that was waiting, and every
-- step from a discoverable practice hides it.
pub discoverable_by_decision :
    (p q : Practice)
    → Step p q
    → (is_discoverable p ≡ false
        → is_discoverable q ≡ true
        → (same_visibility p.visibility pending ≡ true) × ((at : Instant) × (publish p at ≡ ok q)))
      × (is_discoverable p ≡ true → (at : Instant) × (q ≡ hide p at))
unfolding is_discoverable asked_to_publish publish refused_because hide
discoverable_by_decision p q (asks at e) =
    (λ no yes. absurd (ground (arith, e)), λ yes. absurd (ground (arith, e)))
discoverable_by_decision p q (is_published at e) =
    (λ no yes. (ground (arith, e), (at, e)), λ yes. absurd (ground (arith, e)))
discoverable_by_decision p q (is_refused reason at e) =
    (λ no yes. absurd (ground (arith, e)), λ yes. absurd (ground (arith, e)))
discoverable_by_decision p _ (hides at) = (λ no yes. absurd (ground arith), λ yes. (at, refl))
