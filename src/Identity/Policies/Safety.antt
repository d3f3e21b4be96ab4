-- ===== src/Identity/Policies/Safety.antt =====
-- What follows from the rights matrix: who is never let in, and what never takes a right away.
use pdr.Base.{◌≡◌, Bool, true, false, ◌&&◌, List, [], ◌∷◌, if◌then◌else◌, arith}
use pdr.Core.Ids.{same_id}
use pdr.Identity.Roles.{Role, owner, tutor, student, guardian, has_role}
use pdr.Identity.Scopes.{
  GuardianScope, schedule, payments, notes_and_homework, recordings, has_scope,
}
use pdr.Identity.Abilities.{
  Capability, move_own_slots, decide_own_guardian_access, pay_own_money, choose_tutor,
  has_capability,
}
use pdr.Identity.Actions.{
  Action, book_lesson, view_schedule, view_invoice, view_material, view_progress, record_attempt,
  export_progress, view_lesson_recording, view_lesson_transcript, view_access_journal, Resource,
  same_action, deny, foreign_tenant, no_policy,
}
use pdr.Identity.Policies.{Subject, about_me, same_tie}
use pdr.Identity.Policies.Table.{policy_set, decide}
use pdr.Identity.Policies.Rights.{
  Way, anyone, his_own, himself, once_grown, in_scope, is_open, ways, some_open, decide-ways,
}

-- Each action but the border of the list has its policy in the table: a fault is reported only for
-- the border, and then nothing is allowed. A foreign practice is refused as such, with no fault.
pub decide-faults :
    (s : Subject) (a : Action) (r : Resource)
    → let (decision, faults) = decide policy_set s a r in
      (faults ≡ (if same_id s.tenant r.tenant && same_action a Action.boundary then a ∷ [] else []))
      × (same_id s.tenant r.tenant ≡ false → decision ≡ deny foreign_tenant)
      × (same_id s.tenant r.tenant ≡ true
          → same_action a Action.boundary ≡ true
          → decision ≡ deny no_policy)
unfolding decide policy_set
decide-faults s book_lesson r = ground arith
decide-faults s _ r = ground arith

-- The second subject asks from the same practice with the same tie, and has each role, capability and
-- open scope of the first.
pub record Extends (s t : Subject) : Type 0 where
  pub same_tenant : t.tenant ≡ s.tenant
  pub same_tied : t.tie ≡ s.tie
  pub more_roles : (r : Role) → has_role s.roles r ≡ true → has_role t.roles r ≡ true
  pub more_able : (c : Capability) → has_capability s.able c ≡ true → has_capability t.able c ≡ true
  pub more_open :
      (x : GuardianScope)
      → has_scope s.access.open_scopes x ≡ true
      → has_scope t.access.open_scopes x ≡ true

is_open_mono : (s t : Subject) → Extends s t → (w : Way) → is_open w s ≡ true → is_open w t ≡ true
unfolding is_open
is_open_mono s t e (anyone role) h = e.more_roles role h
is_open_mono s t e his_own h = ground (arith, e.more_roles tutor, e.same_tied)
is_open_mono s t e himself h = ground (arith, e.more_roles student, e.same_tied)
is_open_mono s t e (once_grown c) h =
    ground (arith, e.more_roles student, e.more_able c, e.same_tied)
is_open_mono s t e (in_scope x) h =
    ground (arith, e.more_roles guardian, e.more_open x, e.same_tied)

some_open_mono :
    (s t : Subject) → Extends s t → (ws : List Way) → some_open ws s ≡ true → some_open ws t ≡ true
unfolding some_open
some_open_mono s t e [] h = h
some_open_mono s t e (w ∷ ws) h = ground (arith, is_open_mono s t e w, some_open_mono s t e ws)

-- A role, a capability or an open scope more never takes a permission away.
pub decide_mono :
    (s t : Subject) (a : Action) (r : Resource)
    → Extends s t
    → (decide policy_set s a r).0.is_allowed ≡ true
    → (decide policy_set t a r).0.is_allowed ≡ true
decide_mono s t a r e h =
    ground
      (arith, decide-ways s a r, decide-ways t a r, some_open_mono s t e (ways a), e.same_tenant)

ways_closed :
    (s : Subject) (a : Action)
    → has_role s.roles owner ≡ false
    → has_role s.roles tutor ≡ false
    → has_role s.roles student ≡ false
    → ((x : GuardianScope) → has_scope s.access.open_scopes x ≡ false)
    → some_open (ways a) s ≡ false
unfolding ways some_open is_open
ways_closed s book_lesson no_owner no_tutor no_student closed = ground (arith, closed schedule)
ways_closed s _ no_owner no_tutor no_student closed =
    ground (arith, closed schedule, closed payments, closed notes_and_homework, closed recordings)

-- Whoever is neither owner, tutor nor student, and has no scope open as a guardian, is allowed
-- nothing.
pub guardian_needs_scope :
    (s : Subject) (a : Action) (r : Resource)
    → has_role s.roles owner ≡ false
    → has_role s.roles tutor ≡ false
    → has_role s.roles student ≡ false
    → ((x : GuardianScope) → has_scope s.access.open_scopes x ≡ false)
    → (decide policy_set s a r).0.is_allowed ≡ false
guardian_needs_scope s a r no_owner no_tutor no_student closed =
    ground (arith, decide-ways s a r, ways_closed s a no_owner no_tutor no_student closed)

-- What a student may do about himself at any age.
abbrev pub at_any_age : Action → Bool
at_any_age view_schedule = true
at_any_age view_invoice = true
at_any_age view_material = true
at_any_age view_progress = true
at_any_age record_attempt = true
at_any_age export_progress = true
at_any_age view_lesson_recording = true
at_any_age view_lesson_transcript = true
at_any_age view_access_journal = true
at_any_age _ = false

ways_of_child :
    (s : Subject) (a : Action)
    → has_role s.roles owner ≡ false
    → has_role s.roles tutor ≡ false
    → has_role s.roles student ≡ true
    → same_tie s.tie about_me ≡ true
    → ((c : Capability) → has_capability s.able c ≡ false)
    → some_open (ways a) s ≡ at_any_age a
unfolding ways some_open is_open
ways_of_child s view_schedule no_owner no_tutor is_student tied unable = ground arith
ways_of_child s _ no_owner no_tutor is_student tied unable = ground (
  arith,
  unable move_own_slots,
  unable Capability.write_review,
  unable decide_own_guardian_access,
  unable pay_own_money,
  unable choose_tutor,
)

-- A student who has reached no threshold, and is neither tutor nor owner, is allowed about himself
-- exactly the nine actions that ask for no age.
pub child_may_exactly :
    (s : Subject) (a : Action) (r : Resource)
    → same_id s.tenant r.tenant ≡ true
    → has_role s.roles owner ≡ false
    → has_role s.roles tutor ≡ false
    → has_role s.roles student ≡ true
    → same_tie s.tie about_me ≡ true
    → ((c : Capability) → has_capability s.able c ≡ false)
    → (decide policy_set s a r).0.is_allowed ≡ at_any_age a
child_may_exactly s a r here no_owner no_tutor is_student tied unable =
    ground (arith, decide-ways s a r, ways_of_child s a no_owner no_tutor is_student tied unable)
