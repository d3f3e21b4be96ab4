-- ===== src/Identity/Consents/Lifecycle.antt =====
-- identity/core/guardian_consent.cpp: from the grant of a consent to its revocation.
use pdr.Base.{◌≡◌, true, false, not, ◌&&◌, Option, arith}
use pdr.Core.Errors.{ok, refuse, conflict}
use pdr.Core.Ids.{TenantId, PersonId, same_id}
use pdr.Core.Time.{Instant, not_after}
use pdr.Identity.Scopes.{GuardianScope, same_scope}
use pdr.Identity.Consents.{
  ConsentId, ConsentBasis, may_carry, same_basis, GuardianConsent, reached_by, grant, is_active_at,
  revoked,
}

-- What every consent of the store satisfies.
unfoldable pub IsSound : GuardianConsent → Type 0
IsSound c =
    (same_id c.guardian_id c.student_id ≡ false)
    × (same_scope c.scope GuardianScope.boundary ≡ false)
    × (same_basis c.basis ConsentBasis.boundary ≡ false)
    × (may_carry c.basis c.scope ≡ true)
    × (reached_by c.expires_at c.granted_at ≡ false)

-- A consent that `Grant` gives out is sound: it joins two people, its scope and basis are of the
-- list, its basis may carry its scope, and its end, if any, comes after its start. It is in force
-- exactly from its start until its end.
pub grant-IsSound :
    (id : ConsentId) (tenant : TenantId) (guardian_id student_id : PersonId) (scope : GuardianScope)
    (basis : ConsentBasis) (granted_by : PersonId) (granted_at : Instant)
    (expires_at : Option Instant) (c : GuardianConsent)
    → grant id tenant guardian_id student_id scope basis granted_by granted_at expires_at ≡ ok c
    → IsSound c
      × ((moment : Instant)
          → is_active_at c moment
            ≡ (not_after granted_at moment && not (reached_by expires_at moment)))
unfolding grant IsSound is_active_at
grant-IsSound id tenant g s scope basis by at end c granted = (ground arith, λ moment. ground arith)

-- A consent that has been revoked is in force at no moment, stays sound if it was, keeps whose it is
-- and for what, and is not revoked again.
pub revoked_final :
    (c d : GuardianConsent) (at : Instant) (by : PersonId)
    → revoked c at by ≡ ok d
    → ((moment : Instant) → is_active_at d moment ≡ false)
      × (IsSound c → IsSound d)
      × (d.guardian_id ≡ c.guardian_id)
      × (d.student_id ≡ c.student_id)
      × (d.scope ≡ c.scope)
      × ((again : Instant) (who : PersonId)
          → revoked d again who
            ≡ refuse conflict "consent_already_revoked" "этот уровень доступа уже отозван")
unfolding revoked IsSound is_active_at
revoked_final c d at by h = (
  λ moment. ground arith,
  λ sound. ground arith,
  ground arith,
  ground arith,
  ground arith,
  λ again who. ground arith,
)
