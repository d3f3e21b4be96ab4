-- ===== src/Identity/Guardianship.antt =====
-- identity/core/guardianship.hpp and guardianship.cpp: the tie of a guardian to a student.
pub mod Lifecycle
use pdr.Base.{◌≡◌, Bool, true, false, not, ◌&&◌, Option, none, some, has_value, ◌==◌, if◌then◌else◌}
use pdr.Core.Errors.{Result, ok, err, refuse, validation, conflict}
use pdr.Core.Ids.{TenantId, PersonId, same_id}
use pdr.Core.Time.{Instant, before}
use pdr.Identity.Roles.{TenantMembership, same_tenant_as, same_role, guardian, student}

pub record Guardianship : Type 0 where
  pub tenant : TenantId
  pub guardian_id : PersonId
  pub student_id : PersonId
  pub granted_at : Instant
  pub revoked_at : Option Instant

-- `Guardianship::Grant`.
unfoldable pub grant : TenantId → PersonId → PersonId → Instant → Result Guardianship
grant tenant guardian_id student_id granted_at =
    if same_id guardian_id student_id
    then refuse validation "guardianship_self" "ученик не может быть опекуном самому себе"
    else ok (record {
      tenant = tenant;
      guardian_id = guardian_id;
      student_id = student_id;
      granted_at = granted_at;
      revoked_at = none;
    })

-- `Guardianship::Establish`.
unfoldable pub establish : TenantMembership → TenantMembership → Instant → Result Guardianship
unfolding same_tenant_as
establish of_guardian of_student granted_at =
    if not (same_tenant_as of_guardian of_student)
    then refuse validation "guardianship_across_tenants"
        "опекун и ученик числятся у разных репетиторов"
    else if not (same_role of_guardian.role guardian)
    then refuse validation "guardianship_guardian_role_missing"
        "опеку выдают тому, кто здесь опекун"
    else if not (same_role of_student.role student)
    then refuse validation "guardianship_student_role_missing"
        "опеку выдают над тем, кто здесь ученик"
    else grant of_guardian.tenant of_guardian.person of_student.person granted_at

unfoldable pub is_active : Guardianship → Bool
is_active g = not (has_value g.revoked_at)

-- `Guardianship::Revoked`.
unfoldable pub revoked : Guardianship → Instant → Result Guardianship
revoked g now =
    if has_value g.revoked_at
    then refuse conflict "guardianship_already_revoked" "опека отозвана раньше"
    else if before now g.granted_at
    then refuse validation "guardianship_revoked_before_granted"
        "отзыв не может случиться раньше выдачи"
    else ok (record g { revoked_at = some now })
