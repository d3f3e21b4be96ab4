-- ===== src/Identity/Guardianship/Lifecycle.antt =====
-- identity/core/guardianship.cpp: from the start of a guardianship to its end.
use pdr.Base.{◌≡◌, refl, true, false, some, arith}
use pdr.Core.Errors.{ok, refuse, conflict}
use pdr.Core.Ids.{same_id}
use pdr.Core.Time.{Instant, before}
use pdr.Identity.Roles.{TenantMembership, same_tenant_as, same_role, guardian, student}
use pdr.Identity.Guardianship.{Guardianship, grant, establish, is_active, revoked}

-- A guardianship is established only within one practice, by someone who is guardian there, over
-- someone else who is a student there, and it is in force from then on.
pub establish_sound :
    (of_guardian of_student : TenantMembership) (at : Instant) (g : Guardianship)
    → establish of_guardian of_student at ≡ ok g
    → (same_tenant_as of_guardian of_student ≡ true)
      × (same_role of_guardian.role guardian ≡ true)
      × (same_role of_student.role student ≡ true)
      × (same_id g.guardian_id g.student_id ≡ false)
      × (g.guardian_id ≡ of_guardian.person)
      × (g.student_id ≡ of_student.person)
      × (is_active g ≡ true)
unfolding establish grant is_active
establish_sound of_guardian of_student at g h = (
  ground arith,
  ground arith,
  ground arith,
  ground arith,
  ground arith,
  ground arith,
  ground arith,
)

-- A guardianship in force is revoked at any moment not before its start. It then keeps its two
-- people, is no longer in force, and is not revoked again.
pub revoked_once :
    (g : Guardianship) (now : Instant)
    → is_active g ≡ true
    → before now g.granted_at ≡ false
    → (h : Guardianship) × (revoked g now ≡ ok h)
      × (is_active h ≡ false)
      × (h.guardian_id ≡ g.guardian_id)
      × (h.student_id ≡ g.student_id)
      × ((again : Instant)
          → revoked h again
            ≡ refuse conflict "guardianship_already_revoked" "опека отозвана раньше")
unfolding revoked is_active
revoked_once g now active ordered =
    (record g { revoked_at = some now }, ground arith, refl, refl, refl, λ again. refl)
