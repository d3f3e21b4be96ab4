-- ===== src/Examples/People.antt =====
-- A practice with a tutor, a student of fifteen and the student's guardian.
use pdr.Base.{◌≡◌, arith, ℕ, List, Option, none, some, ℤ, pos}
use pdr.Core.Errors.{ok}
use pdr.Core.Ids.{TenantId, PersonId}
use pdr.Core.Time.{Instant}
use pdr.Identity.Roles.{
  Role, RoleSet, guardian, student, no_roles, with_role, has_role, same_role, has_role-with_role,
  has_role-no_roles,
}
use pdr.Identity.Scopes.{schedule, recordings}
use pdr.Identity.Abilities.{no_capabilities}
use pdr.Identity.Actions.{Resource}
use pdr.Identity.Guardianship.{Guardianship}
use pdr.Identity.Consents.{GuardianConsent, guardianship, named_by_student}
use pdr.Identity.Access.{MaturityRule, no_access}
use pdr.Identity.Ages.{BirthDate}
use pdr.Identity.Policies.{Subject, in_my_care}
use pdr.Identity.Subjects.{Ports}

abbrev pub practice : TenantId
practice = record { value = 1 }

abbrev pub parent : PersonId
parent = record { value = 2 }

abbrev pub pupil : PersonId
pupil = record { value = 3 }

abbrev pub teacher : PersonId
teacher = record { value = 4 }

abbrev pub guardians : RoleSet
guardians = with_role no_roles guardian

abbrev pub pupils : RoleSet
pupils = with_role no_roles student

pub guardians_only : (r : Role) → has_role guardians r ≡ same_role guardian r
guardians_only r = ground (arith, has_role-with_role no_roles guardian r, has_role-no_roles r)

pub pupils_only : (r : Role) → has_role pupils r ≡ same_role student r
pupils_only r = ground (arith, has_role-with_role no_roles student r, has_role-no_roles r)

abbrev pub moment : ℤ → Instant
moment micros = record { micros = micros }

-- The first of January 2025.
abbrev pub new_year : Instant
new_year = moment (pos 1735689600000000)

abbrev pub day_of_micros : ℕ
day_of_micros = 86400000000

abbrev pub born : BirthDate
born = record { year = pos 2012; month = 2; day = 29 }

abbrev pub rule : MaturityRule
rule = record {
  thresholds = record {
    slots_and_reviews_years = pos 14;
    own_payments_years = pos 16;
    majority_years = pos 18;
  };
  grace = pos day_of_micros;
}

-- Opened by the guardianship.
abbrev pub to_schedule : GuardianConsent
to_schedule = record {
  id = record { value = 10 };
  tenant = practice;
  guardian_id = parent;
  student_id = pupil;
  scope = schedule;
  basis = guardianship;
  granted_by = teacher;
  granted_at = moment (pos 0);
  expires_at = none;
  revoked_at = none;
  revoked_by = none;
}

-- Opened by the student, until the end of January.
abbrev pub to_recordings : GuardianConsent
to_recordings = record to_schedule {
  id = record { value = 11 };
  scope = recordings;
  basis = named_by_student;
  granted_by = pupil;
  expires_at = some (moment (pos 1738281600000000));
}

abbrev pub tie : Guardianship
tie = record {
  tenant = practice;
  guardian_id = parent;
  student_id = pupil;
  granted_at = moment (pos 0);
  revoked_at = none;
}

abbrev pub ports_of : Option Guardianship → List GuardianConsent → Ports
ports_of found consents = record {
  find_active = λ _ _ _. found;
  active_for = λ _ _ _. consents;
  roles_of = λ _ _. guardians;
  birth_date_of = λ _ _. some born;
  rule = ok rule;
  now_looking = new_year;
  now_weighing = new_year;
  now_ageing = new_year;
}

abbrev pub lesson : Resource
lesson = record { tenant = practice; owner = some teacher; subject = some pupil }

-- The parent, as he stands before any consent.
abbrev pub stranger : Subject
stranger = record {
  tenant = practice;
  person = parent;
  roles = guardians;
  tie = in_my_care;
  access = no_access;
  able = no_capabilities;
}
