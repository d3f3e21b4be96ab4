-- ===== src/Examples/Care.antt =====
-- The notices and the levels of access at the birthdays of a pupil.
use pdr.Base.{◌≡◌, refl, ◌+ℤ◌, ◌-ℤ◌, ◌*ℤ◌, true, [], none, some, pos}
use pdr.Core.Errors.{ok, refuse, conflict}
use pdr.Core.Time.{Instant}
use pdr.Identity.Scopes.{same_scope, GuardianScopeSet, schedule, no_scopes, with_scope, recordings}
use pdr.Identity.Consents.{ConsentId, GuardianConsent, guardianship, grant}
use pdr.Identity.Ages.{AgeStatus, age_at, turns_at, birth_date}
use pdr.Identity.Ages.Agree.{IsBirthDate}
use pdr.Identity.Calendar.{is_date, civil_day, month_at, sys_days, year_at}
use pdr.Identity.Care.Scopes.{
  GrantRequest, Standing, grant_guardian_scope, save, find_active, student_decides,
}
use pdr.Identity.Care.Scopes.Granting.{grant_guardian_scope_lem, passes}
use pdr.Identity.Care.Notices.{k_day}
use pdr.Examples.People.{practice, parent, pupil, new_year, born, rule, tie, to_schedule}

abbrev request : GrantRequest
request = record {
  tenant = practice;
  guardian = parent;
  student = pupil;
  scope = schedule;
  basis = guardianship;
  granted_by = pupil;
  expires_at = none;
}

abbrev standing : Standing
standing = record { found = some tie; born_on = some born; rule = ok rule }

abbrev id : ConsentId
id = record { value = 20 }

abbrev opened : GuardianConsent
opened = record to_schedule { id = id; granted_by = pupil; granted_at = new_year }

passing : passes request standing id new_year [] rule refl ≡ true
unfolding find_active student_decides ◌+ℤ◌ same_scope turns_at ◌*ℤ◌ is_date sys_days ◌-ℤ◌
passing = refl

made : grant id practice parent pupil schedule guardianship pupil new_year none ≡ ok opened
unfolding grant same_scope
made = refl

grant_guardian_scope_lem_example :
    (grant_guardian_scope request standing id new_year [] ≡ (ok opened, save opened []))
    × (find_active practice parent pupil schedule (save opened []) ≡ some opened)
    × ((other : ConsentId) (later : Instant)
        → grant_guardian_scope request standing other later (save opened []) ≡ (
          refuse conflict "consent_already_granted" "этот уровень доступа уже открыт",
          save opened [],
        ))
grant_guardian_scope_lem_example =
    (grant_guardian_scope_lem request standing id new_year [] rule refl).1 opened passing made refl

born-IsBirthDate : IsBirthDate born
unfolding birth_date is_date
born-IsBirthDate = refl

-- The first of March 2026, where 14 years are reached.
abbrev fourteenth_birthday : Instant
fourteenth_birthday = turns_at born (pos 14)

abbrev thirteen : AgeStatus
thirteen = record {
  born_on = born;
  moment = record { micros = fourteenth_birthday.micros -ℤ k_day };
  years = pos 13;
}

abbrev fourteen : AgeStatus
fourteen = record { born_on = born; moment = fourteenth_birthday; years = pos 14 }

was_thirteen : age_at born (record { micros = fourteenth_birthday.micros -ℤ k_day }) ≡ ok thirteen
unfolding age_at turns_at civil_day month_at ◌-ℤ◌ ◌*ℤ◌ is_date ◌+ℤ◌ sys_days year_at
was_thirteen = refl

is_fourteen : age_at born fourteenth_birthday ≡ ok fourteen
unfolding age_at turns_at civil_day month_at ◌-ℤ◌ ◌*ℤ◌ is_date ◌+ℤ◌ sys_days year_at
is_fourteen = refl

-- The levels that the guardian asks about.
abbrev deciding : GuardianScopeSet
deciding = with_scope (with_scope no_scopes schedule) recordings
