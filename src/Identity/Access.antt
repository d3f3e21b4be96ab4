-- ===== src/Identity/Access.antt =====
-- identity/core/guardian_access.hpp and guardian_access.cpp: which scopes the consents of a
-- guardian open at a moment. The moment at which the student comes of age for a scope is
-- `AgeStatus::TurnsAt`; the weighing is a function of it, and `Identity.Subjects` supplies it.
pub mod Weigh
use pdr.Base.{
  ◌≡◌, Bool, true, false, not, ◌&&◌, ◌||◌, List, [], ◌∷◌, Option, none, some, ℤ, pos, leb_ℤ,
  if◌then◌else◌,
}
use pdr.Core.Errors.{Result, ok, err, refuse, validation}
use pdr.Core.Time.{Instant, Duration, before, shift, is_positive}
use pdr.Identity.Scopes.{
  GuardianScope, schedule, payments, notes_and_homework, recordings, GuardianScopeSet, no_scopes,
  with_scope,
}
use pdr.Identity.Abilities.{AgeThreshold, AgeThresholds, slots_and_reviews, majority, years_of}
use pdr.Identity.Consents.{GuardianConsent, is_active_at, rests_on_guardianship, granted_by_student}

abbrev pub when_student_decides : GuardianScope → AgeThreshold
when_student_decides notes_and_homework = slots_and_reviews
when_student_decides recordings = slots_and_reviews
when_student_decides schedule = majority
when_student_decides payments = majority
when_student_decides GuardianScope.boundary = majority

-- A value is made by `compose_rule` alone.
pub record MaturityRule : Type 0 where
  pub thresholds : AgeThresholds
  pub grace : Duration

unfoldable pub compose_rule : AgeThresholds → Duration → Result MaturityRule
compose_rule thresholds grace =
    if not (is_positive grace)
    then refuse validation "maturity_grace_not_positive"
        "окно нулевой длины — это мгновенный обрыв доступа"
    else ok (record { thresholds = thresholds; grace = grace })

abbrev pub threshold_years : MaturityRule → GuardianScope → ℤ
threshold_years rule scope = years_of rule.thresholds (when_student_decides scope)

pub record GuardianAccess : Type 0 where
  pub open_scopes : GuardianScopeSet
  pub deciding : GuardianScopeSet
  pub awaits_student : GuardianScopeSet

abbrev pub no_access : GuardianAccess
no_access = record { open_scopes = no_scopes; deciding = no_scopes; awaits_student = no_scopes }

-- `turns_at years` is `AgeStatus::TurnsAt(*student_born_on, years)`, or none where the birth date is
-- not known.
abbrev pub ComesOfAge : Type 0
ComesOfAge = Option (ℤ → Instant)

open_only : GuardianScope → GuardianAccess → GuardianAccess
open_only scope access = record access { open_scopes = with_scope access.open_scopes scope }

-- The part of the loop's body behind the tests of the consent itself, by the student's age.
unfoldable pub weigh_grown :
    ComesOfAge → MaturityRule → Instant → GuardianScope → GuardianAccess → GuardianAccess
unfolding open_only
weigh_grown none rule now scope access = open_only scope access
weigh_grown (some turns_at) rule now scope access =
    let grown_at = turns_at (threshold_years rule scope) in
    if before now grown_at
    then open_only scope access
    else if before now (shift grown_at rule.grace)
    then record access {
      open_scopes = with_scope access.open_scopes scope;
      deciding = with_scope access.deciding scope;
    }
    else record access { awaits_student = with_scope access.awaits_student scope }

module _ (turns_at : ComesOfAge) (rule : MaturityRule) (now : Instant)
    (guardianship_holds : Bool) where
  -- The body of the loop.
  unfoldable pub weigh_one : GuardianConsent → GuardianAccess → GuardianAccess
  unfolding weigh_grown open_only
  weigh_one consent access =
      if not (is_active_at consent now)
      then access
      else if rests_on_guardianship consent && not guardianship_holds
      then access
      else if granted_by_student consent
      then open_only consent.scope access
      else weigh_grown turns_at rule now consent.scope access

  unfoldable pub weigh_from : GuardianAccess → List GuardianConsent → GuardianAccess
  weigh_from access [] = access
  weigh_from access (consent ∷ rest) = weigh_from (weigh_one consent access) rest

  -- `WeighConsents`.
  unfoldable pub weigh_consents : List GuardianConsent → GuardianAccess
  unfolding weigh_from
  weigh_consents consents = weigh_from no_access consents
