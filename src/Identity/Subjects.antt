-- ===== src/Identity/Subjects.antt =====
-- identity/application/policies/subject_builder.hpp and .cpp: how the subject of a request is put
-- together from the repositories. The repositories, the settings and the clock are the ports of the
-- source, which the database fills; here they are parameters. A request reads the clock up to three
-- times, and each reading is a parameter of its own.
pub mod Able
pub mod Grants
use pdr.Base.{
  ◌≡◌, Bool, true, false, not, ◌&&◌, ◌||◌, List, [], ◌∷◌, Option, none, some, has_value, ℤ,
  if◌then◌else◌,
}
use pdr.Core.Errors.{Result, ok, err}
use pdr.Core.Ids.{TenantId, PersonId, same_id}
use pdr.Core.Time.{Instant}
use pdr.Identity.Roles.{RoleSet}
use pdr.Identity.Abilities.{
  Capability, Capabilities, no_capabilities, able_where, every_capability, arrives_with, years_of,
  AgeThresholds,
}
use pdr.Identity.Actions.{Resource}
use pdr.Identity.Guardianship.{Guardianship}
use pdr.Identity.Consents.{GuardianConsent, named_by_the_student_himself, is_active_at}
use pdr.Identity.Access.{MaturityRule, GuardianAccess, no_access, ComesOfAge, weigh_consents}
use pdr.Identity.Ages.{BirthDate, AgeStatus, age_at, turns_at, reached}
use pdr.Identity.Policies.{Tie, in_my_care, same_tie, Subject, tie_between, is_person}

pub record Ports : Type 0 where
  -- `GuardianshipRepository::FindActive`, `GuardianConsents::ActiveFor`, `RoleRepository::RolesOf`,
  -- `BirthDates::Of` and `MaturitySettings::Rule`
  pub find_active : TenantId → PersonId → PersonId → Option Guardianship
  pub active_for : TenantId → PersonId → PersonId → List GuardianConsent
  pub roles_of : TenantId → PersonId → RoleSet
  pub birth_date_of : TenantId → PersonId → Option BirthDate
  pub rule : Result MaturityRule
  -- `Clock::Now`, as `LooksAfter`, `AccessOf` and `AbilityOf` read it
  pub now_looking : Instant
  pub now_weighing : Instant
  pub now_ageing : Instant

-- The loop of `LooksAfter`.
unfoldable pub watches : Instant → List GuardianConsent → Bool
watches now [] = false
watches now (consent ∷ rest) =
    if named_by_the_student_himself consent.basis && is_active_at consent now
    then true
    else watches now rest

-- `Compute` of capabilities.cpp, of an age as `AgeStatus` has it.
unfoldable pub compute : AgeStatus → AgeThresholds → Capabilities
compute age thresholds =
    able_where (λ capability. reached age (years_of thresholds (arrives_with capability)))
      no_capabilities every_capability

abbrev pub comes_of_age : Option BirthDate → ComesOfAge
comes_of_age none = none
comes_of_age (some born) = some (turns_at born)

module _ (ports : Ports) (tenant : TenantId) where
  open ports use {
    find_active, active_for, roles_of, birth_date_of, rule, now_looking, now_weighing, now_ageing,
  }

  looks_after_student : PersonId → Option PersonId → Bool
  looks_after_student actor none = false
  looks_after_student actor (some student) =
      if same_id student actor
      then false
      else if has_value (find_active tenant actor student)
      then true
      else watches now_looking (active_for tenant actor student)

  unfoldable pub looks_after : PersonId → Resource → Bool
  unfolding looks_after_student
  looks_after actor resource = looks_after_student actor resource.subject

  unfoldable pub tie_for : PersonId → Resource → Tie
  tie_for actor resource = tie_between actor resource (looks_after actor resource)

  access_by : Result MaturityRule → PersonId → PersonId → GuardianAccess
  access_by (err e) guardian student = no_access
  access_by (ok r) guardian student =
      weigh_consents (comes_of_age (birth_date_of tenant student)) r now_weighing
        (has_value (find_active tenant guardian student)) (active_for tenant guardian student)

  unfoldable pub access_of : PersonId → PersonId → GuardianAccess
  unfolding access_by
  access_of guardian student = access_by rule guardian student

  ability_at : AgeThresholds → Result AgeStatus → Capabilities
  ability_at thresholds (ok age) = compute age thresholds
  ability_at thresholds (err e) = no_capabilities

  ability_by : Result MaturityRule → Option BirthDate → Capabilities
  unfolding ability_at
  ability_by (ok r) (some born) = ability_at r.thresholds (age_at born now_ageing)
  ability_by _ _ = no_capabilities

  unfoldable pub ability_of : PersonId → Capabilities
  unfolding ability_by
  ability_of person = ability_by rule (birth_date_of tenant person)

  access_in_care : Tie → PersonId → Option PersonId → GuardianAccess
  access_in_care tie actor none = no_access
  access_in_care tie actor (some student) =
      if same_tie tie in_my_care then access_of actor student else no_access

  -- `SubjectBuilder::For`.
  unfoldable pub subject_for : PersonId → Resource → Subject
  unfolding access_in_care
  subject_for actor resource =
      let tie = tie_for actor resource in
      record {
        tenant = tenant;
        person = actor;
        roles = roles_of tenant actor;
        tie = tie;
        access = access_in_care tie actor resource.subject;
        able = ability_of actor;
      }
