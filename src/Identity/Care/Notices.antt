-- ===== src/Identity/Care/Notices.antt =====
-- identity/application/announce_coming_of_age.cpp, announce_guardian_handover.cpp and
-- notify_guardian_of_act.cpp: what is told to the guardians, and when.
pub mod Moments
use pdr.Base.{
  ℕ, suc, Bool, true, false, not, ◌&&◌, List, [], ◌∷◌, Option, none, some, has_value, String, ℤ,
  pos, ◌-ℤ◌, if◌then◌else◌, find_named, ◌==◌,
}
use pdr.Core.Errors.{Result, ok, err}
use pdr.Core.Ids.{TenantId, PersonId}
use pdr.Core.Time.{Instant, Duration, shift, before}
use pdr.Identity.Scopes.{GuardianScope, GuardianScopeSet, has_scope, every_guardian_scope}
use pdr.Identity.Abilities.{
  AgeThreshold, every_age_threshold, years_of, AgeThresholds, threshold_name,
}
use pdr.Identity.Guardianship.{Guardianship}
use pdr.Identity.Consents.{GuardianConsent}
use pdr.Identity.Access.{MaturityRule, threshold_years, weigh_consents, GuardianAccess}
use pdr.Identity.Ages.{BirthDate, AgeStatus, age_at, turns_at, reached}
use pdr.Identity.Subjects.{comes_of_age}

abbrev pub k_day : Duration
k_day = pos 86400000000

-- The loop of `JustCrossed`: the last threshold that is crossed.
unfoldable pub crossed_from :
    AgeStatus
    → AgeStatus
    → AgeThresholds
    → Option AgeThreshold
    → List AgeThreshold
    → Option AgeThreshold
crossed_from yesterday today thresholds crossed [] = crossed
crossed_from yesterday today thresholds crossed (threshold ∷ rest) =
    let years = years_of thresholds threshold in
    crossed_from yesterday today thresholds
      (if not (reached yesterday years) && reached today years then some threshold else crossed)
      rest

unfoldable pub just_crossed : AgeStatus → AgeStatus → AgeThresholds → Option AgeThreshold
unfolding crossed_from
just_crossed yesterday today thresholds =
    crossed_from yesterday today thresholds none every_age_threshold

-- `CapabilitiesWidened`, with its envelope.
pub record CapabilitiesWidened : Type 0 where
  pub tenant : TenantId
  pub at : Instant
  pub student : PersonId
  pub guardian : Option PersonId
  pub threshold : String
  pub years : ℤ

unfoldable pub widened_for_all : CapabilitiesWidened → List PersonId → List CapabilitiesWidened
widened_for_all event [] = []
widened_for_all event (guardian ∷ rest) =
    record event { guardian = some guardian } ∷ widened_for_all event rest

-- To the guardians, or to the student himself where he has none.
unfoldable pub widened : CapabilitiesWidened → List PersonId → List CapabilitiesWidened
unfolding widened_for_all
widened event [] = event ∷ []
widened event (guardian ∷ rest) = widened_for_all event (guardian ∷ rest)

module _ (tenant : TenantId) (student : PersonId) (guardians : List PersonId) (now : Instant) where
  crossed_event : ℤ → Option AgeThreshold → List CapabilitiesWidened
  unfolding widened threshold_name
  crossed_event years none = []
  crossed_event years (some threshold) =
      widened
        (record {
          tenant = tenant;
          at = now;
          student = student;
          guardian = none;
          threshold = threshold_name threshold;
          years = years;
        })
        guardians

  aged_event : AgeThresholds → Result AgeStatus → Result AgeStatus → List CapabilitiesWidened
  unfolding crossed_event just_crossed
  aged_event thresholds (ok yesterday) (ok today) =
      crossed_event today.years (just_crossed yesterday today thresholds)
  aged_event thresholds (ok yesterday) (err e) = []
  aged_event thresholds (err e) today = []

  born_event : AgeThresholds → Option BirthDate → List CapabilitiesWidened
  unfolding aged_event ◌-ℤ◌
  born_event thresholds none = []
  born_event thresholds (some born) =
      aged_event thresholds (age_at born (record { micros = now.micros -ℤ k_day }))
        (age_at born now)

  announced_by : Option BirthDate → Result MaturityRule → Result (List CapabilitiesWidened)
  unfolding born_event
  announced_by born (err e) = err e
  announced_by born (ok rule) = ok (born_event rule.thresholds born)

  -- `AnnounceComingOfAge::Execute`: what is published; the answer of the source is their number.
  unfoldable pub announce_coming_of_age :
      Option BirthDate → Result MaturityRule → Result (List CapabilitiesWidened)
  unfolding announced_by
  announce_coming_of_age born rule = announced_by born rule

-- The loop that looks for `decide_by`.
unfoldable pub earliest : Instant → Option Instant → Option Instant
earliest closes_at none = some closes_at
earliest closes_at (some decide_by) =
    if before closes_at decide_by then some closes_at else some decide_by

abbrev pub closes_at : BirthDate → MaturityRule → GuardianScope → Instant
closes_at born rule scope = shift (turns_at born (threshold_years rule scope)) rule.grace

unfoldable pub decide_by_from :
    BirthDate
    → MaturityRule
    → GuardianScopeSet
    → Option Instant
    → List GuardianScope
    → Option Instant
unfolding earliest
decide_by_from born rule deciding found [] = found
decide_by_from born rule deciding found (scope ∷ rest) =
    decide_by_from born rule deciding
      (if not (has_scope deciding scope) then found else earliest (closes_at born rule scope) found)
      rest

-- `GuardianHandoverStarted`, with its envelope.
pub record GuardianHandoverStarted : Type 0 where
  pub tenant : TenantId
  pub at : Instant
  pub guardian : PersonId
  pub student : PersonId
  pub decide_by : Option Instant

is_empty : GuardianScopeSet → Bool
is_empty scopes = scopes.bits == 0

module _ (tenant : TenantId) (guardian student : PersonId) (consents : List GuardianConsent)
    (found : Option Guardianship) (now : Instant) where
  -- After `WeighConsents`.
  handover_of : BirthDate → MaturityRule → GuardianScopeSet → List GuardianHandoverStarted
  unfolding decide_by_from is_empty
  handover_of born rule deciding =
      if is_empty deciding
      then []
      else record {
        tenant = tenant;
        at = now;
        guardian = guardian;
        student = student;
        decide_by = decide_by_from born rule deciding none every_guardian_scope;
      }
        ∷ []

  handover_born : Option BirthDate → MaturityRule → List GuardianHandoverStarted
  unfolding handover_of
  handover_born none rule = []
  handover_born (some born) rule =
      handover_of born rule
        (weigh_consents (comes_of_age (some born)) rule now (has_value found) consents).deciding

  handover_by : Option BirthDate → Result MaturityRule → Result (List GuardianHandoverStarted)
  unfolding handover_born
  handover_by born (err e) = err e
  handover_by born (ok rule) = ok (handover_born born rule)

  -- `AnnounceGuardianHandover::Execute`: what is published; the answer tells whether anything was.
  unfoldable pub announce_guardian_handover :
      Option BirthDate → Result MaturityRule → Result (List GuardianHandoverStarted)
  unfolding handover_by
  announce_guardian_handover born rule = handover_by born rule

-- identity/core/independent_act.hpp and .cpp.
pub data IndependentAct : Type 0 where
  lesson_rescheduled lesson_cancelled review_written boundary : IndependentAct

unfoldable pub act_name : IndependentAct → String
act_name lesson_rescheduled = "lesson_rescheduled"
act_name lesson_cancelled = "lesson_cancelled"
act_name review_written = "review_written"
act_name IndependentAct.boundary = "boundary"

abbrev pub every_independent_act : List IndependentAct
every_independent_act = lesson_rescheduled ∷ lesson_cancelled ∷ review_written ∷ []

unfoldable pub parse_independent_act : String → Option IndependentAct
unfolding act_name find_named
parse_independent_act text = find_named act_name every_independent_act text

-- `WardAct` of the events, and `Published`.
pub data WardAct : Type 0 where
  rescheduled cancelled reviewed : WardAct

unfoldable pub published_act : IndependentAct → WardAct
published_act lesson_rescheduled = rescheduled
published_act lesson_cancelled = cancelled
published_act review_written = reviewed
published_act IndependentAct.boundary = reviewed

pub record WardActedAlone : Type 0 where
  pub tenant : TenantId
  pub at : Instant
  pub guardian : PersonId
  pub student : PersonId
  pub act : WardAct

-- `NotifyGuardianOfAct::Execute`: what is published, one event for each guardian.
unfoldable pub notify_guardian_of_act :
    TenantId → PersonId → IndependentAct → Instant → List PersonId → List WardActedAlone
unfolding published_act
notify_guardian_of_act tenant student act now [] = []
notify_guardian_of_act tenant student act now (guardian ∷ rest) =
    record {
      tenant = tenant;
      at = now;
      guardian = guardian;
      student = student;
      act = published_act act;
    }
    ∷ notify_guardian_of_act tenant student act now rest
