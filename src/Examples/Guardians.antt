-- ===== src/Examples/Guardians.antt =====
-- The guardian of one student, from the consents to the decision.
use pdr.Base.{
  ◌≡◌, refl, true, false, ◌&&◌, ◌||◌, List, [], ◌∷◌, none, some, has_value, All, arith, pos,
}
use pdr.Core.Ids.{same_id}
use pdr.Core.Time.{Instant}
use pdr.Identity.Roles.{owner, tutor, student, guardian}
use pdr.Identity.Scopes.{schedule, recordings, has_scope, same_scope}
use pdr.Identity.Actions.{view_schedule, view_lesson_recording}
use pdr.Identity.Consents.{
  GuardianConsent, rests_on_guardianship, is_active_at, named_by_the_student_himself,
  granted_by_student,
}
use pdr.Identity.Access.{ComesOfAge, weigh_consents}
use pdr.Identity.Access.Weigh.{
  some_consent, opens, in_window, lapsed, weigh_consents-sets, weigh_consents_mono,
}
use pdr.Identity.Ages.{turns_at}
use pdr.Identity.Policies.{same_tie, in_my_care}
use pdr.Identity.Policies.Table.{policy_set, decide}
use pdr.Identity.Subjects.{Ports, subject_for, tie_for}
use pdr.Identity.Subjects.Grants.{
  ended_guardian_denied, guardian_allowed, consent_lets_in, scope_of,
}
use pdr.Identity.Journal.{may_act_for}
use pdr.Identity.Journal.Traces.{may_act_for_lem}
use pdr.Examples.People.{
  practice, parent, pupil, born, rule, new_year, moment, to_schedule, to_recordings, tie, ports_of,
  lesson, guardians_only,
}

abbrev both : List GuardianConsent
both = to_schedule ∷ to_recordings ∷ []

abbrev of_age : ComesOfAge
of_age = some (turns_at born)

weigh_consents-sets_example :
    let access = weigh_consents of_age rule new_year true both in
    (has_scope access.open_scopes schedule
      ≡ some_consent (opens of_age rule new_year true schedule) both)
    × (has_scope access.deciding schedule
        ≡ some_consent (in_window of_age rule new_year true schedule) both)
    × (has_scope access.awaits_student schedule
        ≡ some_consent (lapsed of_age rule new_year true schedule) both)
weigh_consents-sets_example = weigh_consents-sets of_age rule new_year true refl schedule both

-- A month later nothing more is open.
abbrev later : Instant
later = moment (pos 1738195200000000)

abbrev own : List GuardianConsent
own = to_recordings ∷ []

recordings_later :
    has_scope (weigh_consents of_age rule later false own).open_scopes recordings ≡ true
unfolding is_active_at rests_on_guardianship granted_by_student same_scope
recordings_later = ground (arith, weigh_consents-sets of_age rule later false refl recordings own)

weigh_consents_mono_example :
    has_scope (weigh_consents of_age rule new_year false own).open_scopes recordings ≡ true
weigh_consents_mono_example =
    weigh_consents_mono rule new_year later false refl of_age recordings own refl (refl, tt)
      recordings_later

rests : All (λ c. rests_on_guardianship c ≡ true) (to_schedule ∷ [])
unfolding rests_on_guardianship
rests = (refl, tt)

-- The guardianship has been revoked.
abbrev ended : Ports
ended = ports_of none (to_schedule ∷ [])

ended_guardian_denied_example :
    (decide policy_set (subject_for ended practice parent lesson) view_schedule lesson).0.is_allowed
    ≡ false
ended_guardian_denied_example =
    ended_guardian_denied ended practice parent pupil view_schedule lesson refl refl rests
      (guardians_only owner) (guardians_only tutor) (guardians_only student)

abbrev in_force : Ports
in_force = ports_of (some tie) both

guardian_allowed_example :
    (decide policy_set
      (subject_for in_force practice parent lesson)
      view_lesson_recording
      lesson).0.is_allowed
    ≡ same_id practice lesson.tenant
      && (same_tie (tie_for in_force practice parent lesson) in_my_care
          && consent_lets_in in_force practice parent pupil rule refl refl
              (scope_of view_lesson_recording))
guardian_allowed_example =
    guardian_allowed in_force practice parent pupil rule refl refl view_lesson_recording lesson refl
      (guardians_only owner) (guardians_only tutor) (guardians_only student)
      (guardians_only guardian)

may_act_for_lem_example :
    may_act_for in_force practice parent pupil
    ≡ same_id pupil parent
      || (has_value (in_force.find_active practice parent pupil)
          || some_consent
              (λ c. named_by_the_student_himself c.basis && is_active_at c in_force.now_looking)
              (in_force.active_for practice parent pupil))
may_act_for_lem_example = may_act_for_lem in_force practice parent pupil
