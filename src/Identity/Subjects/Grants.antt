-- ===== src/Identity/Subjects/Grants.antt =====
-- subject_builder.cpp with the rights matrix: what a guardian is let into, from the repositories on.
use pdr.Base.{
  ◌≡◌, refl, sym, ap, subst, ◌∙◌, Bool, true, false, ◌&&◌, Option, none, some, has_value, arith,
  All,
}
use pdr.Core.Errors.{Result, ok, err}
use pdr.Core.Ids.{TenantId, PersonId, same_id}
use pdr.Core.Time.{is_positive}
use pdr.Identity.Roles.{owner, tutor, student, guardian, has_role}
use pdr.Identity.Scopes.{
  GuardianScope, has_scope, has_scope-no_scopes, recordings, schedule, payments, notes_and_homework,
}
use pdr.Identity.Actions.{
  Action, Resource, book_lesson, cancel_lesson, reschedule_lesson, view_schedule, view_invoice,
  pay_invoice, manage_auto_payment, view_material, view_progress, export_progress,
  view_lesson_recording, view_lesson_transcript,
}
use pdr.Identity.Consents.{rests_on_guardianship}
use pdr.Identity.Access.{MaturityRule, GuardianAccess, no_access}
use pdr.Identity.Access.Weigh.{weigh_consents_ended, weigh_consents-sets, some_consent, opens}
use pdr.Identity.Policies.{Tie, in_my_care, same_tie, Subject}
use pdr.Identity.Policies.Table.{policy_set, decide}
use pdr.Identity.Policies.Rights.{decide-ways, some_open, is_open, ways}
use pdr.Identity.Policies.Safety.{guardian_needs_scope}
use pdr.Identity.Subjects.{
  Ports, comes_of_age, access_by, access_of, access_in_care, subject_for, tie_for,
}

module _ (ports : Ports) (tenant : TenantId) (actor person : PersonId) where
  open ports use {find_active, active_for, roles_of, rule}

  access_by_ended :
      (r : Result MaturityRule)
      → find_active tenant actor person ≡ none
      → All (λ c. rests_on_guardianship c ≡ true) (active_for tenant actor person)
      → access_by ports tenant r actor person ≡ no_access
  unfolding access_by
  access_by_ended (err e) ended rest = refl
  access_by_ended (ok r) ended rest = rw (ended) (weigh_consents_ended _ r _ _ rest)

  in_care_ended :
      (tie : Tie)
      → find_active tenant actor person ≡ none
      → All (λ c. rests_on_guardianship c ≡ true) (active_for tenant actor person)
      → access_in_care ports tenant tie actor (some person) ≡ no_access
  unfolding access_in_care access_of
  in_care_ended tie ended rest = ground (arith, access_by_ended rule ended rest)

  subject_ended :
      (resource : Resource)
      → resource.subject ≡ some person
      → find_active tenant actor person ≡ none
      → All (λ c. rests_on_guardianship c ≡ true) (active_for tenant actor person)
      → (subject_for ports tenant actor resource).access ≡ no_access
  unfolding subject_for
  subject_ended resource about ended rest =
      let tie = tie_for ports tenant actor resource in
      subst (λ o. access_in_care ports tenant tie actor o ≡ no_access) (sym about)
        (in_care_ended tie ended rest)

  -- Once a guardianship has ended, a guardian who holds no other role, and whose consents all rest
  -- on that guardianship, is allowed nothing about the student.
  pub ended_guardian_denied :
      (a : Action) (resource : Resource)
      → resource.subject ≡ some person
      → find_active tenant actor person ≡ none
      → All (λ c. rests_on_guardianship c ≡ true) (active_for tenant actor person)
      → has_role (roles_of tenant actor) owner ≡ false
      → has_role (roles_of tenant actor) tutor ≡ false
      → has_role (roles_of tenant actor) student ≡ false
      → (decide policy_set (subject_for ports tenant actor resource) a resource).0.is_allowed
        ≡ false
  unfolding subject_for
  ended_guardian_denied a resource about ended rest no_owner no_tutor no_student =
      guardian_needs_scope (subject_for ports tenant actor resource) a resource no_owner no_tutor
        no_student
        (λ x.
          ap (λ access. has_scope access.open_scopes x) (subject_ended resource about ended rest)
          ∙ has_scope-no_scopes x)

-- The scope, if any, through which a guardian is let into an action.
abbrev pub scope_of : Action → Option GuardianScope
scope_of book_lesson = some schedule
scope_of cancel_lesson = some schedule
scope_of reschedule_lesson = some schedule
scope_of view_schedule = some schedule
scope_of view_invoice = some payments
scope_of pay_invoice = some payments
scope_of manage_auto_payment = some payments
scope_of view_material = some notes_and_homework
scope_of view_progress = some notes_and_homework
scope_of export_progress = some notes_and_homework
scope_of view_lesson_recording = some recordings
scope_of view_lesson_transcript = some recordings
scope_of _ = none

abbrev pub is_open_scope : GuardianAccess → Option GuardianScope → Bool
is_open_scope access none = false
is_open_scope access (some x) = has_scope access.open_scopes x

ways_of_guardian :
    (s : Subject) (a : Action)
    → has_role s.roles owner ≡ false
    → has_role s.roles tutor ≡ false
    → has_role s.roles student ≡ false
    → has_role s.roles guardian ≡ true
    → some_open (ways a) s ≡ same_tie s.tie in_my_care && is_open_scope s.access (scope_of a)
unfolding ways some_open is_open
ways_of_guardian s book_lesson no_owner no_tutor no_student is_guardian = ground arith
ways_of_guardian s _ no_owner no_tutor no_student is_guardian = ground arith

module _ (ports : Ports) (tenant : TenantId) (actor person : PersonId) (r : MaturityRule)
    (ruled : ports.rule ≡ ok r) (positive : is_positive r.grace ≡ true) where
  -- Some consent of the store opens the scope now.
  abbrev pub consent_opens : GuardianScope → Bool
  consent_opens x =
      some_consent
        (opens (comes_of_age (ports.birth_date_of tenant person)) r ports.now_weighing
          (has_value (ports.find_active tenant actor person)) x)
        (ports.active_for tenant actor person)

  access_of-opens :
      (x : GuardianScope)
      → has_scope (access_of ports tenant actor person).open_scopes x ≡ consent_opens x
  unfolding access_of access_by
  access_of-opens x =
      subst
        (λ rule.
          has_scope (access_by ports tenant rule actor person).open_scopes x ≡ consent_opens x)
        (sym ruled)
        (weigh_consents-sets (comes_of_age (ports.birth_date_of tenant person)) r ports.now_weighing
          (has_value (ports.find_active tenant actor person)) positive x
          (ports.active_for tenant actor person)).0

  abbrev pub consent_lets_in : Option GuardianScope → Bool
  consent_lets_in none = false
  consent_lets_in (some x) = consent_opens x

  in_care_opens :
      (tie : Tie) (x : Option GuardianScope)
      → same_tie tie in_my_care
          && is_open_scope (access_in_care ports tenant tie actor (some person)) x
        ≡ same_tie tie in_my_care && consent_lets_in x
  unfolding access_in_care
  in_care_opens tie none = refl
  in_care_opens tie (some x) = ground (arith, access_of-opens x)

  -- Where the rules of age are known and the window after coming of age has a positive length, a
  -- guardian with no other role is allowed an action about the student exactly in the same practice,
  -- with the student in his care, and with a consent in the store that opens now the scope of the
  -- action.
  pub guardian_allowed :
      (a : Action) (resource : Resource)
      → resource.subject ≡ some person
      → has_role (ports.roles_of tenant actor) owner ≡ false
      → has_role (ports.roles_of tenant actor) tutor ≡ false
      → has_role (ports.roles_of tenant actor) student ≡ false
      → has_role (ports.roles_of tenant actor) guardian ≡ true
      → (decide policy_set (subject_for ports tenant actor resource) a resource).0.is_allowed
        ≡ same_id tenant resource.tenant
          && (same_tie (tie_for ports tenant actor resource) in_my_care
              && consent_lets_in (scope_of a))
  unfolding subject_for
  guardian_allowed a resource about no_owner no_tutor no_student is_guardian =
      let s = subject_for ports tenant actor resource in
      let tie = tie_for ports tenant actor resource in
      decide-ways s a resource
      ∙ ap (λ b. same_id tenant resource.tenant && b)
          (ways_of_guardian s a no_owner no_tutor no_student is_guardian
            ∙ subst
                (λ o.
                  same_tie tie in_my_care
                    && is_open_scope (access_in_care ports tenant tie actor o) (scope_of a)
                  ≡ same_tie tie in_my_care && consent_lets_in (scope_of a))
                (sym about) (in_care_opens tie (scope_of a)))
