-- ===== src/Examples/Policies.antt =====
-- The rights matrix on concrete requests.
use pdr.Base.{◌≡◌, refl, true, false, ◌&&◌, some, List, [], ◌∷◌, ◌↔◌, arith, if◌then◌else◌}
use pdr.Core.Ids.{same_id}
use pdr.Identity.Roles.{guardian, student, tutor, owner}
use pdr.Identity.Scopes.{
  schedule, payments, same_scope, no_scopes, with_scope, has_scope-with_scope,
}
use pdr.Identity.Abilities.{has_capability-no_capabilities}
use pdr.Identity.Actions.{
  Action, view_schedule, pay_invoice, deny, foreign_tenant, no_policy, same_action, action_name,
  parse_action,
}
use pdr.Identity.Actions.Names.{parse_action-action_name}
use pdr.Identity.Policies.{Subject, Policy, about_me, need_role, need_tie}
use pdr.Identity.Policies.Table.{policy_set, decide}
use pdr.Identity.Policies.Rights.{decide-ways, some_open, ways, is_open}
use pdr.Identity.Policies.Safety.{decide-faults, Extends, decide_mono, child_may_exactly}
use pdr.Examples.People.{stranger, lesson, pupil, pupils, pupils_only, guardians_only}

-- The parent with the schedule open.
abbrev let_in : Subject
let_in = record stranger {
  access = record stranger.access { open_scopes = with_scope no_scopes schedule };
}

decide-ways_example :
    (decide policy_set let_in view_schedule lesson).0.is_allowed
    ≡ same_id let_in.tenant lesson.tenant && some_open (ways view_schedule) let_in
decide-ways_example = decide-ways let_in view_schedule lesson

decide-faults_example :
    let (decision, faults) = decide policy_set let_in Action.boundary lesson in
    (faults ≡ (
      if same_id let_in.tenant lesson.tenant && same_action Action.boundary Action.boundary
      then Action.boundary ∷ []
      else []))
    × (same_id let_in.tenant lesson.tenant ≡ false → decision ≡ deny foreign_tenant)
    × (same_id let_in.tenant lesson.tenant ≡ true
        → same_action Action.boundary Action.boundary ≡ true
        → decision ≡ deny no_policy)
decide-faults_example = decide-faults let_in Action.boundary lesson

abbrev let_in_twice : Subject
let_in_twice = record let_in {
  access = record let_in.access { open_scopes = with_scope let_in.access.open_scopes payments };
}

wider : Extends let_in let_in_twice
wider = record {
  same_tenant = refl;
  same_tied = refl;
  more_roles = λ r h. h;
  more_able = λ c h. h;
  more_open = λ x h. ground (arith, h, has_scope-with_scope let_in.access.open_scopes payments x);
}

let_in_allowed : (decide policy_set let_in view_schedule lesson).0.is_allowed ≡ true
unfolding ways some_open is_open same_scope
let_in_allowed = ground (
  arith,
  decide-ways let_in view_schedule lesson,
  guardians_only guardian,
  has_scope-with_scope no_scopes schedule schedule,
)

decide_mono_example : (decide policy_set let_in_twice view_schedule lesson).0.is_allowed ≡ true
decide_mono_example = decide_mono let_in let_in_twice view_schedule lesson wider let_in_allowed

-- The student, who has reached no threshold.
abbrev child : Subject
child = record stranger { person = pupil; roles = pupils; tie = about_me }

child_may_exactly_example : (decide policy_set child view_schedule lesson).0.is_allowed ≡ true
child_may_exactly_example =
    child_may_exactly child view_schedule lesson refl (pupils_only owner) (pupils_only tutor)
      (pupils_only student) refl has_capability-no_capabilities

abbrev two_parts : List Policy
two_parts = need_role guardian ∷ need_tie about_me ∷ []

parse_action-action_name_example : (parse_action "pay_invoice" ≡ some pay_invoice) ↔ (
    (action_name pay_invoice ≡ "pay_invoice") × (same_action pay_invoice Action.boundary ≡ false))
parse_action-action_name_example = parse_action-action_name "pay_invoice" pay_invoice
