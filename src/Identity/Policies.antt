-- ===== src/Identity/Policies.antt =====
-- identity/application/policies: who is asking, and the parts that policies are built of
-- (subject.hpp, subject.cpp, policy.hpp, combinators.hpp, capability_policy.hpp and .cpp,
-- guardian_policy.hpp and .cpp).
pub mod Rules
pub mod Table
pub mod Combinators
pub mod Rights
pub mod Safety
use pdr.Base.{
  ℕ, Bool, true, false, not, ◌&&◌, ◌||◌, List, [], ◌∷◌, Option, none, some, String, ltb, ◌==◌,
  if◌then◌else◌,
}
use pdr.Core.Ids.{TenantId, PersonId, same_id}
use pdr.Identity.Roles.{Role, tutor, student, guardian, RoleSet, has_role}
use pdr.Identity.Scopes.{
  GuardianScope, schedule, payments, notes_and_homework, recordings, has_scope,
}
use pdr.Identity.Abilities.{
  Capability, move_own_slots, write_review, decide_own_guardian_access, pay_own_money, choose_tutor,
  Capabilities, has_capability,
}
use pdr.Identity.Actions.{
  Action, Resource, PolicyDecision, DenyReason, allow, deny, allowed, foreign_tenant, role_missing,
  not_yours, scope_missing, student_grew_up, too_young, no_policy,
}
use pdr.Identity.Access.{GuardianAccess}

pub data Tie : Type 0 where
  mine about_me in_my_care untied : Tie

unfoldable pub tie_name : Tie → String
tie_name mine = "mine"
tie_name about_me = "about_me"
tie_name in_my_care = "in_my_care"
tie_name untied = "none"

abbrev tie_index : Tie → ℕ
tie_index mine = 0
tie_index about_me = 1
tie_index in_my_care = 2
tie_index untied = 3

abbrev pub same_tie : Tie → Tie → Bool
same_tie a b = tie_index a == tie_index b

-- `maybe.has_value() && *maybe == person`.
abbrev pub is_person : Option PersonId → PersonId → Bool
is_person none person = false
is_person (some other) person = same_id other person

abbrev has_person : Option PersonId → Bool
has_person none = false
has_person (some other) = true

unfoldable pub tie_between : PersonId → Resource → Bool → Tie
tie_between person resource looks_after_subject =
    if is_person resource.owner person
    then mine
    else if is_person resource.subject person
    then about_me
    else if has_person resource.subject && looks_after_subject
    then in_my_care
    else untied

pub record Subject : Type 0 where
  pub tenant : TenantId
  pub person : PersonId
  pub roles : RoleSet
  pub tie : Tie
  pub access : GuardianAccess
  pub able : Capabilities

-- `Policy::Decide`.
abbrev pub Policy : Type 0
Policy = Subject → Action → Resource → PolicyDecision

-- `Rank`: how near a refusal came to a permission.
abbrev pub rank : DenyReason → ℕ
rank allowed = 0
rank role_missing = 1
rank not_yours = 2
rank scope_missing = 3
rank too_young = 4
rank student_grew_up = 5
rank foreign_tenant = 6
rank no_policy = 7
rank DenyReason.boundary = 7

unfoldable pub need_role : Role → Policy
need_role role subject _ _ = if has_role subject.roles role then allow else deny role_missing

unfoldable pub need_tie : Tie → Policy
need_tie tie subject _ _ = if same_tie subject.tie tie then allow else deny not_yours

unfoldable pub able_to : Capability → Policy
able_to capability subject _ _ =
    if has_capability subject.able capability then allow else deny too_young

unfoldable pub need_scope : GuardianScope → Policy
need_scope scope subject _ _ =
    if has_scope subject.access.open_scopes scope
    then allow
    else if has_scope subject.access.awaits_student scope
    then deny student_grew_up
    else deny scope_missing

-- `AllOf::Decide`: the fold over the parts, which keeps the first refusal.
unfoldable pub all_from : PolicyDecision → List Policy → Policy
all_from decision [] subject action resource = decision
all_from decision (part ∷ parts) subject action resource =
    all_from (if decision.is_allowed then part subject action resource else decision) parts subject
      action resource

unfoldable pub all_of : List Policy → Policy
unfolding all_from
all_of parts = all_from allow parts

abbrev pub better : PolicyDecision → PolicyDecision → PolicyDecision
better best decision =
    if decision.is_allowed || ltb (rank best.reason) (rank decision.reason) then decision else best

-- `AnyOf::Decide`: the fold over the parts, which stops at a permission and keeps otherwise the
-- refusal of the highest rank.
unfoldable pub any_from : PolicyDecision → List Policy → Policy
any_from best [] subject action resource = best
any_from best (part ∷ parts) subject action resource =
    any_from (if best.is_allowed then best else better best (part subject action resource)) parts
      subject action resource

unfoldable pub any_of : List Policy → Policy
unfolding any_from
any_of parts = any_from (deny role_missing) parts

-- `StudentRule` and `GuardianRule`.
unfoldable pub grown : Capability → Policy
grown capability = all_of (need_role student ∷ need_tie about_me ∷ able_to capability ∷ [])

abbrev pub student_moving_own_slots : Policy
student_moving_own_slots = grown move_own_slots

abbrev pub student_writing_review : Policy
student_writing_review = grown write_review

abbrev pub student_deciding_guardian_access : Policy
student_deciding_guardian_access = grown decide_own_guardian_access

abbrev pub student_paying_own_money : Policy
student_paying_own_money = grown pay_own_money

abbrev pub student_choosing_tutor : Policy
student_choosing_tutor = grown choose_tutor

unfoldable pub within : GuardianScope → Policy
within scope = all_of (need_role guardian ∷ need_tie in_my_care ∷ need_scope scope ∷ [])

abbrev pub guardian_in_schedule : Policy
guardian_in_schedule = within schedule

abbrev pub guardian_in_payments : Policy
guardian_in_payments = within payments

abbrev pub guardian_in_notes : Policy
guardian_in_notes = within notes_and_homework

abbrev pub guardian_in_recordings : Policy
guardian_in_recordings = within recordings
