-- ===== src/Identity/Actions.antt =====
-- contract/identity/contract.hpp and identity/core/action.cpp: actions, reasons of a refusal,
-- decisions, and the resource that an action is about.
pub mod Names
use pdr.Base.{ℕ, Bool, true, false, List, [], ◌∷◌, Option, String, find_named, ◌==◌}
use pdr.Core.Ids.{TenantId, PersonId}

pub data Action : Type 0 where
  book_lesson cancel_lesson reschedule_lesson view_schedule : Action
  view_invoice pay_invoice issue_refund set_tariff : Action
  view_material edit_material publish_material assign_plan : Action
  view_progress record_attempt export_progress view_tenant_progress : Action
  view_lesson_recording view_lesson_transcript view_access_journal manage_guardian_access : Action
  write_review manage_auto_payment invite_people manage_practice : Action
  boundary : Action

unfoldable pub action_name : Action → String
action_name book_lesson = "book_lesson"
action_name cancel_lesson = "cancel_lesson"
action_name reschedule_lesson = "reschedule_lesson"
action_name view_schedule = "view_schedule"
action_name view_invoice = "view_invoice"
action_name pay_invoice = "pay_invoice"
action_name issue_refund = "issue_refund"
action_name set_tariff = "set_tariff"
action_name view_material = "view_material"
action_name edit_material = "edit_material"
action_name publish_material = "publish_material"
action_name assign_plan = "assign_plan"
action_name view_progress = "view_progress"
action_name record_attempt = "record_attempt"
action_name export_progress = "export_progress"
action_name view_tenant_progress = "view_tenant_progress"
action_name view_lesson_recording = "view_lesson_recording"
action_name view_lesson_transcript = "view_lesson_transcript"
action_name view_access_journal = "view_access_journal"
action_name manage_guardian_access = "manage_guardian_access"
action_name write_review = "write_review"
action_name manage_auto_payment = "manage_auto_payment"
action_name invite_people = "invite_people"
action_name manage_practice = "manage_practice"
action_name Action.boundary = "boundary"

abbrev pub every_action : List Action
every_action =
    book_lesson ∷ cancel_lesson ∷ reschedule_lesson ∷ view_schedule ∷ view_invoice ∷ pay_invoice
    ∷ issue_refund ∷ set_tariff ∷ view_material ∷ edit_material ∷ publish_material ∷ assign_plan
    ∷ view_progress ∷ record_attempt ∷ export_progress ∷ view_tenant_progress
    ∷ view_lesson_recording ∷ view_lesson_transcript ∷ view_access_journal ∷ manage_guardian_access
    ∷ write_review ∷ manage_auto_payment ∷ invite_people ∷ manage_practice ∷ []

unfoldable pub parse_action : String → Option Action
unfolding action_name find_named
parse_action text = find_named action_name every_action text

-- `static_cast<std::size_t>(action)`.
abbrev pub index : Action → ℕ
index book_lesson = 0
index cancel_lesson = 1
index reschedule_lesson = 2
index view_schedule = 3
index view_invoice = 4
index pay_invoice = 5
index issue_refund = 6
index set_tariff = 7
index view_material = 8
index edit_material = 9
index publish_material = 10
index assign_plan = 11
index view_progress = 12
index record_attempt = 13
index export_progress = 14
index view_tenant_progress = 15
index view_lesson_recording = 16
index view_lesson_transcript = 17
index view_access_journal = 18
index manage_guardian_access = 19
index write_review = 20
index manage_auto_payment = 21
index invite_people = 22
index manage_practice = 23
index Action.boundary = 24

abbrev pub same_action : Action → Action → Bool
same_action a b = index a == index b

pub data DenyReason : Type 0 where
  allowed foreign_tenant role_missing not_yours scope_missing : DenyReason
  student_grew_up too_young no_policy boundary : DenyReason

unfoldable pub reason_name : DenyReason → String
reason_name allowed = "allowed"
reason_name foreign_tenant = "foreign_tenant"
reason_name role_missing = "role_missing"
reason_name not_yours = "not_yours"
reason_name scope_missing = "scope_missing"
reason_name student_grew_up = "student_grew_up"
reason_name too_young = "too_young"
reason_name no_policy = "no_policy"
reason_name DenyReason.boundary = "no_policy"

pub record PolicyDecision : Type 0 where
  pub is_allowed : Bool
  pub reason : DenyReason

abbrev pub allow : PolicyDecision
allow = record { is_allowed = true; reason = allowed }

abbrev pub deny : DenyReason → PolicyDecision
deny reason = record { is_allowed = false; reason = reason }

pub record Resource : Type 0 where
  pub tenant : TenantId
  pub owner : Option PersonId
  pub subject : Option PersonId
