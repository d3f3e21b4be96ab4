-- ===== src/Identity/Policies/Rules.antt =====
-- identity/application/policies/*_policy.cpp: the nine policies, one per area, and the actions that
-- each of them answers for.
use pdr.Base.{List, [], ◌∷◌}
use pdr.Identity.Roles.{owner, tutor, student}
use pdr.Identity.Actions.{
  Action, book_lesson, cancel_lesson, reschedule_lesson, view_schedule, view_invoice, pay_invoice,
  issue_refund, set_tariff, view_material, edit_material, publish_material, assign_plan,
  view_progress, record_attempt, export_progress, view_tenant_progress, view_lesson_recording,
  view_lesson_transcript, view_access_journal, manage_guardian_access, write_review,
  manage_auto_payment, invite_people, manage_practice, deny, no_policy,
}
use pdr.Identity.Policies.{
  Policy, mine, about_me, need_role, need_tie, all_of, any_of, student_moving_own_slots,
  student_writing_review, student_deciding_guardian_access, student_paying_own_money,
  student_choosing_tutor, guardian_in_schedule, guardian_in_payments, guardian_in_notes,
  guardian_in_recordings,
}

-- `AllOf{HasRole{Role::kTutor}, Tied{Tie::kMine}}` and the like, which most policies are built of.
abbrev pub own_tutor : Policy
own_tutor = all_of (need_role tutor ∷ need_tie mine ∷ [])

abbrev pub own_student : Policy
own_student = all_of (need_role student ∷ need_tie about_me ∷ [])

abbrev pub scheduling_actions : List Action
scheduling_actions = book_lesson ∷ cancel_lesson ∷ reschedule_lesson ∷ view_schedule ∷ []

unfoldable pub may_book : Policy
may_book = any_of (own_tutor ∷ student_choosing_tutor ∷ guardian_in_schedule ∷ [])

unfoldable pub may_move : Policy
may_move = any_of (own_tutor ∷ student_moving_own_slots ∷ guardian_in_schedule ∷ [])

unfoldable pub own_affairs : Policy
own_affairs = any_of (own_tutor ∷ own_student ∷ guardian_in_schedule ∷ [])

unfoldable pub may_look : Policy
may_look = any_of (own_affairs ∷ need_role owner ∷ [])

unfoldable pub scheduling : Policy
scheduling subject book_lesson resource = may_book subject book_lesson resource
scheduling subject cancel_lesson resource = may_move subject cancel_lesson resource
scheduling subject reschedule_lesson resource = may_move subject reschedule_lesson resource
scheduling subject view_schedule resource = may_look subject view_schedule resource
scheduling subject _ resource = deny no_policy

abbrev pub billing_actions : List Action
billing_actions = view_invoice ∷ pay_invoice ∷ issue_refund ∷ set_tariff ∷ manage_auto_payment ∷ []

unfoldable pub payer_sees : Policy
payer_sees = any_of (own_student ∷ guardian_in_payments ∷ [])

unfoldable pub may_pay : Policy
may_pay = any_of (student_paying_own_money ∷ guardian_in_payments ∷ [])

unfoldable pub seller : Policy
seller = any_of (own_tutor ∷ need_role owner ∷ [])

unfoldable pub both_sides : Policy
both_sides = any_of (payer_sees ∷ seller ∷ [])

unfoldable pub billing : Policy
billing subject view_invoice resource = both_sides subject view_invoice resource
billing subject pay_invoice resource = may_pay subject pay_invoice resource
billing subject manage_auto_payment resource =
    guardian_in_payments subject manage_auto_payment resource
billing subject issue_refund resource = seller subject issue_refund resource
billing subject set_tariff resource = seller subject set_tariff resource
billing subject _ resource = deny no_policy

abbrev pub content_actions : List Action
content_actions = view_material ∷ edit_material ∷ publish_material ∷ assign_plan ∷ []

unfoldable pub assigned : Policy
assigned = any_of (own_student ∷ guardian_in_notes ∷ [])

unfoldable pub readers : Policy
readers = any_of (own_tutor ∷ assigned ∷ [])

unfoldable pub content : Policy
content subject view_material resource = readers subject view_material resource
content subject edit_material resource = own_tutor subject edit_material resource
content subject publish_material resource = own_tutor subject publish_material resource
content subject assign_plan resource = own_tutor subject assign_plan resource
content subject _ resource = deny no_policy

abbrev pub progress_actions : List Action
progress_actions = view_progress ∷ record_attempt ∷ export_progress ∷ view_tenant_progress ∷ []

unfoldable pub own_data : Policy
own_data = any_of (own_student ∷ guardian_in_notes ∷ [])

unfoldable pub watchers : Policy
watchers = any_of (own_data ∷ own_tutor ∷ [])

unfoldable pub progress : Policy
progress subject view_progress resource = watchers subject view_progress resource
progress subject record_attempt resource = own_student subject record_attempt resource
progress subject export_progress resource = own_data subject export_progress resource
progress subject view_tenant_progress resource =
    need_role owner subject view_tenant_progress resource
progress subject _ resource = deny no_policy

abbrev pub media_actions : List Action
media_actions = view_lesson_recording ∷ view_lesson_transcript ∷ []

unfoldable pub may_listen : Policy
may_listen = any_of (own_student ∷ own_tutor ∷ guardian_in_recordings ∷ [])

unfoldable pub media : Policy
media subject view_lesson_recording resource = may_listen subject view_lesson_recording resource
media subject view_lesson_transcript resource = may_listen subject view_lesson_transcript resource
media subject _ resource = deny no_policy

abbrev pub journal_actions : List Action
journal_actions = view_access_journal ∷ []

unfoldable pub may_read : Policy
may_read = any_of (own_student ∷ own_tutor ∷ [])

unfoldable pub journal : Policy
journal subject view_access_journal resource = may_read subject view_access_journal resource
journal subject _ resource = deny no_policy

abbrev pub consent_actions : List Action
consent_actions = manage_guardian_access ∷ []

unfoldable pub may_decide_for_whom : Policy
may_decide_for_whom = any_of (own_tutor ∷ student_deciding_guardian_access ∷ [])

unfoldable pub consents : Policy
consents subject manage_guardian_access resource =
    may_decide_for_whom subject manage_guardian_access resource
consents subject _ resource = deny no_policy

abbrev pub review_actions : List Action
review_actions = write_review ∷ []

unfoldable pub reviews : Policy
reviews subject write_review resource = student_writing_review subject write_review resource
reviews subject _ resource = deny no_policy

abbrev pub practice_actions : List Action
practice_actions = invite_people ∷ manage_practice ∷ []

unfoldable pub may_invite : Policy
may_invite = any_of (need_role owner ∷ need_role tutor ∷ [])

unfoldable pub practice : Policy
practice subject invite_people resource = may_invite subject invite_people resource
practice subject manage_practice resource = need_role owner subject manage_practice resource
practice subject _ resource = deny no_policy
