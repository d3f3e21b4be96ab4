-- ===== src/Identity/Policies/Rights.antt =====
-- The rights matrix as data: for each action, the ways to a permission. It is written from the
-- meaning of the roles and stands beside the code of *_policy.cpp and policy_set.cpp.
use pdr.Base.{◌≡◌, Bool, false, ◌&&◌, ◌||◌, List, [], ◌∷◌, arith}
use pdr.Core.Ids.{same_id}
use pdr.Identity.Roles.{Role, owner, tutor, student, guardian, has_role}
use pdr.Identity.Scopes.{
  GuardianScope, schedule, payments, notes_and_homework, recordings, has_scope,
}
use pdr.Identity.Abilities.{
  Capability, move_own_slots, decide_own_guardian_access, pay_own_money, choose_tutor,
  has_capability,
}
use pdr.Identity.Actions.{
  Action, book_lesson, cancel_lesson, reschedule_lesson, view_schedule, view_invoice, pay_invoice,
  issue_refund, set_tariff, view_material, edit_material, publish_material, assign_plan,
  view_progress, record_attempt, export_progress, view_tenant_progress, view_lesson_recording,
  view_lesson_transcript, view_access_journal, manage_guardian_access, write_review,
  manage_auto_payment, invite_people, manage_practice, Resource,
}
use pdr.Identity.Policies.{
  Subject, mine, about_me, in_my_care, same_tie, need_role, need_tie, able_to, need_scope, all_of,
  any_of, grown, within, all_from, any_from,
}
use pdr.Identity.Policies.Rules.{
  scheduling, billing, content, progress, media, journal, consents, reviews, practice, may_book,
  may_move, own_affairs, may_look, payer_sees, may_pay, seller, both_sides, assigned, readers,
  own_data, watchers, may_listen, may_read, may_decide_for_whom, may_invite,
}
use pdr.Identity.Policies.Table.{policy_set, decide}

-- One way to a permission.
pub data Way : Type 0 where
  -- anybody in the role
  anyone : Role → Way
  -- the tutor, about what is his
  his_own : Way
  -- the student, about himself
  himself : Way
  -- the student, about himself, once old enough
  once_grown : Capability → Way
  -- the guardian of the student in question, in an open scope
  in_scope : GuardianScope → Way

unfoldable pub is_open : Way → Subject → Bool
is_open (anyone role) s = has_role s.roles role
is_open his_own s = has_role s.roles tutor && same_tie s.tie mine
is_open himself s = has_role s.roles student && same_tie s.tie about_me
is_open (once_grown c) s =
    has_role s.roles student && (same_tie s.tie about_me && has_capability s.able c)
is_open (in_scope scope) s =
    has_role s.roles guardian && (same_tie s.tie in_my_care && has_scope s.access.open_scopes scope)

unfoldable pub ways : Action → List Way
ways book_lesson = his_own ∷ once_grown choose_tutor ∷ in_scope schedule ∷ []
ways cancel_lesson = his_own ∷ once_grown move_own_slots ∷ in_scope schedule ∷ []
ways reschedule_lesson = his_own ∷ once_grown move_own_slots ∷ in_scope schedule ∷ []
ways view_schedule = his_own ∷ himself ∷ in_scope schedule ∷ anyone owner ∷ []
ways view_invoice = himself ∷ in_scope payments ∷ his_own ∷ anyone owner ∷ []
ways pay_invoice = once_grown pay_own_money ∷ in_scope payments ∷ []
ways issue_refund = his_own ∷ anyone owner ∷ []
ways set_tariff = his_own ∷ anyone owner ∷ []
ways view_material = his_own ∷ himself ∷ in_scope notes_and_homework ∷ []
ways edit_material = his_own ∷ []
ways publish_material = his_own ∷ []
ways assign_plan = his_own ∷ []
ways view_progress = himself ∷ in_scope notes_and_homework ∷ his_own ∷ []
ways record_attempt = himself ∷ []
ways export_progress = himself ∷ in_scope notes_and_homework ∷ []
ways view_tenant_progress = anyone owner ∷ []
ways view_lesson_recording = himself ∷ his_own ∷ in_scope recordings ∷ []
ways view_lesson_transcript = himself ∷ his_own ∷ in_scope recordings ∷ []
ways view_access_journal = himself ∷ his_own ∷ []
ways manage_guardian_access = his_own ∷ once_grown decide_own_guardian_access ∷ []
ways write_review = once_grown Capability.write_review ∷ []
ways manage_auto_payment = in_scope payments ∷ []
ways invite_people = anyone owner ∷ anyone tutor ∷ []
ways manage_practice = anyone owner ∷ []
ways Action.boundary = []

unfoldable pub some_open : List Way → Subject → Bool
some_open [] s = false
some_open (way ∷ rest) s = is_open way s || some_open rest s

-- The nine policies and the parts that they are built of, for the proof below to see through.
abbrev opened : Unit {0}
unfolding scheduling billing content progress media journal consents reviews practice may_book
    may_move own_affairs may_look payer_sees may_pay seller both_sides assigned readers own_data
    watchers may_listen may_read may_decide_for_whom may_invite any_of all_of any_from all_from
    need_role need_tie able_to need_scope grown within
opened = tt

-- In its own practice a subject is allowed an action exactly when one of the ways to it is open; in
-- another practice nothing is allowed.
pub decide-ways :
    (s : Subject) (a : Action) (r : Resource)
    → (decide policy_set s a r).0.is_allowed ≡ same_id s.tenant r.tenant && some_open (ways a) s
unfolding opened decide policy_set some_open ways is_open
decide-ways s book_lesson r = ground arith
decide-ways s _ r = ground arith
