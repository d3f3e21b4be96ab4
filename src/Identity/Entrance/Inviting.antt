-- ===== src/Identity/Entrance/Inviting.antt =====
-- identity/application/invite_many.hpp and invite_many.cpp: the invitations to a pasted list of contacts.
pub mod Issued
pub mod Repeated
pub mod Sending
use pdr.Base.{
  ℕ, suc, Bool, true, false, not, List, [], ◌∷◌, ◌++◌, Option, none, some, has_value, String,
  if◌then◌else◌,
}
use pdr.Core.Errors.{Error, Result, ok, err}
use pdr.Core.Ids.{TenantId}
use pdr.Core.Time.{Instant}
use pdr.Identity.Roles.{Role}
use pdr.Identity.Tokens.{TokenId, TokenSecret}
use pdr.Identity.Contacts.{
  Contact, ContactVerdict, already_enrolled, already_invited, is_ready, parse_contacts,
}
use pdr.Identity.Entrance.Passwords.{Email}
use pdr.Identity.Entrance.TokenStore.{live_invitation_to}
use pdr.Identity.Entrance.PeopleStore.{knows}
use pdr.Identity.Entrance.Tables.{Tables, Services, Ending, returned, failed}
use pdr.Identity.Entrance.Joining.{IssuedInvitation, invite_participant}

pub record SentInvitation : Type 0 where
  pub mail : Email
  pub secret : TokenSecret

pub record InvitationRun : Type 0 where
  pub judged : List Contact
  pub sent : List SentInvitation

-- What the clock and the generators give to the invitations of a run, one after another.
pub record Supply : Type 0 where
  pub asked_at : ℕ → Instant
  pub now_at : ℕ → Instant
  pub id_at : ℕ → TokenId
  pub text_at : ℕ → String

module _ (services : Services) where
  unfoldable pub judged_mail : TenantId → Instant → Tables → Contact → Email → Contact
  judged_mail tenant now tables line mail =
      if knows tenant mail tables.people
      then record line { verdict = already_enrolled }
      else if has_value
          (live_invitation_to tenant (services.digest_of mail.value) now tables.tokens)
      then record line { verdict = already_invited }
      else line

  -- One round of `Judge`.
  unfoldable pub judge_line : TenantId → Instant → Tables → Contact → Contact
  unfolding judged_mail
  judge_line tenant now tables line =
      if not (is_ready line.verdict)
      then line
      else elim line.mail [ none ↦ line | some mail ↦ judged_mail tenant now tables line mail ]

  unfoldable pub judge : TenantId → Instant → Tables → List Contact → List Contact
  unfolding judge_line
  judge tenant now tables [] = []
  judge tenant now tables (line ∷ lines) =
      judge_line tenant now tables line ∷ judge tenant now tables lines

  preview_of : TenantId → Instant → Tables → Option (List Contact) → Option (List Contact)
  unfolding judge
  preview_of tenant now tables none = none
  preview_of tenant now tables (some lines) = some (judge tenant now tables lines)

  unfoldable pub preview : TenantId → Instant → Tables → String → Option (List Contact)
  unfolding preview_of parse_contacts
  preview tenant now tables pasted = preview_of tenant now tables (parse_contacts pasted)

  abbrev pub to_send : Contact → Option Email
  to_send line = if is_ready line.verdict then line.mail else none

  unfoldable pub with_sent :
      Email → IssuedInvitation → Ending (List SentInvitation) → Ending (List SentInvitation)
  with_sent mail issued (returned (ok sent) after) =
      returned (ok (record { mail = mail; secret = issued.secret } ∷ sent)) after
  with_sent mail issued (returned (err e) after) = returned (err e) after
  with_sent mail issued (failed accounts) = failed accounts

  -- After the invitation of a line, with what sends the rest.
  unfoldable pub and_send :
      Email
      → Ending IssuedInvitation
      → (Tables → Ending (List SentInvitation))
      → Ending (List SentInvitation)
  unfolding with_sent
  and_send mail (returned (ok issued) after) rest = with_sent mail issued (rest after)
  and_send mail (returned (err e) after) rest = returned (err e) after
  and_send mail (failed accounts) rest = failed accounts

  -- The loop of `Send`; `count` invitations were issued before.
  unfoldable pub send_from :
      Supply → ℕ → TenantId → Role → List Contact → Tables → Ending (List SentInvitation)
  unfolding and_send
  send_from supply count tenant role [] tables = returned (ok []) tables
  send_from supply count tenant role (line ∷ lines) tables = elim (to_send line) [
    | none ↦ send_from supply count tenant role lines tables
    | some mail ↦
        and_send mail
          (invite_participant services (supply.asked_at count) (supply.now_at count)
            (supply.id_at count) (supply.text_at count) tenant role (some mail) tables)
          (send_from supply (suc count) tenant role lines)
  ]

  unfoldable pub with_judged : List Contact → Ending (List SentInvitation) → Ending InvitationRun
  with_judged judged (returned (ok sent) after) =
      returned (ok (record { judged = judged; sent = sent })) after
  with_judged judged (returned (err e) after) = returned (err e) after
  with_judged judged (failed accounts) = failed accounts

  unfoldable pub send :
      Supply → Instant → TenantId → Role → List Contact → Tables → Ending InvitationRun
  unfolding with_judged send_from judge
  send supply now tenant role previewed tables =
      let judged = judge tenant now tables previewed in
      with_judged judged (send_from supply 0 tenant role judged tables)
