-- ===== src/Identity/Entrance/Joining.antt =====
-- identity/application/invite_participant.cpp, accept_invitation.cpp, attach_account.cpp and
-- confirm_email.cpp: how people come into a practice and to an account.
pub mod Accepted
use pdr.Base.{Bool, true, false, not, List, ℕ, Option, none, some, has_value, String, if◌then◌else◌}
use pdr.Core.Errors.{Result, ok, err, refuse, conflict, not_found}
use pdr.Core.Ids.{StrongId, session_tag, TenantId, PersonId, same_id}
use pdr.Core.Time.{Instant}
use pdr.Identity.Roles.{Role, student, no_roles, with_role}
use pdr.Identity.Ages.{BirthDate}
use pdr.Identity.Tokens.{
  Digest, TokenId, TokenPurpose, invitation, password_reset, OneTimeToken, TokenSecret,
  parse_secret, invite, used,
}
use pdr.Identity.Sessions.{Fingerprint, Session, open_session}
use pdr.Identity.Accounts.{Account, AuthLifetimes, invite_account, confirmed_by}
use pdr.Identity.Entrance.Passwords.{Email, PasswordRules, PasswordHash}
use pdr.Identity.Entrance.TokenStore.{issue, find, live_invitation_to, mark_used}
use pdr.Identity.Entrance.PeopleStore.{
  Person, Enrolment, enrol, Enrolled, enrolled, refused, save_hash, find_by_mail, find_by_id,
  save_account,
}
use pdr.Identity.Entrance.PeopleStore
use pdr.Identity.Entrance.Tables.{Tables, Services, Ending, returned, failed}
use pdr.Identity.Entrance.SignIn.{let_in}
use pdr.Identity.Entrance.Resets.{new_hash}

pub record IssuedInvitation : Type 0 where
  pub token : OneTimeToken
  pub secret : TokenSecret

pub record AcceptInvitationRequest : Type 0 where
  pub tenant : TenantId
  pub secret : TokenSecret
  pub display_name : String
  pub mail : Email
  pub born_on : BirthDate
  pub zone : String
  pub password : List ℕ
  pub seen_as : Fingerprint

is_invitation : TokenPurpose → Bool
is_invitation invitation = true
is_invitation password_reset = false

module _ (services : Services) where
  stored_invitation :
      Tables → TokenSecret → OneTimeToken → Option (List OneTimeToken) → Ending IssuedInvitation
  stored_invitation tables secret token none = failed tables.accounts
  stored_invitation tables secret token (some rows) =
      returned (ok (record { token = token; secret = secret })) (record tables { tokens = rows })

  issued_invitation : Tables → TokenSecret → Result OneTimeToken → Ending IssuedInvitation
  unfolding stored_invitation
  issued_invitation tables secret (err e) = returned (err e) tables
  issued_invitation tables secret (ok token) =
      stored_invitation tables secret token (issue token tables.tokens)

  invite_secret :
      AuthLifetimes
      → Instant
      → TokenId
      → TenantId
      → Role
      → Option Digest
      → Tables
      → Result TokenSecret
      → Ending IssuedInvitation
  unfolding issued_invitation
  invite_secret lifetimes now id tenant role invited tables (err e) = returned (err e) tables
  invite_secret lifetimes now id tenant role invited tables (ok secret) =
      issued_invitation tables secret
        (invite id tenant (services.digest_of secret.value) role invited now lifetimes.invitation)

  invited_mail : Option Email → Option Digest
  invited_mail none = none
  invited_mail (some mail) = some (services.digest_of mail.value)

  is_invited : TenantId → Option Email → Instant → Tables → Bool
  is_invited tenant none now tables = false
  is_invited tenant (some mail) now tables =
      has_value (live_invitation_to tenant (services.digest_of mail.value) now tables.tokens)

  invite_by :
      Result AuthLifetimes
      → Instant
      → Instant
      → TokenId
      → String
      → TenantId
      → Role
      → Option Email
      → Tables
      → Ending IssuedInvitation
  unfolding invite_secret invited_mail is_invited
  invite_by (err e) asked_at now id text tenant role to tables = returned (err e) tables
  invite_by (ok lifetimes) asked_at now id text tenant role to tables =
      if is_invited tenant to asked_at tables
      then returned
          (refuse conflict "invitation_already_live" "этому человеку уже отправлено приглашение")
          tables
      else invite_secret lifetimes now id tenant role (invited_mail to) tables (parse_secret text)

  -- `InviteParticipant::Execute`, with the identifier and the text that the generators give. It reads the
  -- clock twice: to ask whether a link to the mail is alive, and to create the link.
  unfoldable pub invite_participant :
      Instant
      → Instant
      → TokenId
      → String
      → TenantId
      → Role
      → Option Email
      → Tables
      → Ending IssuedInvitation
  unfolding invite_by
  invite_participant asked_at now id text tenant role to tables =
      invite_by services.lifetimes asked_at now id text tenant role to tables

  -- The account of the mail, or a new one, which is saved.
  unfoldable pub account_for : PersonId → Digest → Instant → Option Account → Account
  account_for id mail now none = invite_account id mail now
  account_for id mail now (some account) = account

  unfoldable pub accounts_with :
      PersonId → Digest → Instant → Option Account → List Account → List Account
  accounts_with id mail now none rows = save_account (invite_account id mail now) rows
  accounts_with id mail now (some account) rows = rows

  enrolment_of : AcceptInvitationRequest → PersonId → Role → Enrolment
  enrolment_of request person role = record {
    person = record { id = person; mail = some request.mail; born_on = request.born_on };
    roles = with_role no_roles role;
    display_name = request.display_name;
    zone = request.zone;
  }

  accept_enrolled :
      AuthLifetimes
      → Instant
      → StrongId session_tag
      → AcceptInvitationRequest
      → OneTimeToken
      → PasswordHash
      → PersonId
      → Tables
      → Enrolled
      → Ending Session
  accept_enrolled lifetimes now secret request token hash person tables (refused e) =
      returned (err e) tables
  accept_enrolled lifetimes now secret request token hash person tables PeopleStore.failed =
      failed tables.accounts
  accept_enrolled lifetimes now secret request token hash person tables (enrolled people roles) =
      let_in services
        (record tables {
          people = people;
          roles = roles;
          tokens = mark_used token tables.tokens;
          credentials = save_hash request.tenant person hash tables.credentials;
        })
        (open_session (record { tenant = request.tenant; secret = secret }) person now
          lifetimes.session request.seen_as)

  accept_as :
      AuthLifetimes
      → Instant
      → StrongId session_tag
      → AcceptInvitationRequest
      → OneTimeToken
      → PasswordHash
      → PersonId
      → Role
      → Tables
      → Ending Session
  unfolding accept_enrolled enrolment_of
  accept_as lifetimes now secret request token hash person role tables =
      accept_enrolled lifetimes now secret request token hash person tables
        (enrol request.tenant (enrolment_of request person role) tables.people tables.roles)

  -- `*found->InvitedAs()` of a link without a role is undefined; such a link is not issued.
  accept_role :
      AuthLifetimes
      → Instant
      → StrongId session_tag
      → PersonId
      → AcceptInvitationRequest
      → OneTimeToken
      → PasswordHash
      → Tables
      → Option Role
      → Ending Session
  unfolding accept_as account_for accounts_with
  accept_role lifetimes now secret id request token hash tables none = failed tables.accounts
  accept_role lifetimes now secret id request token hash tables (some role) =
      let mail = services.digest_of request.mail.value in
      let found = find_by_mail mail tables.accounts in
      accept_as lifetimes now secret request token hash (account_for id mail now found).id role
        (record tables { accounts = accounts_with id mail now found tables.accounts })

  accept_hash :
      AuthLifetimes
      → Instant
      → StrongId session_tag
      → PersonId
      → AcceptInvitationRequest
      → OneTimeToken
      → Tables
      → Result PasswordHash
      → Ending Session
  unfolding accept_role
  accept_hash lifetimes now secret id request token tables (err e) = returned (err e) tables
  accept_hash lifetimes now secret id request token tables (ok hash) =
      accept_role lifetimes now secret id request token hash tables token.role

  accept_used :
      PasswordRules
      → AuthLifetimes
      → Instant
      → StrongId session_tag
      → PersonId
      → AcceptInvitationRequest
      → Tables
      → Result OneTimeToken
      → Ending Session
  unfolding accept_hash
  accept_used rules lifetimes now secret id request tables (err e) = returned (err e) tables
  accept_used rules lifetimes now secret id request tables (ok token) =
      accept_hash lifetimes now secret id request token tables
        (new_hash services rules request.password)

  unknown_invitation : Tables → Ending Session
  unknown_invitation tables =
      returned (refuse not_found "invitation_unknown" "такого приглашения нет") tables

  accept_found :
      PasswordRules
      → AuthLifetimes
      → Instant
      → StrongId session_tag
      → PersonId
      → AcceptInvitationRequest
      → Tables
      → Option OneTimeToken
      → Ending Session
  unfolding accept_used unknown_invitation is_invitation
  accept_found rules lifetimes now secret id request tables none = unknown_invitation tables
  accept_found rules lifetimes now secret id request tables (some found) =
      if not (is_invitation found.purpose)
      then unknown_invitation tables
      else accept_used rules lifetimes now secret id request tables (used found now)

  accept_by :
      Result PasswordRules
      → Result AuthLifetimes
      → Instant
      → StrongId session_tag
      → PersonId
      → AcceptInvitationRequest
      → Tables
      → Ending Session
  unfolding accept_found
  accept_by (err e) lifetimes now secret id request tables = returned (err e) tables
  accept_by (ok rules) (err e) now secret id request tables = returned (err e) tables
  accept_by (ok rules) (ok lifetimes) now secret id request tables =
      accept_found rules lifetimes now secret id request tables
        (find request.tenant (services.digest_of request.secret.value) tables.tokens)

  -- `AcceptInvitation::Execute`, with the identifier of a new account.
  unfoldable pub accept_invitation :
      Instant → StrongId session_tag → PersonId → AcceptInvitationRequest → Tables → Ending Session
  unfolding accept_by
  accept_invitation now secret id request tables =
      accept_by services.passwords services.lifetimes now secret id request tables

  attach_found :
      Instant
      → Instant
      → Instant
      → TokenId
      → String
      → TenantId
      → PersonId
      → Email
      → Tables
      → Option Account
      → Ending IssuedInvitation
  unfolding invite_participant
  attach_found saved_at asked_at now id text tenant child mail tables none =
      invite_participant asked_at now id text tenant student (some mail) (record tables {
        accounts =
            save_account (invite_account child (services.digest_of mail.value) saved_at)
              tables.accounts;
      })
  attach_found saved_at asked_at now id text tenant child mail tables (some existing) =
      if not (same_id existing.id child)
      then returned
          (refuse conflict "account_belongs_to_another" "этой почтой уже пользуется другой человек")
          tables
      else invite_participant asked_at now id text tenant student (some mail) tables

  -- `AttachAccount::Execute`: its own reading of the clock, and the two of the invitation.
  unfoldable pub attach_account :
      Instant
      → Instant
      → Instant
      → TokenId
      → String
      → TenantId
      → PersonId
      → Email
      → Tables
      → Ending IssuedInvitation
  unfolding attach_found
  attach_account saved_at asked_at now id text tenant child mail tables =
      attach_found saved_at asked_at now id text tenant child mail tables
        (find_by_mail (services.digest_of mail.value) tables.accounts)

  confirm_found : Instant → TokenSecret → Tables → Option Account → Ending Account
  confirm_found now shown tables none =
      returned (refuse not_found "account_unknown" "такой учётной записи нет") tables
  confirm_found now shown tables (some found) =
      elim (confirmed_by found (services.digest_of shown.value) now) [
        | err e ↦ returned (err e) tables
        | ok confirmed ↦
            returned (ok confirmed)
              (record tables { accounts = save_account confirmed tables.accounts })
      ]

  -- `ConfirmEmail::Execute`.
  unfoldable pub confirm_email : Instant → PersonId → TokenSecret → Tables → Ending Account
  unfolding confirm_found
  confirm_email now account shown tables =
      confirm_found now shown tables (find_by_id account tables.accounts)
