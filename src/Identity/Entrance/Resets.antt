-- ===== src/Identity/Entrance/Resets.antt =====
-- identity/application/reset_password.cpp and change_password.cpp: a link to a new password, the new
-- password by the link, and the new password of somebody who has signed in.
pub mod Renewed
use pdr.Base.{Bool, true, false, not, List, ℕ, Option, none, some, has_value, String, if◌then◌else◌}
use pdr.Core.Errors.{Error, Result, ok, err, refuse, validation, not_found}
use pdr.Core.Ids.{StrongId, session_tag, TenantId, PersonId}
use pdr.Core.Time.{Instant, Duration}
use pdr.Identity.Tokens.{
  Digest, TokenId, TokenPurpose, invitation, password_reset, OneTimeToken, TokenSecret,
  parse_secret, used,
}
use pdr.Identity.Tokens
use pdr.Identity.Sessions.{SessionId, Fingerprint, Session, open_session}
use pdr.Identity.Accounts.{AuthLifetimes}
use pdr.Identity.Entrance.Passwords.{Email, Password, PasswordRules, PasswordHash, given, chosen}
use pdr.Identity.Entrance.SessionStore.{revoke_all}
use pdr.Identity.Entrance.TokenStore.{issue, find, mark_used}
use pdr.Identity.Entrance.PeopleStore.{Credential, find_by_email, find_for, save_hash}
use pdr.Identity.Entrance.Tables.{Tables, Services, Ending, returned, failed}
use pdr.Identity.Entrance.SignIn.{let_in, authenticate}

pub record IssuedReset : Type 0 where
  pub token : OneTimeToken
  pub secret : TokenSecret

pub record ResetPasswordRequest : Type 0 where
  pub tenant : TenantId
  pub secret : TokenSecret
  pub password : List ℕ
  pub seen_as : Fingerprint

pub record ChangePasswordRequest : Type 0 where
  pub current : SessionId
  pub old_secret : List ℕ
  pub new_secret : List ℕ
  pub seen_as : Fingerprint

is_reset : TokenPurpose → Bool
is_reset invitation = false
is_reset password_reset = true

module _ (services : Services) where
  stored_reset :
      Tables → TokenSecret → OneTimeToken → Option (List OneTimeToken) → Ending (Option IssuedReset)
  stored_reset tables secret token none = failed tables.accounts
  stored_reset tables secret token (some rows) =
      returned (ok (some (record { token = token; secret = secret })))
        (record tables { tokens = rows })

  issued_reset : Tables → TokenSecret → Result OneTimeToken → Ending (Option IssuedReset)
  unfolding stored_reset
  issued_reset tables secret (err e) = returned (err e) tables
  issued_reset tables secret (ok token) =
      stored_reset tables secret token (issue token tables.tokens)

  reset_secret :
      AuthLifetimes
      → Instant
      → TokenId
      → TenantId
      → PersonId
      → Tables
      → Result TokenSecret
      → Ending (Option IssuedReset)
  unfolding issued_reset
  reset_secret lifetimes now id tenant person tables (err e) = returned (err e) tables
  reset_secret lifetimes now id tenant person tables (ok secret) = issued_reset tables secret (
      Tokens.reset_password id tenant (services.digest_of secret.value) person now
        lifetimes.password_reset)

  reset_for :
      AuthLifetimes
      → Instant
      → TokenId
      → String
      → TenantId
      → Tables
      → Option Credential
      → Ending (Option IssuedReset)
  unfolding reset_secret
  reset_for lifetimes now id text tenant tables none = returned (ok none) tables
  reset_for lifetimes now id text tenant tables (some found) =
      reset_secret lifetimes now id tenant found.person tables (parse_secret text)

  request_reset_by :
      Result AuthLifetimes
      → Instant
      → TokenId
      → String
      → TenantId
      → Email
      → Tables
      → Ending (Option IssuedReset)
  unfolding reset_for
  request_reset_by (err e) now id text tenant mail tables = returned (err e) tables
  request_reset_by (ok lifetimes) now id text tenant mail tables =
      reset_for lifetimes now id text tenant tables
        (find_by_email tenant mail tables.people tables.credentials)

  -- `RequestPasswordReset::Execute`, with the identifier and the text that the generators give.
  unfoldable pub request_reset :
      Instant → TokenId → String → TenantId → Email → Tables → Ending (Option IssuedReset)
  unfolding request_reset_by
  request_reset now id text tenant mail tables =
      request_reset_by services.lifetimes now id text tenant mail tables

  -- The new password is stored, every session of the person is revoked, and a new one is opened.
  unfoldable pub renew :
      AuthLifetimes
      → Instant
      → StrongId session_tag
      → TenantId
      → PersonId
      → Fingerprint
      → PasswordHash
      → Tables
      → Ending Session
  unfolding let_in
  renew lifetimes now secret tenant person seen_as hash tables =
      let_in services
        (record tables {
          credentials = save_hash tenant person hash tables.credentials;
          sessions = revoke_all tenant person now tables.sessions;
        })
        (open_session (record { tenant = tenant; secret = secret }) person now lifetimes.session
          seen_as)

  hash_chosen : PasswordRules → Result Password → Result PasswordHash
  hash_chosen rules (err e) = err e
  hash_chosen rules (ok password) = services.hash password rules

  -- `Password::Chosen` and `Hash`.
  unfoldable pub new_hash : PasswordRules → List ℕ → Result PasswordHash
  unfolding hash_chosen
  new_hash rules text = hash_chosen rules (chosen services.shown text rules)

  -- `*found->Person()` of a link without a person is undefined; such a link is not issued.
  reset_person :
      AuthLifetimes
      → Instant
      → StrongId session_tag
      → ResetPasswordRequest
      → OneTimeToken
      → PasswordHash
      → Tables
      → Option PersonId
      → Ending Session
  unfolding renew
  reset_person lifetimes now secret request token hash tables none = failed tables.accounts
  reset_person lifetimes now secret request token hash tables (some person) =
      renew lifetimes now secret request.tenant person request.seen_as hash
        (record tables { tokens = mark_used token tables.tokens })

  reset_hash :
      AuthLifetimes
      → Instant
      → StrongId session_tag
      → ResetPasswordRequest
      → OneTimeToken
      → Tables
      → Result PasswordHash
      → Ending Session
  unfolding reset_person
  reset_hash lifetimes now secret request token tables (err e) = returned (err e) tables
  reset_hash lifetimes now secret request token tables (ok hash) =
      reset_person lifetimes now secret request token hash tables token.person

  reset_used :
      PasswordRules
      → AuthLifetimes
      → Instant
      → StrongId session_tag
      → ResetPasswordRequest
      → Tables
      → Result OneTimeToken
      → Ending Session
  unfolding reset_hash new_hash
  reset_used rules lifetimes now secret request tables (err e) = returned (err e) tables
  reset_used rules lifetimes now secret request tables (ok token) =
      reset_hash lifetimes now secret request token tables (new_hash rules request.password)

  unknown_link : Tables → Ending Session
  unknown_link tables =
      returned (refuse not_found "password_reset_unknown" "такой ссылки нет") tables

  reset_found :
      PasswordRules
      → AuthLifetimes
      → Instant
      → StrongId session_tag
      → ResetPasswordRequest
      → Tables
      → Option OneTimeToken
      → Ending Session
  unfolding reset_used unknown_link is_reset
  reset_found rules lifetimes now secret request tables none = unknown_link tables
  reset_found rules lifetimes now secret request tables (some found) =
      if not (is_reset found.purpose)
      then unknown_link tables
      else reset_used rules lifetimes now secret request tables (used found now)

  reset_by :
      Result PasswordRules
      → Result AuthLifetimes
      → Instant
      → StrongId session_tag
      → ResetPasswordRequest
      → Tables
      → Ending Session
  unfolding reset_found
  reset_by (err e) lifetimes now secret request tables = returned (err e) tables
  reset_by (ok rules) (err e) now secret request tables = returned (err e) tables
  reset_by (ok rules) (ok lifetimes) now secret request tables =
      reset_found rules lifetimes now secret request tables
        (find request.tenant (services.digest_of request.secret.value) tables.tokens)

  -- `ResetPassword::Execute`.
  unfoldable pub reset_password_with :
      Instant → StrongId session_tag → ResetPasswordRequest → Tables → Ending Session
  unfolding reset_by
  reset_password_with now secret request tables =
      reset_by services.passwords services.lifetimes now secret request tables

  change_hashed :
      AuthLifetimes
      → Instant
      → StrongId session_tag
      → ChangePasswordRequest
      → Session
      → Tables
      → Result PasswordHash
      → Ending Session
  unfolding renew
  change_hashed lifetimes now secret request session tables (err e) = returned (err e) tables
  change_hashed lifetimes now secret request session tables (ok hash) =
      renew lifetimes now secret session.id.tenant session.person request.seen_as hash tables

  change_given :
      PasswordRules
      → AuthLifetimes
      → Instant
      → StrongId session_tag
      → ChangePasswordRequest
      → Session
      → Tables
      → PasswordHash
      → Result Password
      → Ending Session
  unfolding change_hashed new_hash
  change_given rules lifetimes now secret request session tables stored (err e) =
      returned (err e) tables
  change_given rules lifetimes now secret request session tables stored (ok password) =
      if not (services.matches password stored)
      then returned (refuse validation "password_old_mismatch" "прежний пароль не подошёл") tables
      else change_hashed lifetimes now secret request session tables
          (new_hash rules request.new_secret)

  change_stored :
      PasswordRules
      → AuthLifetimes
      → Instant
      → StrongId session_tag
      → ChangePasswordRequest
      → Session
      → Tables
      → Option PasswordHash
      → Ending Session
  unfolding change_given
  change_stored rules lifetimes now secret request session tables none =
      returned (refuse not_found "password_not_set" "менять нечего: пароль ещё не задан") tables
  change_stored rules lifetimes now secret request session tables (some stored) =
      change_given rules lifetimes now secret request session tables stored
        (given request.old_secret)

  change_of :
      PasswordRules
      → AuthLifetimes
      → Instant
      → StrongId session_tag
      → ChangePasswordRequest
      → Tables
      → Result Session
      → Ending Session
  unfolding change_stored
  change_of rules lifetimes now secret request tables (err e) = returned (err e) tables
  change_of rules lifetimes now secret request tables (ok session) =
      change_stored rules lifetimes now secret request session tables
        (find_for session.id.tenant session.person tables.credentials)

  change_by :
      Result PasswordRules
      → Result AuthLifetimes
      → Instant
      → Instant
      → StrongId session_tag
      → ChangePasswordRequest
      → Tables
      → Ending Session
  unfolding change_of
  change_by (err e) lifetimes asked now secret request tables = returned (err e) tables
  change_by (ok rules) (err e) asked now secret request tables = returned (err e) tables
  change_by (ok rules) (ok lifetimes) asked now secret request tables =
      change_of rules lifetimes now secret request tables
        (authenticate asked request.current tables.sessions)

  -- `ChangePassword::Execute`, which reads the clock twice.
  unfoldable pub change_password :
      Instant → Instant → StrongId session_tag → ChangePasswordRequest → Tables → Ending Session
  unfolding change_by
  change_password asked now secret request tables =
      change_by services.passwords services.lifetimes asked now secret request tables
