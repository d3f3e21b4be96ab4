-- ===== src/Identity/Entrance/SignIn.antt =====
-- identity/application/sign_in.cpp, sign_out.cpp and authenticate_session.cpp.
pub mod Guesses
pub mod Leaving
use Prim.Native.String.{◌++◌}
use pdr.Base.{Bool, true, false, not, ◌&&◌, List, ℕ, Option, none, some, has_value, if◌then◌else◌}
use pdr.Core.Errors.{Error, Result, ok, err, refuse, validation, conflict, not_found, forbidden}
use pdr.Core.Ids.{StrongId, session_tag, TenantId}
use pdr.Core.Time.{Instant, Duration}
use pdr.Identity.Tokens.{Digest}
use pdr.Identity.Sessions.{SessionId, Fingerprint, Session, open_session, revoke}
use pdr.Identity.Sessions
use pdr.Identity.Throttle.{ThrottleLimits, account, address, limit_for, is_blocked_at}
use pdr.Identity.Accounts.{AuthLifetimes}
use pdr.Identity.Entrance.Passwords.{Email, Password, PasswordRules, given}
use pdr.Identity.Entrance.SessionStore.{save, find}
use pdr.Identity.Entrance.AttemptStore.{Counter, AttemptRow, register_attempt, seen, forget}
use pdr.Identity.Entrance.PeopleStore.{Credential, find_by_email}
use pdr.Identity.Entrance.Tables.{Tables, Services, Ending, returned, failed}

pub record SignInRequest : Type 0 where
  pub tenant : TenantId
  pub mail : Email
  pub secret : List ℕ
  pub seen_as : Fingerprint
  pub current : Option SessionId

module _ (services : Services) where
  -- `AccountFingerprint`.
  abbrev pub account_fingerprint : TenantId → Email → Digest
  account_fingerprint tenant mail =
      services.digest_of (services.tenant_text tenant ++ "\n" ++ mail.value)

  abbrev pub account_counter : SignInRequest → Counter
  account_counter request = record {
    tenant = request.tenant;
    subject = account;
    of = account_fingerprint request.tenant request.mail;
  }

  abbrev pub address_counter : SignInRequest → Counter
  address_counter request = record {
    tenant = request.tenant;
    subject = address;
    of = request.seen_as.address;
  }

  -- The loop over the two counters.
  unfoldable pub is_throttled : ThrottleLimits → Instant → SignInRequest → List AttemptRow → Bool
  is_throttled limits now request rows =
      if is_blocked_at (seen (account_counter request) rows) now limits.window
        (limit_for limits account)
      then true
      else is_blocked_at (seen (address_counter request) rows) now limits.window
          (limit_for limits address)

  matched_with : Result Password → Option Credential → Bool
  matched_with (ok password) (some credential) = services.matches password credential.hash
  matched_with (ok password) none = false
  matched_with (err e) found = false

  unfoldable pub is_matched : SignInRequest → Tables → Bool
  unfolding matched_with
  is_matched request tables =
      matched_with (given request.secret)
        (find_by_email request.tenant request.mail tables.people tables.credentials)

  and_register : Counter → Instant → Duration → Option (List AttemptRow) → Option (List AttemptRow)
  and_register counter now window none = none
  and_register counter now window (some rows) = register_attempt counter now window rows

  register_both : Instant → Duration → SignInRequest → List AttemptRow → Option (List AttemptRow)
  unfolding and_register
  register_both now window request rows =
      and_register (address_counter request) now window
        (register_attempt (account_counter request) now window rows)

  refused_with : Tables → Option (List AttemptRow) → Ending Session
  refused_with tables none = failed tables.accounts
  refused_with tables (some rows) =
      returned (refuse validation "sign_in_refused" "почта или пароль не подошли")
        (record tables { attempts = rows })

  revoke_previous : Instant → Option Session → List Session → List Session
  revoke_previous now none rows = rows
  revoke_previous now (some previous) rows = save (revoke previous now) rows

  revoke_current : Instant → Option SessionId → List Session → List Session
  unfolding revoke_previous
  revoke_current now none rows = rows
  revoke_current now (some id) rows = revoke_previous now (find id rows) rows

  -- `Session::Open` and `Save`, as every use case ends that lets a person in.
  unfoldable pub let_in : Tables → Result Session → Ending Session
  let_in tables (ok session) =
      returned (ok session) (record tables { sessions = save session tables.sessions })
  let_in tables (err e) = returned (err e) tables

  -- Where the password matched, of the person found.
  unfoldable pub welcome :
      AuthLifetimes
      → Instant
      → StrongId session_tag
      → SignInRequest
      → Tables
      → Option Credential
      → Ending Session
  unfolding let_in revoke_current
  welcome lifetimes now secret request tables none = failed tables.accounts
  welcome lifetimes now secret request tables (some found) =
      let_in
        (record tables {
          attempts =
              forget (address_counter request) (forget (account_counter request) tables.attempts);
          sessions = revoke_current now request.current tables.sessions;
        })
        (open_session (record { tenant = request.tenant; secret = secret }) found.person now
          lifetimes.session request.seen_as)

  unfoldable pub sign_in_with :
      ThrottleLimits
      → AuthLifetimes
      → Instant
      → StrongId session_tag
      → SignInRequest
      → Tables
      → Ending Session
  unfolding is_throttled is_matched refused_with register_both welcome
  sign_in_with limits lifetimes now secret request tables =
      if is_throttled limits now request tables.attempts
      then returned (refuse conflict "sign_in_throttled" "слишком много попыток подряд") tables
      else if not (is_matched request tables)
      then refused_with tables (register_both now limits.window request tables.attempts)
      else welcome lifetimes now secret request tables
          (find_by_email request.tenant request.mail tables.people tables.credentials)

  sign_in_by :
      Result PasswordRules
      → Result ThrottleLimits
      → Result AuthLifetimes
      → Instant
      → StrongId session_tag
      → SignInRequest
      → Tables
      → Ending Session
  unfolding sign_in_with
  sign_in_by (err e) limits lifetimes now secret request tables = returned (err e) tables
  sign_in_by (ok rules) (err e) lifetimes now secret request tables = returned (err e) tables
  sign_in_by (ok rules) (ok limits) (err e) now secret request tables = returned (err e) tables
  sign_in_by (ok rules) (ok limits) (ok lifetimes) now secret request tables =
      sign_in_with limits lifetimes now secret request tables

  -- `SignIn::Execute`. The hash that is computed for a mail that nobody has changes nothing, and only
  -- keeps the time of the answer.
  unfoldable pub sign_in : Instant → StrongId session_tag → SignInRequest → Tables → Ending Session
  unfolding sign_in_by
  sign_in now secret request tables =
      sign_in_by services.passwords services.throttle services.lifetimes now secret request tables

sign_out_found : Instant → Option Session → Tables → Tables
sign_out_found now none tables = tables
sign_out_found now (some session) tables = record tables {
  sessions = save (revoke session now) tables.sessions;
}

-- `SignOut::Execute`.
unfoldable pub sign_out : Instant → SessionId → Tables → Tables
unfolding sign_out_found
sign_out now id tables = sign_out_found now (find id tables.sessions) tables

authenticate_found : Instant → Option Session → Result Session
authenticate_found now none = refuse not_found "session_unknown" "такой сессии нет"
authenticate_found now (some session) =
    if has_value session.revoked_at
    then refuse forbidden "session_revoked" "сессия отозвана"
    else if not (Sessions.is_usable_at session now)
    then refuse forbidden "session_expired" "срок сессии вышел"
    else ok session

-- `AuthenticateSession::Execute`.
unfoldable pub authenticate : Instant → SessionId → List Session → Result Session
unfolding authenticate_found
authenticate now id sessions = authenticate_found now (find id sessions)
