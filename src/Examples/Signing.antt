-- ===== src/Examples/Signing.antt =====
-- A practice whose people sign in, forget passwords and follow links.
use pdr.Base.{
  ◌≡◌, refl, pos, ◌+ℤ◌, ◌*◌, ◌≤◌, ◌<◌, ◌^◌, ℕ, true, false, List, [], ◌∷◌, none, some,
  if◌then◌else◌, length,
}
use pdr.Core.Errors.{Error, ok, err, refuse, conflict, forbidden}
use pdr.Core.Ids.{StrongId, session_tag, PersonId}
use pdr.Core.Time.{Instant, from_unix_micros, shift, not_after}
use pdr.Identity.Roles.{student, has_role, with_role}
use pdr.Identity.Tokens.{OneTimeToken, TokenSecret, password_reset, invitation, same_digest}
use pdr.Identity.Tokens
use pdr.Identity.Sessions.{SessionId, Fingerprint, Session, open_session}
use pdr.Identity.Sessions
use pdr.Identity.Throttle.{ThrottleLimits, registered, is_blocked_at}
use pdr.Identity.Accounts.{Account, AuthLifetimes}
use pdr.Identity.Entrance.Passwords.{
  Email, PasswordRules, PasswordHash, symbols, compose_rules, chosen, given, chosen_bounds,
}
use pdr.Identity.Entrance.SessionStore.{find, same_session}
use pdr.Identity.Entrance.TokenStore
use pdr.Identity.Entrance.AttemptStore.{
  Counter, AttemptRow, seen, register_attempt, same_counter, has_room, seen-register_attempt,
}
use pdr.Identity.Entrance.PeopleStore.{find_by_email, find_by_mail, find_for, enrol, save_hash}
use pdr.Identity.Entrance.Tables.{Tables, Services, returned}
use pdr.Identity.Entrance.SignIn.{
  SignInRequest, let_in, sign_in, sign_out, authenticate, is_matched, account_counter,
}
use pdr.Identity.Entrance.SignIn.Guesses.{traces, Guess, sign_in_uniform}
use pdr.Identity.Entrance.SignIn.Leaving.{sign_out_final}
use pdr.Identity.Entrance.Resets.{ResetPasswordRequest, reset_password_with, new_hash}
use pdr.Identity.Entrance.Resets.Renewed.{IsRenewed, reset_renews}
use pdr.Identity.Entrance.Joining.{AcceptInvitationRequest, accept_invitation}
use pdr.Identity.Entrance.Joining.Accepted.{IsJoined, accept_invitation_once}
use pdr.Identity.Entrance.SessionStore
use pdr.Base.Bits.{has_bit, with_bit}
use pdr.Examples.People.{practice, parent, pupil, moment, new_year, born}

abbrev rules : PasswordRules
rules = record { memory_kib = 19456; iterations = 2; parallelism = 1; min_length = 10 }

-- A window of ten minutes.
abbrev limits : ThrottleLimits
limits = record { window = pos 600000000; per_account = 5; per_address = 20 }

abbrev pub lifetimes : AuthLifetimes
lifetimes = record {
  session = pos 2592000000000;
  invitation = pos 604800000000;
  password_reset = pos 3600000000;
}

abbrev pub stored : PasswordHash
stored = record { value = "$argon2id$new" }

-- A digest is its own text, and no password matches.
abbrev pub services : Services
services = record {
  passwords = ok rules;
  throttle = ok limits;
  lifetimes = ok lifetimes;
  signups = ok (record { window = pos 3600000000; per_address = 3 });
  digest_of = λ text. record { value = text };
  hash = λ password rules. ok stored;
  matches = λ password hash. false;
  tenant_text = λ tenant. "practice";
  shown = λ n. "ten";
}

abbrev pub home : Fingerprint
home = record { agent = record { value = "browser" }; address = record { value = "home" } }

abbrev pub first_secret : StrongId session_tag
first_secret = record { value = 100 }

abbrev next_secret : StrongId session_tag
next_secret = record { value = 101 }

abbrev pub standing : Session
standing = record {
  id = record { tenant = practice; secret = first_secret };
  person = pupil;
  created_at = moment (pos 0);
  expires_at = moment (pos 1738281600000000);
  revoked_at = none;
  seen = home;
}

abbrev pub text_secret : TokenSecret
text_secret = record { value = "0123456789012345678901234567890123456789abc" }

-- A link of an hour, to reset the password.
abbrev reset_link : OneTimeToken
reset_link = record {
  id = record { value = 30 };
  tenant = practice;
  secret = record { value = text_secret.value };
  purpose = password_reset;
  role = none;
  person = some pupil;
  invited = none;
  created_at = new_year;
  expires_at = moment (pos 1735693200000000);
  used_at = none;
}

abbrev pub tables : Tables
tables = record {
  sessions = standing ∷ [];
  tokens = reset_link ∷ [];
  attempts = [];
  people = [];
  credentials = [];
  roles = [];
  accounts = [];
}

abbrev pub long_password : List ℕ
long_password = 97 ∷ 98 ∷ 99 ∷ 100 ∷ 101 ∷ 102 ∷ 103 ∷ 104 ∷ 105 ∷ 106 ∷ []

composed : compose_rules 19456 2 1 10 ≡ ok rules
unfolding compose_rules
composed = refl

accepted : chosen services.shown long_password rules ≡ ok (record { secret = long_password })
unfolding chosen
accepted = refl

chosen_bounds_example :
    (19456 ≤ rules.memory_kib)
    × (2 ≤ rules.iterations)
    × (1 ≤ rules.parallelism)
    × (rules.parallelism < 2 ^ 29 → rules.parallelism * 8 ≤ rules.memory_kib)
    × (long_password ≡ long_password)
    × (8 ≤ symbols long_password)
    × (rules.min_length ≤ symbols long_password)
    × (length long_password ≤ 256)
chosen_bounds_example =
    chosen_bounds 19456 2 1 10 rules services.shown long_password
      (record { secret = long_password }) composed accepted

abbrev reset : ResetPasswordRequest
reset = record { tenant = practice; secret = text_secret; password = long_password; seen_as = home }

link_found :
    TokenStore.find practice (record { value = text_secret.value }) tables.tokens ≡ some reset_link
unfolding TokenStore.find
link_found = refl

link_usable : Tokens.is_usable_at reset_link new_year ≡ true
unfolding Tokens.is_usable_at
link_usable = refl

hashed : new_hash services rules long_password ≡ ok stored
unfolding new_hash chosen
hashed = refl

unknown_session : find (record { tenant = practice; secret = next_secret }) tables.sessions ≡ none
unfolding find
unknown_session = refl

reset_renews_example :
    (session : Session) × (after : Tables) × (reset_password_with services new_year next_secret
        reset tables
      ≡ returned (ok session) after)
    × IsRenewed new_year practice pupil stored tables.sessions session after
    × ((later : Instant) (next : StrongId session_tag) (password : List ℕ) (seen_as : Fingerprint)
        → reset_password_with services later next
            (record reset { password = password; seen_as = seen_as })
            after
          ≡ returned (refuse conflict "token_already_used" "по этой ссылке уже заходили") after)
reset_renews_example =
    reset_renews services rules lifetimes new_year next_secret reset tables reset_link pupil stored
      refl refl link_found refl refl link_usable hashed refl unknown_session

standing_found : find standing.id tables.sessions ≡ some standing
unfolding find
standing_found = refl

sign_out_final_example :
    ((moment : Instant)
      → Sessions.is_usable_at standing moment ≡ true
      → authenticate moment standing.id tables.sessions ≡ ok standing)
    × ((moment : Instant)
        → Sessions.is_usable_at standing moment ≡ false
        → (e : Error) × (authenticate moment standing.id tables.sessions ≡ err e))
    × ((later : Instant)
        → authenticate later standing.id (sign_out new_year standing.id tables).sessions
          ≡ refuse forbidden "session_revoked" "сессия отозвана")
    × ((later : Instant) (other : SessionId)
        → same_session standing.id other ≡ false
        → authenticate later other (sign_out new_year standing.id tables).sessions
          ≡ authenticate later other tables.sessions)
sign_out_final_example = sign_out_final standing.id standing new_year tables standing_found

abbrev mail : Email
mail = record { value = "pupil@example.org" }

abbrev attempt : SignInRequest
attempt = record {
  tenant = practice;
  mail = mail;
  secret = long_password;
  seen_as = home;
  current = none;
}

-- The pupil has an address and a password.
abbrev peopled : Tables
peopled = record tables {
  people =
      record {
        tenant = practice;
        person = record { id = pupil; mail = some mail; born_on = born };
        display_name = "Pupil";
        zone = "Europe/Moscow";
      }
      ∷ [];
  credentials = record { tenant = practice; person = pupil; hash = stored } ∷ [];
}

unmatched : is_matched services attempt tables ≡ false
unfolding is_matched given find_by_email
unmatched = refl

mismatched : is_matched services attempt peopled ≡ false
unfolding is_matched given find_by_email find_for
mismatched = refl

sign_in_uniform_example :
    traces (sign_in services new_year first_secret attempt tables)
    ≡ traces (sign_in services new_year next_secret attempt peopled)
sign_in_uniform_example =
    sign_in_uniform services rules limits lifetimes new_year first_secret next_secret attempt tables
      peopled refl refl refl unmatched mismatched refl

abbrev counter : Counter
counter = account_counter services attempt

-- Four attempts were counted in the window that began with the year.
abbrev counted : List AttemptRow
counted = record { counter = counter; window = record { started_at = new_year; attempts = 4 } } ∷ []

fits : has_room (seen counter counted) new_year limits.window ≡ true
unfolding seen is_blocked_at ◌+ℤ◌
fits = refl

late : not_after (shift (from_unix_micros (pos 0)) limits.window) new_year ≡ true
unfolding ◌+ℤ◌
late = refl

seen-register_attempt_example :
    (after : List AttemptRow) × (register_attempt counter new_year limits.window counted
      ≡ some after)
    × ((other : Counter)
        → seen other after ≡ (
            if same_counter counter other
            then registered (seen counter counted) new_year limits.window
            else seen other counted))
seen-register_attempt_example =
    seen-register_attempt counter new_year limits.window counted fits late

abbrev pressed : Tables
pressed = record peopled { attempts = counted }

abbrev guess : Guess
guess = record { now = new_year; secret = first_secret; request = attempt }

abbrev invitation_link : OneTimeToken
invitation_link = record reset_link { purpose = invitation; role = some student; person = none }

abbrev known_account : Account
known_account = record {
  id = pupil;
  mail = record { value = mail.value };
  confirmed_at = some new_year;
  confirmation = none;
  confirmation_expires_at = none;
  created_at = new_year;
}

-- The practice has sent a link to the pupil, who has an account.
abbrev invited_tables : Tables
invited_tables = record tables { tokens = invitation_link ∷ []; accounts = known_account ∷ [] }

abbrev acceptance : AcceptInvitationRequest
acceptance = record {
  tenant = practice;
  secret = text_secret;
  display_name = "Pupil";
  mail = mail;
  born_on = born;
  zone = "Europe/Moscow";
  password = long_password;
  seen_as = home;
}

abbrev joined : Session
joined = record {
  id = record { tenant = practice; secret = next_secret };
  person = pupil;
  created_at = new_year;
  expires_at = moment (pos 1738281600000000);
  revoked_at = none;
  seen = home;
}

abbrev joined_tables : Tables
joined_tables = record invited_tables {
  tokens = record invitation_link { used_at = some new_year } ∷ [];
  sessions = standing ∷ joined ∷ [];
  people = peopled.people;
  credentials = peopled.credentials;
  roles = record { tenant = practice; person = pupil; role = student } ∷ [];
}

joins :
    accept_invitation services new_year next_secret parent acceptance invited_tables
    ≡ returned (ok joined) joined_tables
unfolding accept_invitation ◌+ℤ◌ TokenStore.find Tokens.used TokenStore.mark_used chosen
    find_by_mail enrol has_role has_bit with_role with_bit open_session SessionStore.save save_hash
    new_hash let_in
joins = refl

accept_invitation_once_example :
    IsJoined services rules new_year next_secret acceptance invited_tables joined joined_tables
    × ((later : Instant) (next : StrongId session_tag) (other : PersonId)
          (again : AcceptInvitationRequest)
        → accept_invitation services later next other
            (record again { tenant = practice; secret = text_secret })
            joined_tables
          ≡ returned
              (refuse conflict "token_already_used" "по этой ссылке уже заходили")
              joined_tables)
accept_invitation_once_example =
    accept_invitation_once services rules lifetimes new_year next_secret parent acceptance
      invited_tables joined joined_tables refl refl (unfold SessionStore.find in refl) joins
