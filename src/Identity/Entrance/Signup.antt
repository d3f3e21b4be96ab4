-- ===== src/Identity/Entrance/Signup.antt =====
-- identity/application/register_on_my_own.hpp and register_on_my_own.cpp, with identity/infrastructure/
-- onboarding/postgres_signup_attempts.cpp: an account that somebody registers for themselves. Both
-- tables stand outside the practices, and each statement is committed at once; here a request runs from
-- its first statement to its last without another's in between. The counter is stored as a signed
-- number of 32 bits, and the table refuses one that is not positive, so that from 2^31 on the statement
-- throws.
pub mod Limit
use pdr.Base.{
  ℕ, ltb, ◌^◌, ◌&&◌, Bool, true, false, List, [], ◌∷◌, Option, none, some, has_value, String,
  if◌then◌else◌,
}
use pdr.Core.Errors.{Result, ok, err, refuse, conflict}
use pdr.Core.Ids.{PersonId}
use pdr.Core.Time.{Instant}
use pdr.Identity.Tokens.{Digest, same_digest, TokenSecret, parse_secret}
use pdr.Identity.Throttle.{AttemptWindow, registered, is_blocked_at}
use pdr.Identity.Accounts.{Account, AuthLifetimes, SignupLimits, register}
use pdr.Identity.Entrance.Passwords.{Email}
use pdr.Identity.Entrance.PeopleStore.{find_by_mail, save_account}
use pdr.Identity.Entrance.Tables.{Services}

pub record WindowRow : Type 0 where
  pub address : Digest
  pub window : AttemptWindow

pub record Signup : Type 0 where
  pub accounts : List Account
  pub windows : List WindowRow

pub record SelfRegistration : Type 0 where
  pub account : Account
  pub confirmation : TokenSecret

-- `PostgresSignupAttempts::Window`.
unfoldable pub window_of : Digest → List WindowRow → Option AttemptWindow
window_of address [] = none
window_of address (row ∷ rows) =
    if same_digest row.address address then some row.window else window_of address rows

unfoldable pub put_window : Digest → AttemptWindow → List WindowRow → List WindowRow
put_window address window [] = record { address = address; window = window } ∷ []
put_window address window (row ∷ rows) =
    let rest = put_window address window rows in
    if same_digest row.address address then record row { window = window } ∷ rows else row ∷ rest

-- Whether a counter is positive as a signed number of 32 bits.
abbrev pub is_positive_count : ℕ → Bool
is_positive_count attempts = ltb 0 attempts && ltb attempts (2 ^ 31)

-- `PostgresSignupAttempts::Save`; nothing where the table refuses the row and the statement throws.
unfoldable pub save_window : Digest → AttemptWindow → List WindowRow → Option (List WindowRow)
unfolding put_window
save_window address window rows =
    if is_positive_count window.attempts then some (put_window address window rows) else none

unfoldable pub is_throttled : Option AttemptWindow → Instant → SignupLimits → Bool
unfolding is_blocked_at
is_throttled none now limits = false
is_throttled (some window) now limits = is_blocked_at window now limits.window limits.per_address

unfoldable pub counted : Option AttemptWindow → Instant → SignupLimits → AttemptWindow
unfolding registered
counted none now limits = record { started_at = now; attempts = 1 }
counted (some window) now limits = registered window now limits.window

module _ (services : Services) where
  saved_account : TokenSecret → Signup → Result Account → Result SelfRegistration × Signup
  saved_account secret state (err e) = (err e, state)
  saved_account secret state (ok account) = (
    ok (record { account = account; confirmation = secret }),
    record state { accounts = save_account account state.accounts },
  )

  with_secret :
      AuthLifetimes
      → Instant
      → PersonId
      → Digest
      → Signup
      → Result TokenSecret
      → Result SelfRegistration × Signup
  unfolding saved_account
  with_secret lifetimes now id mail state (err e) = (err e, state)
  with_secret lifetimes now id mail state (ok secret) =
      saved_account secret state
        (register id mail (services.digest_of secret.value) now lifetimes.password_reset)

  -- After the attempt was counted.
  unfoldable pub after_counted :
      AuthLifetimes
      → Instant
      → PersonId
      → String
      → Email
      → Signup
      → Result SelfRegistration × Signup
  unfolding with_secret
  after_counted lifetimes now id text mail state =
      let digest = services.digest_of mail.value in
      if has_value (find_by_mail digest state.accounts)
      then (
        refuse conflict "account_already_exists" "учётная запись с такой почтой уже есть",
        state,
      )
      else with_secret lifetimes now id digest state (parse_secret text)

  -- After the statement that counts the attempt. Where it throws, the request throws and nothing is kept.
  unfoldable pub after_saved :
      AuthLifetimes
      → Instant
      → PersonId
      → String
      → Email
      → Signup
      → Option (List WindowRow)
      → Option (Result SelfRegistration) × Signup
  unfolding after_counted
  after_saved lifetimes now id text mail state none = (none, state)
  after_saved lifetimes now id text mail state (some windows) =
      let done = after_counted lifetimes now id text mail (record state { windows = windows }) in
      (some done.0, done.1)

  unfoldable pub registered_with :
      SignupLimits
      → AuthLifetimes
      → Instant
      → PersonId
      → String
      → Email
      → Digest
      → Signup
      → Option (Result SelfRegistration) × Signup
  unfolding is_throttled counted after_saved
  registered_with limits lifetimes now id text mail from state =
      let window = window_of from state.windows in
      if is_throttled window now limits
      then (
        some (refuse conflict "signup_throttled" "с этого адреса слишком много заведений подряд"),
        state,
      )
      else after_saved lifetimes now id text mail state
          (save_window from (counted window now limits) state.windows)

  registered_by :
      Result SignupLimits
      → Result AuthLifetimes
      → Instant
      → PersonId
      → String
      → Email
      → Digest
      → Signup
      → Option (Result SelfRegistration) × Signup
  unfolding registered_with
  registered_by (err e) lifetimes now id text mail from state = (some (err e), state)
  registered_by (ok limits) (err e) now id text mail from state = (some (err e), state)
  registered_by (ok limits) (ok lifetimes) now id text mail from state =
      registered_with limits lifetimes now id text mail from state

  -- `RegisterOnMyOwn::Execute`, with the identifier and the text that the generators give.
  unfoldable pub register_on_my_own :
      Instant
      → PersonId
      → String
      → Email
      → Digest
      → Signup
      → Option (Result SelfRegistration) × Signup
  unfolding registered_by
  register_on_my_own now id text mail from state =
      registered_by services.signups services.lifetimes now id text mail from state
