-- ===== src/Identity/Entrance/Signup/Limit.antt =====
-- register_on_my_own.cpp: how many accounts an address registers in a window.
use pdr.Base.{
  ◌≡◌, refl, ap, ◌∙◌, ℕ, ◌+◌, ◌≤◌, ◌<◌, ◌^◌, Bool, true, false, List, [], ◌∷◌, Option, none, some,
  has_value, String, arith, if_both, Bool-cases, inl, inr, All, str_eq_refl,
}
use pdr.Core.Errors.{Result, ok, err}
use pdr.Core.Ids.{PersonId}
use pdr.Core.Time.{Instant, shift, not_after, before}
use pdr.Identity.Tokens.{Digest, same_digest, TokenSecret, parse_secret}
use pdr.Identity.Throttle.{AttemptWindow, registered, is_blocked_at}
use pdr.Identity.Accounts.{Account, AuthLifetimes, SignupLimits, register}
use pdr.Identity.Entrance.Passwords.{Email}
use pdr.Identity.Entrance.PeopleStore.{find_by_mail}
use pdr.Identity.Entrance.Tables.{Services}
use pdr.Identity.Entrance.Signup.{
  WindowRow, Signup, SelfRegistration, window_of, put_window, save_window, is_positive_count,
  after_saved, is_throttled, counted, saved_account, with_secret, after_counted, registered_with,
  registered_by, register_on_my_own,
}

-- An attempt to register, with what the clock and the generators give to it.
pub record Attempt : Type 0 where
  pub at : Instant
  pub id : PersonId
  pub text : String
  pub mail : Email

-- Whether an attempt neither threw nor was refused.
abbrev pub is_done : {A : Type 0} → Option (Result A) → Bool
is_done (some (ok a)) = true
is_done (some (err e)) = false
is_done none = false

abbrev one_if : Bool → ℕ
one_if true = 1
one_if false = 0

one_if_small : (b : Bool) → one_if b ≤ 1
one_if_small true = omega arith
one_if_small false = omega arith

-- How many of the attempts from an address, each handled to its end before the next, register an account.
unfoldable pub registrations : Services → Digest → List Attempt → Signup → ℕ
registrations services from [] state = 0
registrations services from (a ∷ attempts) state =
    let (result, after) = register_on_my_own services a.at a.id a.text a.mail from state in
    one_if (is_done result) + registrations services from attempts after

window_of-put_window :
    (from : Digest) (window : AttemptWindow) (rows : List WindowRow)
    → window_of from (put_window from window rows) ≡ some window
unfolding window_of put_window
window_of-put_window from window [] = rw (str_eq_refl from.value) refl
window_of-put_window from window (row ∷ rows) = elim (Bool-cases (same_digest row.address from)) [
  | inl here ↦ rw (here, here) refl
  | inr other ↦ rw (other, other) (window_of-put_window from window rows)
]

module _ (services : Services) (limits : SignupLimits) (lifetimes : AuthLifetimes)
    (known : services.signups ≡ ok limits)
    (known_lifetimes : services.lifetimes ≡ ok lifetimes) where
  saved_account-windows :
      (secret : TokenSecret) (state : Signup) (account : Result Account)
      → (saved_account services secret state account).1.windows ≡ state.windows
  unfolding saved_account
  saved_account-windows secret state (ok account) = refl
  saved_account-windows secret state (err e) = refl

  with_secret-windows :
      (now : Instant) (id : PersonId) (mail : Digest) (state : Signup) (secret : Result TokenSecret)
      → (with_secret services lifetimes now id mail state secret).1.windows ≡ state.windows
  unfolding with_secret
  with_secret-windows now id mail state (err e) = refl
  with_secret-windows now id mail state (ok secret) =
      saved_account-windows secret state
        (register id mail (services.digest_of secret.value) now lifetimes.password_reset)

  after_counted-windows :
      (now : Instant) (id : PersonId) (text : String) (mail : Email) (state : Signup)
      → (after_counted services lifetimes now id text mail state).1.windows ≡ state.windows
  unfolding after_counted
  after_counted-windows now id text mail state =
      if_both (λ (out : Result SelfRegistration × Signup). out.1.windows ≡ state.windows)
        (has_value (find_by_mail (services.digest_of mail.value) state.accounts)) refl
        (with_secret-windows now id (services.digest_of mail.value) state (parse_secret text))

  module _ (from : Digest) (a : Attempt) (state : Signup) where
    abbrev outcome : Option (Result SelfRegistration) × Signup
    outcome = register_on_my_own services a.at a.id a.text a.mail from state

    throttled :
        is_throttled (window_of from state.windows) a.at limits ≡ true
        → (is_done outcome.0 ≡ false) × (outcome.1 ≡ state)
    unfolding register_on_my_own registered_by registered_with
    throttled h = rw (known, known_lifetimes, h) (refl, refl)

    -- The window after an attempt that is let through.
    abbrev next_window : AttemptWindow
    next_window = counted (window_of from state.windows) a.at limits

    let_through :
        is_throttled (window_of from state.windows) a.at limits ≡ false
        → is_positive_count next_window.attempts ≡ true
        → window_of from outcome.1.windows ≡ some next_window
    unfolding register_on_my_own registered_by registered_with save_window after_saved
    let_through h fits =
        rw (known, known_lifetimes, h, fits)
          (ap (window_of from) (
              after_counted-windows a.at a.id a.text a.mail
                (record state { windows = put_window from next_window state.windows }))
            ∙ window_of-put_window from next_window state.windows)

    not_kept :
        is_throttled (window_of from state.windows) a.at limits ≡ false
        → is_positive_count next_window.attempts ≡ false
        → (is_done outcome.0 ≡ false) × (outcome.1 ≡ state)
    unfolding register_on_my_own registered_by registered_with save_window after_saved
    not_kept h large = rw (known, known_lifetimes, h, large) (refl, refl)

  abbrev InWindow : Instant → List Attempt → Type 0
  InWindow start attempts =
      All (λ (a : Attempt). before a.at (shift start limits.window) ≡ true) attempts

  -- A window that is neither over nor full counts one more.
  record IsOpen (w : AttemptWindow) (a : Attempt) : Type 0 where
    under : w.attempts < limits.per_address
    next :
        counted (some w) a.at limits
        ≡ record { started_at = w.started_at; attempts = w.attempts + 1 }

  passed-IsOpen :
      (w : AttemptWindow) (a : Attempt)
      → limits.per_address < 2 ^ 32
      → before a.at (shift w.started_at limits.window) ≡ true
      → is_throttled (some w) a.at limits ≡ false
      → IsOpen w a
  unfolding is_throttled is_blocked_at counted registered
  passed-IsOpen w a small here h =
      let early : not_after (shift w.started_at limits.window) a.at ≡ false =
        ground (arith, here) in
      let under : w.attempts < limits.per_address = ground (arith, rw early at h) in
      record {
        under = under;
        next = rw early (
            ap (λ n. record { started_at = w.started_at; attempts = n })
              (omega (arith, under, small)));
      }

  -- An attempt that registers nothing and keeps the tables leaves the count to the others.
  not_counted :
      (from : Digest) (a : Attempt) (attempts : List Attempt) (state : Signup)
      → (is_done (outcome from a state).0 ≡ false) × ((outcome from a state).1 ≡ state)
      → registrations services from (a ∷ attempts) state
        ≡ registrations services from attempts state
  unfolding registrations
  not_counted from a attempts state stop =
      omega (arith, ap one_if stop.0, ap (registrations services from attempts) stop.1)

  -- From an address that has a window.
  registrations_from :
      (from : Digest) (attempts : List Attempt) (state : Signup) (w : AttemptWindow)
      → window_of from state.windows ≡ some w
      → InWindow w.started_at attempts
      → limits.per_address < 2 ^ 32
      → w.attempts ≤ limits.per_address
      → registrations services from attempts state + w.attempts ≤ limits.per_address
  unfolding registrations
  registrations_from from [] state w row inside small few = omega (arith, few)
  registrations_from from (a ∷ attempts) state w row (here, inside) small few =
      let same = registrations_from from attempts state w row inside small few in
      elim (Bool-cases (is_throttled (window_of from state.windows) a.at limits)) [
        | inl stopped ↦
            omega (arith, not_counted from a attempts state (throttled from a state stopped), same)
        | inr passed ↦ elim (Bool-cases (is_positive_count (next_window from a state).attempts)) [
          | inr large ↦
              omega (
                arith,
                not_counted from a attempts state (not_kept from a state passed large),
                same,
              )
          | inl fits ↦
              let on = passed-IsOpen w a small here (rw row at passed) in
              let later =
                registrations_from from attempts (outcome from a state).1
                  (record { started_at = w.started_at; attempts = w.attempts + 1 })
                  (let_through from a state passed fits
                    ∙ ap (λ o. some (counted o a.at limits)) row
                    ∙ ap some on.next)
                  inside small (omega (arith, on.under)) in
              omega (arith, one_if_small (is_done (outcome from a state).0), later)
        ]
      ]

  -- Attempts of an address to register within one window, which the first of them opens, register no
  -- more accounts than the limit of the address, where each attempt is handled to its end before the
  -- next one begins, the limit is above zero and below 2^32, and the settings are known. Of attempts
  -- that are handled at the same time it says nothing.
  pub registrations_limit :
      (from : Digest) (first : Attempt) (attempts : List Attempt) (state : Signup)
      → window_of from state.windows ≡ none
      → All (λ (a : Attempt). before a.at (shift first.at limits.window) ≡ true) attempts
      → 0 < limits.per_address
      → limits.per_address < 2 ^ 32
      → registrations services from (first ∷ attempts) state ≤ limits.per_address
  unfolding registrations is_throttled counted
  registrations_limit from first attempts state row inside some_limit small =
      let opened =
        let_through from first state (rw row refl) (rw row refl)
        ∙ ap (λ o. some (counted o first.at limits)) row in
      let later =
        registrations_from from attempts (outcome from first state).1
          (record { started_at = first.at; attempts = 1 }) opened inside small
          (omega (arith, some_limit)) in
      omega (arith, one_if_small (is_done (outcome from first state).0), later)
