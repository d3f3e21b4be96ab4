-- ===== src/Identity/Entrance/SignIn/Guesses.antt =====
-- sign_in.cpp: what somebody learns who guesses passwords, and how many guesses he has.
use pdr.Base.{
  ◌≡◌, ap, sym, ◌∙◌, true, false, List, [], ◌∷◌, ℕ, suc, Option, none, some, pos, if◌then◌else◌,
  Bool-cases, inl, inr, Option-cases,
}
use pdr.Core.Errors.{Result, ok, refuse, validation, conflict}
use pdr.Core.Ids.{StrongId, session_tag}
use pdr.Core.Time.{Instant, Duration, shift, not_after, from_unix_micros}
use pdr.Identity.Sessions.{Session}
use pdr.Identity.Throttle.{ThrottleLimits}
use pdr.Identity.Accounts.{AuthLifetimes}
use pdr.Identity.Entrance.Passwords.{PasswordRules}
use pdr.Identity.Entrance.AttemptStore.{Counter, AttemptRow}
use pdr.Identity.Entrance.Tables.{Tables, Services, Ending, returned, failed, tables_after}
use pdr.Identity.Entrance.SignIn.{
  SignInRequest, sign_in, sign_in_with, is_throttled, is_matched, account_counter, register_both,
}

-- What somebody outside sees: the answer; and the counters that stay behind.
abbrev pub traces : Ending Session → Option (Result Session × List AttemptRow)
traces (returned result after) = some (result, after.attempts)
traces (failed accounts) = none

abbrev throttled_answer : Result Session
throttled_answer = refuse conflict "sign_in_throttled" "слишком много попыток подряд"

abbrev refused_answer : Result Session
refused_answer = refuse validation "sign_in_refused" "почта или пароль не подошли"

pub record Guess : Type 0 where
  pub now : Instant
  pub secret : StrongId session_tag
  pub request : SignInRequest

module _ (services : Services) where
  -- How many of the guesses come to a comparison of the password: all that are not barred.
  abbrev pub compared : ThrottleLimits → List Guess → Tables → ℕ
  compared limits [] tables = 0
  compared limits (g ∷ gs) tables =
      let rest =
        compared limits gs
          (tables_after tables (sign_in services g.now g.secret g.request tables)) in
      if is_throttled services limits g.now g.request tables.attempts then rest else suc rest

  -- A wrong guess against one account, within the window that began at a moment.
  abbrev pub IsWrongGuess : Counter → Instant → Duration → Tables → Guess → Type 0
  IsWrongGuess counter start window tables g =
      (account_counter services g.request ≡ counter)
      × (is_matched services g.request tables ≡ false)
      × (not_after (shift start window) g.now ≡ false)
      × (not_after (shift (from_unix_micros (pos 0)) window) g.now ≡ true)

  with_settings :
      (rules : PasswordRules) (limits : ThrottleLimits) (lifetimes : AuthLifetimes) (now : Instant)
      (secret : StrongId session_tag) (request : SignInRequest) (tables : Tables)
      → services.passwords ≡ ok rules
      → services.throttle ≡ ok limits
      → services.lifetimes ≡ ok lifetimes
      → sign_in services now secret request tables
        ≡ sign_in_with services limits lifetimes now secret request tables
  unfolding sign_in
  with_settings rules limits lifetimes now secret request tables r l t = rw (r, l, t)

  -- What a guess that does not match leaves behind, by the counters alone.
  left_behind :
      ThrottleLimits
      → Instant
      → SignInRequest
      → List AttemptRow
      → Option (Result Session × List AttemptRow)
  left_behind limits now request rows =
      if is_throttled services limits now request rows
      then some (throttled_answer, rows)
      else elim (register_both services now limits.window request rows) [
        | none ↦ none
        | some after ↦ some (refused_answer, after)
      ]

  unmatched_traces :
      (limits : ThrottleLimits) (lifetimes : AuthLifetimes) (now : Instant)
      (secret : StrongId session_tag) (request : SignInRequest) (tables : Tables)
      → is_matched services request tables ≡ false
      → traces (sign_in_with services limits lifetimes now secret request tables)
        ≡ left_behind limits now request tables.attempts
  unfolding sign_in_with left_behind is_throttled
  unmatched_traces limits lifetimes now secret request tables wrong =
      elim (Bool-cases (is_throttled services limits now request tables.attempts)) [
        | inl barred ↦ rw (wrong, barred)
        | inr open_way ↦
            elim (Option-cases (register_both services now limits.window request tables.attempts)) [
              | inl full ↦ rw (wrong, open_way, full)
              | inr (after, kept) ↦ rw (wrong, open_way, kept)
            ]
      ]

  -- Where the settings can be read and the password matches in neither of two practices that differ in
  -- their people and passwords and not in their counters, the answer and the counters afterwards are the
  -- same: a mail that nobody has is answered as a wrong password is.
  pub sign_in_uniform :
      (rules : PasswordRules) (limits : ThrottleLimits) (lifetimes : AuthLifetimes) (now : Instant)
      (secret other_secret : StrongId session_tag) (request : SignInRequest)
      (tables others : Tables)
      → services.passwords ≡ ok rules
      → services.throttle ≡ ok limits
      → services.lifetimes ≡ ok lifetimes
      → is_matched services request tables ≡ false
      → is_matched services request others ≡ false
      → tables.attempts ≡ others.attempts
      → traces (sign_in services now secret request tables)
        ≡ traces (sign_in services now other_secret request others)
  sign_in_uniform rules limits lifetimes now secret other_secret request tables others r l t wrong
        unknown counters =
      rw
        (
          with_settings rules limits lifetimes now secret request tables r l t,
          with_settings rules limits lifetimes now other_secret request others r l t,
        )
        (unmatched_traces limits lifetimes now secret request tables wrong
          ∙ ap (λ rows. left_behind limits now request rows) counters
          ∙ sym (unmatched_traces limits lifetimes now other_secret request others unknown))
