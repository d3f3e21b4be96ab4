-- ===== src/Identity/Throttle.antt =====
-- identity/core/login_throttle.hpp and login_throttle.cpp: how many attempts a window takes. The
-- counter of attempts is a `std::uint32_t`, whose sums wrap around.
pub mod Blocking
use pdr.Base.{
  ◌≡◌, ℕ, ◌+◌, ◌%◌, ◌^◌, Bool, true, false, not, ◌||◌, Option, none, some, String, str_eq, ltb, leb,
  if◌then◌else◌, ◌+ℤ◌,
}
use pdr.Core.Errors.{Result, ok, err, refuse, validation}
use pdr.Core.Time.{Instant, Duration, shift, not_after, is_positive}

pub data AttemptSubject : Type 0 where
  account address : AttemptSubject

unfoldable pub subject_name : AttemptSubject → String
subject_name account = "account"
subject_name address = "address"

unfoldable pub parse_attempt_subject : String → Option AttemptSubject
parse_attempt_subject text =
    if str_eq text "account"
    then some account
    else if str_eq text "address"
    then some address
    else none

pub record ThrottleLimits : Type 0 where
  pub window : Duration
  pub per_account : ℕ
  pub per_address : ℕ

unfoldable pub compose : Duration → ℕ → ℕ → Result ThrottleLimits
compose window per_account per_address =
    if not (is_positive window)
    then refuse validation "throttle_window_not_positive" "окно нулевой длины не считает ничего"
    else if ltb per_account 1 || ltb per_address 1
    then refuse validation "throttle_limit_too_low" "порог меньше одной попытки запирает вход всем"
    else if ltb per_address per_account
    then refuse validation "throttle_address_below_account"
        "за одним адресом сидит целый класс, за одной записью — один человек: порог по адресу не бывает строже"
    else ok (record { window = window; per_account = per_account; per_address = per_address })

unfoldable pub limit_for : ThrottleLimits → AttemptSubject → ℕ
limit_for limits account = limits.per_account
limit_for limits address = limits.per_address

pub record AttemptWindow : Type 0 where
  pub started_at : Instant
  pub attempts : ℕ

unfoldable pub registered : AttemptWindow → Instant → Duration → AttemptWindow
registered w at window =
    if not_after (shift w.started_at window) at
    then record { started_at = at; attempts = 1 }
    else record { started_at = w.started_at; attempts = (w.attempts + 1) % 2 ^ 32 }

unfoldable pub is_blocked_at : AttemptWindow → Instant → Duration → ℕ → Bool
is_blocked_at w moment window limit =
    if not_after (shift w.started_at window) moment then false else leb limit w.attempts
