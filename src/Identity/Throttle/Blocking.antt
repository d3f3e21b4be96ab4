-- ===== src/Identity/Throttle/Blocking.antt =====
-- login_throttle.cpp: when a run of attempts is blocked.
use pdr.Base.{
  ◌≡◌, ◌==◌, ap, ◌∙◌, ℕ, ◌+◌, ◌<◌, ◌^◌, Bool, true, false, not, ◌&&◌, List, [], ◌∷◌, leb, length,
  All, arith,
}
use pdr.Core.Errors.{ok}
use pdr.Core.Time.{Instant, Duration, shift, not_after}
use pdr.Identity.Throttle.{
  AttemptSubject, account, address, ThrottleLimits, compose, limit_for, AttemptWindow, registered,
  is_blocked_at,
}

-- A run of attempts, the first one first.
abbrev pub register_all : AttemptWindow → List Instant → Duration → AttemptWindow
register_all w [] window = w
register_all w (at ∷ rest) window = register_all (registered w at window) rest window

-- The moment is before the end of the window.
abbrev pub is_within : AttemptWindow → Duration → Instant → Bool
is_within w window moment = not (not_after (shift w.started_at window) moment)

pub registered_within :
    (w : AttemptWindow) (window : Duration) (at : Instant)
    → is_within w window at ≡ true
    → w.attempts + 1 < 2 ^ 32
    → registered w at window ≡ record { started_at = w.started_at; attempts = w.attempts + 1 }
unfolding registered
registered_within w window at within small = ground arith

register_all_counts :
    (w : AttemptWindow) (window : Duration) (ats : List Instant)
    → All (λ at. is_within w window at ≡ true) ats
    → w.attempts + length ats < 2 ^ 32
    → register_all w ats window
      ≡ record { started_at = w.started_at; attempts = w.attempts + length ats }
register_all_counts w window [] within small =
    ap (λ n. record { started_at = w.started_at; attempts = n }) (omega arith)
register_all_counts w window (at ∷ rest) within small =
    let next : AttemptWindow = record { started_at = w.started_at; attempts = w.attempts + 1 } in
    ap (λ v. register_all v rest window) (registered_within w window at within.0 (omega arith))
    ∙ register_all_counts next window rest within.1 (omega arith)
    ∙ ap (λ n. record { started_at = w.started_at; attempts = n }) (omega arith)

-- Attempts that all fall within a window which took the first of them are counted one by one, as
-- long as the counter of 32 bits holds them. The last moments of the window are then blocked exactly
-- from the limit on, and nothing is blocked once the window is over.
pub blocked_from_limit :
    (w : AttemptWindow) (window : Duration) (ats : List Instant) (moment : Instant) (limit : ℕ)
    → All (λ at. is_within w window at ≡ true) ats
    → w.attempts + length ats < 2 ^ 32
    → is_blocked_at (register_all w ats window) moment window limit
      ≡ is_within w window moment && leb limit (w.attempts + length ats)
unfolding is_blocked_at
blocked_from_limit w window ats moment limit within small =
    rw (register_all_counts w window ats within small) (ground arith)

-- An attempt after the end of a window begins a new one, of that attempt alone: with limits that were
-- composed, the new window is blocked within its time only for a limit of one attempt.
pub registered_anew :
    (w : AttemptWindow) (window : Duration) (at moment : Instant) (limits : ThrottleLimits)
    (per_account per_address : ℕ) (subject : AttemptSubject)
    → compose window per_account per_address ≡ ok limits
    → is_within w window at ≡ false
    → is_blocked_at (registered w at window) moment window (limit_for limits subject)
      ≡ is_within (registered w at window) window moment && (limit_for limits subject == 1)
unfolding is_blocked_at registered compose limit_for
registered_anew w window at moment limits n m account made over = ground arith
registered_anew w window at moment limits n m address made over = ground arith
