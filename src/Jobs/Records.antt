-- ===== src/Jobs/Records.antt =====
-- jobs/core/run_record.hpp and run_record.cpp: the record of a run, and how long a job is silent.
use pdr.Base.{Bool, true, ◌||◌, Option, none, some, ℤ, pos, ltb_ℤ, if◌then◌else◌, String}
use pdr.Core.Errors.{Result, ok, refuse, validation}
use pdr.Core.Time.{Instant, Duration, since, before, not_after}

pub data Outcome : Type 0 where
  done lock_lost timed_out : Outcome

unfoldable pub outcome_name : Outcome → String
outcome_name done = "done"
outcome_name lock_lost = "lock_lost"
outcome_name timed_out = "timed_out"

pub record RunRecord : Type 0 where
  pub started_at : Instant
  pub finished_at : Instant
  pub outcome : Outcome
  pub produced : ℤ
  pub repeated : ℤ

unfoldable pub compose : Instant → Instant → Outcome → ℤ → ℤ → Result RunRecord
compose started_at finished_at outcome produced repeated =
    if before finished_at started_at
    then refuse validation "job_run_ends_before_it_starts" "прогон закончился раньше, чем начался"
    else if ltb_ℤ produced (pos 0) || ltb_ℤ repeated (pos 0)
    then refuse validation "job_run_counter_negative" "счётчик действий не бывает отрицательным"
    else ok (record {
      started_at = started_at;
      finished_at = finished_at;
      outcome = outcome;
      produced = produced;
      repeated = repeated;
    })

unfoldable pub silence_for : RunRecord → Instant → Duration
silence_for last now = if not_after now last.finished_at then pos 0 else since now last.finished_at

unfoldable pub has_fallen_silent : Option RunRecord → Instant → Duration → Bool
unfolding silence_for
has_fallen_silent none now silence_allowed = true
has_fallen_silent (some last) now silence_allowed = ltb_ℤ silence_allowed (silence_for last now)
