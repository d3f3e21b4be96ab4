-- ===== src/Jobs/Settings.antt =====
-- jobs/core/job_settings.hpp and job_settings.cpp: the settings of one periodic job.
use pdr.Base.{◌≡◌, Bool, true, not, leb_ℤ, ltb_ℤ, if◌then◌else◌, String, arith}
use pdr.Core.Errors.{Result, ok, refuse, validation}
use pdr.Core.Time.{Duration, is_positive}

pub record JobName : Type 0 where
  pub value : String

pub record JobSettings : Type 0 where
  pub lock : JobName
  pub period : Duration
  pub attempt : Duration
  pub silence_allowed : Duration
  pub enabled : Bool

unfoldable pub compose : JobName → Duration → Duration → Duration → Bool → Result JobSettings
compose lock period attempt silence_allowed enabled =
    if not (is_positive period)
    then refuse validation "job_period_not_positive" "период задания должен быть положительным"
    else if not (is_positive attempt)
    then refuse validation "job_attempt_not_positive" "время на прогон должно быть положительным"
    else if ltb_ℤ period attempt
    then refuse validation "job_attempt_over_period"
        "прогону отведено больше, чем период: прогоны наедут друг на друга"
    else if ltb_ℤ silence_allowed period
    then refuse validation "job_silence_under_period"
        "молчание короче периода: тревога сработает на каждом прогоне"
    else ok (record {
      lock = lock;
      period = period;
      attempt = attempt;
      silence_allowed = silence_allowed;
      enabled = enabled;
    })

-- Settings that are composed leave a run some time, at most the period, and allow a silence of at
-- least the period.
pub compose_sound :
    (lock : JobName) (period attempt silence_allowed : Duration) (enabled : Bool) (s : JobSettings)
    → compose lock period attempt silence_allowed enabled ≡ ok s
    → (is_positive s.attempt ≡ true)
      × (leb_ℤ s.attempt s.period ≡ true)
      × (leb_ℤ s.period s.silence_allowed ≡ true)
unfolding compose
compose_sound lock period attempt silence_allowed enabled s h =
    (ground arith, ground arith, ground arith)
