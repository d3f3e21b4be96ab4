-- ===== src/Identity/Entrance/Settings.antt =====
-- identity/infrastructure/auth/dynamic_config_auth_settings.cpp: the settings of signing in, as they
-- are composed from the values of the dynamic configuration, each a `std::uint32_t`.
use pdr.Base.{◌≡◌, refl, ℕ, ◌*◌, pos}
use pdr.Core.Errors.{Result, ok}
use pdr.Core.Time.{Duration}
use pdr.Identity.Accounts.{AuthLifetimes, compose_lifetimes, SignupLimits, compose_signup}
use pdr.Identity.Throttle.{ThrottleLimits}
use pdr.Identity.Throttle
use pdr.Identity.Entrance.Passwords.{PasswordRules, compose_rules}

pub record PasswordRulesConfig : Type 0 where
  pub memory_kib : ℕ
  pub iterations : ℕ
  pub parallelism : ℕ
  pub min_length : ℕ

pub record ThrottleConfig : Type 0 where
  pub window_minutes : ℕ
  pub per_account : ℕ
  pub per_address : ℕ

pub record LifetimesConfig : Type 0 where
  pub session_hours : ℕ
  pub invitation_hours : ℕ
  pub password_reset_minutes : ℕ

pub record SignupConfig : Type 0 where
  pub window_minutes : ℕ
  pub per_address : ℕ

-- `std::chrono::minutes` and `hours` in microseconds.
abbrev minutes : ℕ → Duration
minutes count = pos (count * 60000000)

abbrev hours : ℕ → Duration
hours count = pos (count * 3600000000)

unfoldable pub passwords : PasswordRulesConfig → Result PasswordRules
passwords value = compose_rules value.memory_kib value.iterations value.parallelism value.min_length

unfoldable pub throttle : ThrottleConfig → Result ThrottleLimits
throttle value = Throttle.compose (minutes value.window_minutes) value.per_account value.per_address

unfoldable pub signups : SignupConfig → Result SignupLimits
signups value = compose_signup (minutes value.window_minutes) value.per_address

unfoldable pub lifetimes : LifetimesConfig → Result AuthLifetimes
lifetimes value =
    compose_lifetimes (hours value.session_hours) (hours value.invitation_hours)
      (minutes value.password_reset_minutes)

-- The values that stand where the configuration gives none.
abbrev pub default_password_rules : PasswordRulesConfig
default_password_rules = record {
  memory_kib = 19456;
  iterations = 2;
  parallelism = 1;
  min_length = 10;
}

abbrev pub default_throttle : ThrottleConfig
default_throttle = record { window_minutes = 15; per_account = 10; per_address = 50 }

abbrev pub default_lifetimes : LifetimesConfig
default_lifetimes = record {
  session_hours = 720;
  invitation_hours = 168;
  password_reset_minutes = 30;
}

abbrev pub default_signups : SignupConfig
default_signups = record { window_minutes = 60; per_address = 5 }

-- The values that stand without a configuration are all accepted.
pub defaults_compose :
    ((rules : PasswordRules) × (passwords default_password_rules ≡ ok rules))
    × ((limits : ThrottleLimits) × (throttle default_throttle ≡ ok limits))
    × ((times : AuthLifetimes) × (lifetimes default_lifetimes ≡ ok times))
    × ((limits : SignupLimits) × (signups default_signups ≡ ok limits))
unfolding passwords throttle lifetimes signups compose_rules Throttle.compose compose_lifetimes
    compose_signup
defaults_compose = ((_, refl), (_, refl), (_, refl), (_, refl))
