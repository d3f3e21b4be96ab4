-- ===== src/Core/Time.antt =====
-- libs/pdr-core/src/core/types/time.hpp and time.cpp: moments in microseconds since the Unix epoch.
-- The source does not check its sums for overflow; a moment is an integer without bounds.
use pdr.Base.{Bool, ℤ, pos, ◌+ℤ◌, ◌-ℤ◌, ltb_ℤ, leb_ℤ}

pub record Instant : Type 0 where
  pub micros : ℤ

-- `std::chrono::microseconds`.
abbrev pub Duration : Type 0
Duration = ℤ

abbrev pub from_unix_micros : ℤ → Instant
from_unix_micros micros = record { micros = micros }

abbrev pub shift : Instant → Duration → Instant
shift instant delta = record { micros = instant.micros +ℤ delta }

abbrev pub since : Instant → Instant → Duration
since later earlier = later.micros -ℤ earlier.micros

-- `a < b` and `a <= b`.
abbrev pub before : Instant → Instant → Bool
before a b = ltb_ℤ a.micros b.micros

abbrev pub not_after : Instant → Instant → Bool
not_after a b = leb_ℤ a.micros b.micros

abbrev pub is_positive : Duration → Bool
is_positive d = ltb_ℤ (pos 0) d
