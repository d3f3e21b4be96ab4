-- ===== src/Identity/Ages.antt =====
-- identity/core/birth_date.hpp and .cpp, age_status.hpp and .cpp: a date of birth, the age at a
-- moment, and the moment at which an age is reached.
pub mod Birthdays
pub mod Agree
use pdr.Base.{
  ℕ, ◌+◌, Bool, true, false, not, ◌||◌, ℤ, pos, negsuc, ◌+ℤ◌, ◌-ℤ◌, ◌*ℤ◌, ltb_ℤ, leb_ℤ,
  if◌then◌else◌,
}
use pdr.Core.Errors.{Result, ok, err, refuse, validation}
use pdr.Core.Time.{Instant}
use pdr.Identity.Calendar.{
  CivilDay, leap, lifted, last_day, is_date, sys_days, civil_day, micros_per_day, floor_days,
  month_day_before,
}

abbrev pub earliest_year : ℤ
earliest_year = pos 1900

abbrev pub latest_year : ℤ
latest_year = pos 2200

-- A value is made by `birth_date` alone.
pub record BirthDate : Type 0 where
  pub year : ℤ
  pub month : ℕ
  pub day : ℕ

-- `BirthDate::Of`.
unfoldable pub birth_date : ℤ → ℕ → ℕ → Result BirthDate
birth_date year month day =
    if not (is_date year month day)
    then refuse validation "birth_date_invalid" "такой даты не бывает в календаре"
    else if ltb_ℤ year earliest_year || ltb_ℤ latest_year year
    then refuse validation "birth_date_invalid" "год рождения похож на опечатку"
    else ok (record { year = year; month = month; day = day })

-- The day on which the age is reached, since the epoch. A birthday that the year lacks is the day
-- after the last of its month.
unfoldable pub birthday : BirthDate → ℤ → ℤ
birthday born years =
    let year = born.year +ℤ years in
    if is_date year born.month born.day
    then sys_days year born.month born.day
    else sys_days year born.month (last_day (leap (lifted year)) born.month) +ℤ pos 1

-- `AgeStatus::TurnsAt`.
unfoldable pub turns_at : BirthDate → ℤ → Instant
unfolding birthday
turns_at born years = record { micros = birthday born years *ℤ pos micros_per_day }

pub record AgeStatus : Type 0 where
  pub born_on : BirthDate
  pub moment : Instant
  pub years : ℤ

-- The difference of the years, less one before the birthday.
unfoldable pub whole_years : BirthDate → CivilDay → ℤ
whole_years born today =
    let years = today.year -ℤ born.year in
    if month_day_before today.month today.day born.month born.day then years -ℤ pos 1 else years

-- `AgeStatus::At`.
unfoldable pub age_at : BirthDate → Instant → Result AgeStatus
unfolding whole_years
age_at born moment =
    let years = whole_years born (civil_day (floor_days moment.micros)) in
    if ltb_ℤ years (pos 0)
    then refuse validation "age_before_birth" "дата рождения позже сегодняшнего дня"
    else ok (record { born_on = born; moment = moment; years = years })

-- `AgeStatus::Reached`.
unfoldable pub reached : AgeStatus → ℤ → Bool
reached age threshold_years = leb_ℤ threshold_years age.years
