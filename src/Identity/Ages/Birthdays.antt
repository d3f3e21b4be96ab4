-- ===== src/Identity/Ages/Birthdays.antt =====
-- age_status.cpp: the years that a birthday completes, day by day of the calendar.
use pdr.Base.{
  ℕ, ◌+◌, ◌-◌, ◌*◌, ◌/◌, ◌≤◌, ◌<◌, ◌≡◌, ◌∙◌, Bool, false, not, ◌&&◌, ◌||◌, ℤ, pos, negsuc, pos_part,
  neg_part, ◌+ℤ◌, ◌-ℤ◌, ◌*ℤ◌, ◌≤ℤ◌, +ℤ_parts, -ℤ_parts, eq_of_parts, ltb, leb, leb_ℤ, ltb_ℤ, ◌==◌,
  if◌then◌else◌, arith,
}
use pdr.Core.Errors.{Result, ok, err, refuse, validation}
use pdr.Core.Time.{Instant}
use pdr.Identity.Calendar.{
  CivilDay, leap, lifted, eras, days_before_year, days_before_month, last_day, epoch, sys_days,
  year_at, month_at, civil_day, micros_per_day, floor_days, month_day_before,
}
use pdr.Identity.Calendar.Order.{date_le_iff, day_at_le, year_at_day, leap-le}
use pdr.Identity.Ages.{BirthDate, whole_years, age_at, AgeStatus, reached}

-- A midnight is at most a moment exactly when its day is at most the moment's.
pub midnight_le : (t m : ℤ) → leb_ℤ (t *ℤ pos micros_per_day) m ≡ leb_ℤ t (floor_days m)
unfolding ◌*ℤ◌
midnight_le (pos t) (pos m) = ground arith
midnight_le (pos t) (negsuc m) = ground arith
midnight_le (negsuc t) (pos m) = ground arith
midnight_le (negsuc t) (negsuc m) = ground arith

days_of_eras : (y k : ℕ) → days_before_year (y + 400 * k) ≡ days_before_year y + 146097 * k
days_of_eras y k = ground arith

leap_of_eras : (y k : ℕ) → leap (y + 400 * k) ≡ leap y
leap_of_eras y k = ground arith

-- The spans of 400 years that a day is lifted by, and its number from the year 0 on once lifted.
abbrev spans : ℤ → ℕ
spans days = neg_part days / 146097

abbrev raised : ℤ → ℕ
raised days = epoch + pos_part days + 146097 * spans days - neg_part days

sys_days_le :
    (y m d : ℕ) (days : ℤ)
    → let z = y + 400 * spans days in
      leb_ℤ (sys_days (pos y) m d) days
      ≡ leb (days_before_year z + (days_before_month (leap z) m + d)) (raised days + 1)
unfolding sys_days
sys_days_le y m d days =
    rw (days_of_eras y (spans days), leap_of_eras y (spans days))
      (ground (
        arith,
        -ℤ_parts
            (pos
              (days_before_year (lifted (pos y)) + days_before_month (leap (lifted (pos y))) m + d))
            (pos (epoch + 146097 * eras (pos y) + 1)),
      ))

lower_year :
    (c y k : ℕ) (t : Bool)
    → not (ltb c (y + 400 * k) || (c == y + 400 * k && t))
      ≡ not
          (ltb_ℤ (pos c -ℤ pos (400 * k)) (pos y) || (leb_ℤ (pos c -ℤ pos (400 * k)) (pos y) && t))
lower_year c y k t = ground (arith, -ℤ_parts (pos c) (pos (400 * k)))

-- A date is at most a day exactly when the day's own date is not before it.
pub civil_day_le :
    (y m d : ℕ) (days : ℤ)
    → 1 ≤ m
    → m ≤ 12
    → 1 ≤ d
    → d ≤ last_day (leap y) m
    → let today = civil_day days in
      leb_ℤ (sys_days (pos y) m d) days
      ≡ not (
          ltb_ℤ today.year (pos y)
          || (leb_ℤ today.year (pos y) && month_day_before today.month today.day m d))
unfolding civil_day
civil_day_le y m d days h1 h12 hd hlast =
    sys_days_le y m d days
    ∙ date_le_iff (raised days) (y + 400 * spans days) m d h1 h12 hd
        (rw (leap_of_eras y (spans days)) hlast)
    ∙ lower_year (year_at (raised days)) y (spans days) _

lifted_year : (c y n : ℕ) → pos c -ℤ pos n ≡ pos y → c ≡ y + n
lifted_year c y n h = ground (arith, -ℤ_parts (pos c) (pos n))

february_le :
    (l doy : ℕ)
    → doy < 365 + l
    → l ≡ 0
    → month_at l doy ≡ 2
    → doy - days_before_month l (month_at l doy) + 1 ≤ 28
february_le l doy h common feb = ground (arith, day_at_le l doy)

february :
    (c y k doy : ℕ)
    → doy < 365 + leap c
    → leap y ≡ 0
    → pos c -ℤ pos (400 * k) ≡ pos y
    → month_at (leap c) doy ≡ 2
    → doy - days_before_month (leap c) (month_at (leap c) doy) + 1 ≤ 28
february c y k doy h no_leap here feb =
    let common : leap c ≡ 0 = rw (lifted_year c y (400 * k) here, leap_of_eras y k) no_leap in
    february_le (leap c) doy h common feb

-- A day in a year without a 29th of February has another date.
pub civil_day_valid :
    (y : ℕ) (days : ℤ)
    → leap y ≡ 0
    → (civil_day days).year ≡ pos y
    → (civil_day days).month ≡ 2
    → (civil_day days).day ≤ 28
unfolding civil_day
civil_day_valid y days no_leap here feb =
    february (year_at (raised days)) y (spans days) _
      (omega (arith, year_at_day (raised days), leap-le (year_at (raised days)))) no_leap here feb

-- The count of the years reaches a number exactly when the date is not before the birthday.
abbrev pub has_reached : Result AgeStatus → ℤ → Bool
has_reached (ok age) years = reached age years
has_reached (err e) years = false

whole_years_lem :
    (b m d years : ℕ) (today : CivilDay)
    → leb_ℤ (pos years) (whole_years (record { year = pos b; month = m; day = d }) today)
      ≡ not (
          ltb_ℤ today.year (pos (b + years))
          || (leb_ℤ today.year (pos (b + years)) && month_day_before today.month today.day m d))
unfolding whole_years
whole_years_lem b m d years today =
    ground (arith, -ℤ_parts today.year (pos b), -ℤ_parts (today.year -ℤ pos b) (pos 1))

-- An age below zero is an error, which reaches nothing.
reached_of_years :
    (wanted years : ℤ) (born : BirthDate) (moment : Instant)
    → pos 0 ≤ℤ wanted
    → has_reached
        (if ltb_ℤ years (pos 0)
          then refuse validation "age_before_birth" "дата рождения позже сегодняшнего дня"
          else ok (record { born_on = born; moment = moment; years = years }))
        wanted
      ≡ leb_ℤ wanted years
unfolding reached
reached_of_years wanted years born moment h = ground arith

pub counted :
    (b m d years : ℕ) (moment : Instant)
    → let today = civil_day (floor_days moment.micros) in
      has_reached (age_at (record { year = pos b; month = m; day = d }) moment) (pos years)
      ≡ not (
          ltb_ℤ today.year (pos (b + years))
          || (leb_ℤ today.year (pos (b + years)) && month_day_before today.month today.day m d))
unfolding age_at reached
counted b m d years moment =
    reached_of_years (pos years) _ _ moment (omega arith)
    ∙ whole_years_lem b m d years (civil_day (floor_days moment.micros))

-- The 29th of February in a year without one stands for the first of March.
pub march : (y : ℕ) → leap y ≡ 0 → sys_days (pos y) 2 28 +ℤ pos 1 ≡ sys_days (pos y) 3 1
unfolding sys_days
march y h = eq_of_parts _ _ (
    ground (
      arith,
      +ℤ_parts (sys_days (pos y) 2 28) (pos 1),
      -ℤ_parts (pos (days_before_year (lifted (pos y)) + 59)) (pos (epoch + 1)),
      -ℤ_parts (pos (days_before_year (lifted (pos y)) + 60)) (pos (epoch + 1)),
    ))
