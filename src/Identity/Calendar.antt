-- ===== src/Identity/Calendar.antt =====
-- What identity/core/age_status.cpp and birth_date.cpp use of `std::chrono`: the Gregorian calendar
-- as a count of days. A year is an integer without bounds, where `std::chrono::year` has 16 bits, so that
-- the two agree up to the end of the year 32767. A span of 400 years has
-- 146097 days, by which the years before the year 0 are carried over to the natural numbers.
pub mod Order
use pdr.Base.{
  ℕ, suc, ◌+◌, ◌-◌, ◌*◌, ◌/◌, ◌%◌, Bool, true, false, not, ◌&&◌, ◌||◌, ℤ, pos, negsuc, pos_part,
  neg_part, ◌+ℤ◌, ◌-ℤ◌, ltb, leb, leb_ℤ, ◌==◌, if◌then◌else◌,
}

-- `std::chrono::year_month_day`.
pub record CivilDay : Type 0 where
  pub year : ℤ
  pub month : ℕ
  pub day : ℕ

-- How many spans of 400 years lift a year to the year 0 or later, and the year so lifted.
abbrev pub eras : ℤ → ℕ
eras year = (neg_part year + 399) / 400

abbrev pub lifted : ℤ → ℕ
lifted year = pos_part year + 400 * eras year - neg_part year

-- `year::is_leap`, as a number of days.
abbrev pub leap : ℕ → ℕ
leap y = if y % 4 == 0 && (not (y % 100 == 0) || y % 400 == 0) then 1 else 0

abbrev pub days_before_year : ℕ → ℕ
days_before_year y = 365 * y + (y + 3) / 4 + (y + 399) / 400 - (y + 99) / 100

abbrev pub days_before_month : ℕ → ℕ → ℕ
days_before_month l m = if leb m 2 then 31 * (m - 1) else (153 * (m - 3) + 2) / 5 + 59 + l

abbrev pub last_day : ℕ → ℕ → ℕ
last_day l m = if m == 2 then 28 + l else 30 + (m + m / 8) % 2

-- The number of 1970-01-01, counted from 0000-01-01.
abbrev pub epoch : ℕ
epoch = 719528

-- `year_month_day::ok`.
unfoldable pub is_date : ℤ → ℕ → ℕ → Bool
is_date year month day =
    leb_ℤ (negsuc 32766) year
    && (leb_ℤ year (pos 32767)
        && (leb 1 month
            && (leb month 12 && (leb 1 day && leb day (last_day (leap (lifted year)) month)))))

-- `std::chrono::sys_days` of a date: days since the epoch.
unfoldable pub sys_days : ℤ → ℕ → ℕ → ℤ
sys_days year month day =
    pos (days_before_year (lifted year) + days_before_month (leap (lifted year)) month + day)
    -ℤ pos (epoch + 146097 * eras year + 1)

-- The year that a day falls in, counted from 0000-01-01.
unfoldable pub year_at : ℕ → ℕ
year_at n =
    let guess = n * 400 / 146097 in
    if leb (days_before_year (guess + 1)) n
    then guess + 1
    else if leb (days_before_year guess) n
    then guess
    else guess - 1

unfoldable pub month_at : ℕ → ℕ → ℕ
month_at l doy =
    if ltb doy 31 then 1 else if ltb doy (59 + l) then 2 else (5 * (doy - (59 + l)) + 2) / 153 + 3

-- `year_month_day` of a number of days since the epoch.
unfoldable pub civil_day : ℤ → CivilDay
civil_day days =
    let k = neg_part days / 146097 in
    let n = epoch + pos_part days + 146097 * k - neg_part days in
    let y = year_at n in
    let doy = n - days_before_year y in
    let m = month_at (leap y) doy in
    record {
      year = pos y -ℤ pos (400 * k);
      month = m;
      day = doy - days_before_month (leap y) m + 1;
    }

abbrev pub micros_per_day : ℕ
micros_per_day = 86400000000

-- `floor<days>` of a moment in microseconds.
abbrev pub floor_days : ℤ → ℤ
floor_days (pos micros) = pos (micros / micros_per_day)
floor_days (negsuc micros) = negsuc (micros / micros_per_day)

-- `month_day` order.
abbrev pub month_day_before : ℕ → ℕ → ℕ → ℕ → Bool
month_day_before m d m' d' = ltb m m' || (m == m' && ltb d d')
