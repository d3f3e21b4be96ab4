-- ===== src/Identity/Calendar/Order.antt =====
-- The calendar: a day's date is valid and counts back to the day, and dates are in order as their
-- numbers are.
use pdr.Base.{ℕ, ◌+◌, ◌-◌, ◌≤◌, ◌<◌, ◌≡◌, ◌∙◌, Bool, not, ◌&&◌, ◌||◌, ltb, leb, ◌==◌, arith}
use pdr.Identity.Calendar.{
  leap, days_before_year, days_before_month, last_day, year_at, month_at, month_day_before,
}

abbrev pub year_days : ℕ → ℕ
year_days y = 365 + leap y

days_before_year_suc : (y : ℕ) → days_before_year (y + 1) ≡ days_before_year y + year_days y
days_before_year_suc y = ground arith

days_before_year_mono : (y z : ℕ) → y < z → days_before_year y + year_days y ≤ days_before_year z
days_before_year_mono y z h = ground arith

year_at_lem :
    (n : ℕ)
    → (days_before_year (year_at n) ≤ n)
      × (n < days_before_year (year_at n) + year_days (year_at n))
unfolding year_at
year_at_lem n = ground arith

-- The month and the day of the month of a day of the year.
month_at_lem :
    (l doy : ℕ)
    → l ≤ 1
    → doy < 365 + l
    → let m = month_at l doy in
      (1 ≤ m)
      × (m ≤ 12)
      × (days_before_month l m ≤ doy)
      × (doy < days_before_month l m + last_day l m)
unfolding month_at
month_at_lem l doy hl h = ground arith

-- Within a year the number of a valid date grows with month and day.
days_before_month_mono :
    (l m m' : ℕ)
    → l ≤ 1
    → 1 ≤ m
    → m < m'
    → m' ≤ 12
    → days_before_month l m + last_day l m ≤ days_before_month l m'
days_before_month_mono l m m' hl h1 h h12 = ground arith

day_of_year_le :
    (l m d : ℕ) → l ≤ 1 → 1 ≤ m → m ≤ 12 → d ≤ last_day l m → days_before_month l m + d ≤ 365 + l
day_of_year_le l m d hl h1 h12 hd = ground arith

-- The day of the month of a day of the year.
abbrev pub day_at : ℕ → ℕ → ℕ
day_at l doy = doy - days_before_month l (month_at l doy) + 1

-- Two days of one year are in order as their months and days are.
day_of_year_le_iff :
    (l doy m d : ℕ)
    → l ≤ 1
    → doy < 365 + l
    → 1 ≤ m
    → m ≤ 12
    → 1 ≤ d
    → d ≤ last_day l m
    → leb (days_before_month l m + d) (doy + 1)
      ≡ not (month_day_before (month_at l doy) (day_at l doy) m d)
day_of_year_le_iff l doy m d hl h h1 h12 hd hlast = ground (
  arith,
  month_at_lem l doy,
  days_before_month_mono l m (month_at l doy),
  days_before_month_mono l (month_at l doy) m,
)

pub leap-le : (y : ℕ) → leap y ≤ 1
leap-le y = ground arith

-- A year's days are `ys` from `a` on, another's `zs` from `b` on; `x` is a day of the second.
order_by_year :
    (n y z a ys b zs x : ℕ) (t : Bool)
    → a ≤ n
    → n < a + ys
    → (y < z → a + ys ≤ b)
    → (z < y → b + zs ≤ a)
    → 1 ≤ x
    → x ≤ zs
    → (y ≡ z → leb (b + x) (n + 1) ≡ not t)
    → leb (b + x) (n + 1) ≡ not (ltb y z || (y == z && t))
order_by_year n y z a ys b zs x t h1 h2 lt gt hx1 hx eq = ground arith

leb_shift : (n a x : ℕ) → a ≤ n → leb (a + x) (n + 1) ≡ leb x (n - a + 1)
leb_shift n a x h = ground arith

same_year :
    (n y z m d : ℕ)
    → days_before_year y ≤ n
    → n < days_before_year y + year_days y
    → 1 ≤ m
    → m ≤ 12
    → 1 ≤ d
    → d ≤ last_day (leap z) m
    → y ≡ z
    → let doy = n - days_before_year y in
      leb (days_before_year z + (days_before_month (leap z) m + d)) (n + 1)
      ≡ not (month_day_before (month_at (leap y) doy) (day_at (leap y) doy) m d)
same_year n y z m d h1 h2 hm1 hm hd1 hd e = rw (← e) (
    leb_shift n (days_before_year y) (days_before_month (leap y) m + d) h1
    ∙ day_of_year_le_iff (leap y) (n - days_before_year y) m d (leap-le y) (omega arith) hm1 hm hd1
        (rw (← e) at hd))

-- A date is at most a day exactly when the day's own date is not before it.
pub date_le_iff :
    (n z m d : ℕ)
    → 1 ≤ m
    → m ≤ 12
    → 1 ≤ d
    → d ≤ last_day (leap z) m
    → let y = year_at n in
      let doy = n - days_before_year y in
      leb (days_before_year z + (days_before_month (leap z) m + d)) (n + 1)
      ≡ not (
          ltb y z || (y == z && month_day_before (month_at (leap y) doy) (day_at (leap y) doy) m d))
date_le_iff n z m d h1 h12 hd hlast =
    order_by_year n (year_at n) z (days_before_year (year_at n)) (year_days (year_at n))
      (days_before_year z) (year_days z) (days_before_month (leap z) m + d) _ (year_at_lem n).0
      (year_at_lem n).1 (days_before_year_mono (year_at n) z) (days_before_year_mono z (year_at n))
      (omega arith) (day_of_year_le (leap z) m d (leap-le z) h1 h12 hlast)
      (same_year n (year_at n) z m d (year_at_lem n).0 (year_at_lem n).1 h1 h12 hd hlast)

-- The day of the month that a day of the year has is one that its month has.
pub day_at_le : (l doy : ℕ) → l ≤ 1 → doy < 365 + l → day_at l doy ≤ last_day l (month_at l doy)
day_at_le l doy hl h = ground (arith, month_at_lem l doy)

pub year_at_day : (n : ℕ) → n - days_before_year (year_at n) < year_days (year_at n)
year_at_day n = omega (arith, year_at_lem n)
