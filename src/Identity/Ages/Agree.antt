-- ===== src/Identity/Ages/Agree.antt =====
-- age_status.cpp has two answers to "is the student that old": the count of whole years, and the
-- moment at which an age is reached. Here they are the same answer.
use pdr.Base.{
  ℕ, ◌+◌, ◌≤◌, ◌≡◌, ◌∙◌, sym, ap, true, not, ◌&&◌, ◌||◌, ℤ, pos, negsuc, ◌+ℤ◌, +ℤ_parts,
  eq_of_parts, ◌⊎◌, inl, inr, leb, leb_ℤ, ltb_ℤ, if◌then◌else◌, arith,
}
use pdr.Core.Errors.{ok}
use pdr.Core.Time.{Instant, not_after}
use pdr.Identity.Calendar.{
  leap, lifted, last_day, is_date, sys_days, civil_day, floor_days, month_day_before,
}
use pdr.Identity.Calendar.Order.{leap-le}
use pdr.Identity.Ages.{BirthDate, birth_date, turns_at, age_at}
use pdr.Identity.Ages.Birthdays.{
  midnight_le, civil_day_le, civil_day_valid, has_reached, counted, march,
}

-- The date of birth is one that `BirthDate::Of` makes.
abbrev pub IsBirthDate : BirthDate → Type 0
IsBirthDate born = birth_date born.year born.month born.day ≡ ok born

lifted_pos : (y : ℕ) → lifted (pos y) ≡ y
lifted_pos y = omega arith

abbrev FitsYear : ℕ → ℕ → ℕ → Type 0
FitsYear y m d = (y ≤ 2200) × (1 ≤ m) × (m ≤ 12) × (1 ≤ d) × (d ≤ last_day (leap y) m)

fits : (b m d : ℕ) → IsBirthDate (record { year = pos b; month = m; day = d }) → FitsYear b m d
unfolding birth_date is_date
fits b m d h = ground (arith, ap leap (lifted_pos b))

le→leb : (a b : ℕ) → a ≤ b → leb a b ≡ true
le→leb a b h = ground arith

is_date_lem :
    (y m d : ℕ)
    → y ≤ 32767
    → 1 ≤ m
    → m ≤ 12
    → 1 ≤ d
    → is_date (pos y) m d ≡ leb d (last_day (leap y) m)
unfolding is_date
is_date_lem y m d small h1 h12 hd = rw (lifted_pos y) (ground arith)

civil_day_pos : (days : ℤ) → 1 ≤ (civil_day days).day
unfolding civil_day
civil_day_pos days = omega arith

leap_day :
    (y : ℕ) (days : ℤ)
    → leap y ≡ 0
    → let today = civil_day days in
      not (
        ltb_ℤ today.year (pos y)
        || (leb_ℤ today.year (pos y) && month_day_before today.month today.day 2 29))
      ≡ leb_ℤ (sys_days (pos y) 3 1) days
leap_day y days common = ground (
  arith,
  civil_day_le y 3 1 days (omega arith) (omega arith) (omega arith) (omega arith),
  civil_day_valid y days common,
  civil_day_pos days,
  eq_of_parts (civil_day days).year (pos y),
)

-- The day that stands for a birthday in a year, against the day of a moment.
celebrated :
    (y m d : ℕ) (days : ℤ)
    → y ≤ 32767
    → 1 ≤ m
    → m ≤ 12
    → 1 ≤ d
    → (d ≤ last_day (leap y) m) ⊎ ((m ≡ 2) × (d ≡ 29) × (leap y ≡ 0))
    → let today = civil_day days in
      not (
        ltb_ℤ today.year (pos y)
        || (leb_ℤ today.year (pos y) && month_day_before today.month today.day m d))
      ≡ leb_ℤ
          (if is_date (pos y) m d
            then sys_days (pos y) m d
            else sys_days (pos y) m (last_day (leap (lifted (pos y))) m) +ℤ pos 1)
          days
celebrated y m d days small h1 h12 hd (inl p) =
    rw (is_date_lem y m d small h1 h12 hd, le→leb d (last_day (leap y) m) p)
      (sym (civil_day_le y m d days h1 h12 hd p))
celebrated y m d days small h1 h12 hd (inr (feb, late, common)) =
    rw (is_date_lem y m d small h1 h12 hd, feb, late, lifted_pos y, common, march y common)
      (leap_day y days common)

birthday_kind :
    (b m d years : ℕ)
    → FitsYear b m d
    → (d ≤ last_day (leap (b + years)) m) ⊎ ((m ≡ 2) × (d ≡ 29) × (leap (b + years) ≡ 0))
birthday_kind b m d years h = ground (arith, leap-le b, leap-le (b + years))

add-pos : (a b : ℕ) → pos a +ℤ pos b ≡ pos (a + b)
add-pos a b = eq_of_parts _ _ (omega (arith, +ℤ_parts (pos a) (pos b)))

agree_at :
    (b m d years : ℕ) (moment : Instant)
    → IsBirthDate (record { year = pos b; month = m; day = d })
    → years ≤ 30000
    → has_reached (age_at (record { year = pos b; month = m; day = d }) moment) (pos years)
      ≡ not_after (turns_at (record { year = pos b; month = m; day = d }) (pos years)) moment
unfolding turns_at
agree_at b m d years moment valid small =
    let fit = fits b m d valid in
    counted b m d years moment
    ∙ celebrated (b + years) m d (floor_days moment.micros) (omega arith) (omega arith)
        (omega arith) (omega arith) (birthday_kind b m d years fit)
    ∙ rw (add-pos b years) (sym (midnight_le _ moment.micros))

agree_in_year :
    (year : ℤ) (m d years : ℕ) (moment : Instant)
    → IsBirthDate (record { year = year; month = m; day = d })
    → years ≤ 30000
    → has_reached (age_at (record { year = year; month = m; day = d }) moment) (pos years)
      ≡ not_after (turns_at (record { year = year; month = m; day = d }) (pos years)) moment
unfolding birth_date
agree_in_year (pos b) m d years moment valid small = agree_at b m d years moment valid small
agree_in_year (negsuc b) m d years moment valid small = absurd (ground arith)

-- For a date of birth that `BirthDate::Of` makes and an age of up to 30000 years, the count of whole
-- years at a moment has reached the age exactly when the moment is not before the one at which
-- `TurnsAt` says that the age is reached; before the birth the count is an error, which reaches none.
pub age_at-turns_at :
    (born : BirthDate) (years : ℕ) (moment : Instant)
    → IsBirthDate born
    → years ≤ 30000
    → has_reached (age_at born moment) (pos years) ≡ not_after (turns_at born (pos years)) moment
age_at-turns_at born years moment valid small =
    agree_in_year born.year born.month born.day years moment valid small
