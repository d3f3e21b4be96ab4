-- ===== src/Core/Money/Exact.antt =====
-- money.cpp: what `plus`, `minus` and `times` promise of amounts that `std::int64_t` holds.
use pdr.Base.{
  ◌≡◌, false, ◌&&◌, not, none, some, ℤ, pos, ◌+ℤ◌, ◌-ℤ◌, ◌*ℤ◌, eqb_ℤ, +ℤ_parts, -ℤ_parts,
  eq_of_parts, if◌then◌else◌, arith,
}
use pdr.Core.Money.{Money, k_min, plus, minus, times, same_currency, add_overflows}
use pdr.Core.Money.Range.{in_int64, IsInt64, add_overflows_lem, mul_overflows_lem}

-- The sum of two amounts that fit is given exactly when the currencies agree and the sum fits, and
-- is then the exact sum in that currency.
pub plus_exact :
    (a b : Money)
    → IsInt64 a.minor_units
    → IsInt64 b.minor_units
    → plus a b ≡ (
        if same_currency a.currency b.currency && in_int64 (a.minor_units +ℤ b.minor_units)
        then some (record { minor_units = a.minor_units +ℤ b.minor_units; currency = a.currency })
        else none)
unfolding plus
plus_exact a b ha hb = ground (arith, add_overflows_lem a.minor_units b.minor_units ha hb)

negated_fits : (b : ℤ) → IsInt64 b → eqb_ℤ b k_min ≡ false → IsInt64 (pos 0 -ℤ b)
negated_fits b hb h = ground (arith, -ℤ_parts (pos 0) b)

add-negated : (a b : ℤ) → a +ℤ (pos 0 -ℤ b) ≡ a -ℤ b
add-negated a b =
    eq_of_parts _ _ (omega (arith, +ℤ_parts a (pos 0 -ℤ b), -ℤ_parts (pos 0) b, -ℤ_parts a b))

sub_overflows_lem :
    (a b : ℤ)
    → IsInt64 a
    → IsInt64 b
    → eqb_ℤ b k_min ≡ false
    → add_overflows a (pos 0 -ℤ b) ≡ not (in_int64 (a -ℤ b))
sub_overflows_lem a b ha hb h =
    rw (add_overflows_lem a (pos 0 -ℤ b) ha (negated_fits b hb h), add-negated a b)

-- The difference of two amounts that fit is given exactly when the currencies agree, the amount
-- taken away is not the least integer and the difference fits, and is then the exact difference.
pub minus_exact :
    (a b : Money)
    → IsInt64 a.minor_units
    → IsInt64 b.minor_units
    → minus a b ≡ (
        if same_currency a.currency b.currency
          && (not (eqb_ℤ b.minor_units k_min) && in_int64 (a.minor_units -ℤ b.minor_units))
        then some (record { minor_units = a.minor_units -ℤ b.minor_units; currency = a.currency })
        else none)
unfolding minus
minus_exact a b ha hb = ground (arith, sub_overflows_lem a.minor_units b.minor_units ha hb)

-- The product of an amount and a factor that fit is given exactly when it fits, and is then the
-- exact product in the same currency.
pub times_exact :
    (a : Money) (factor : ℤ)
    → IsInt64 a.minor_units
    → IsInt64 factor
    → times a factor ≡ (
        if in_int64 (a.minor_units *ℤ factor)
        then some (record { minor_units = a.minor_units *ℤ factor; currency = a.currency })
        else none)
unfolding times
times_exact a factor ha hf = ground (arith, mul_overflows_lem a.minor_units factor ha hf)

sub-add_cancel : (a b c : ℤ) → c ≡ a +ℤ b → c -ℤ b ≡ a
sub-add_cancel a b c e = eq_of_parts _ _ (ground (arith, +ℤ_parts a b, -ℤ_parts c b))

-- An amount that was added can be taken away again, unless it is the least integer.
pub minus-plus :
    (a b c : Money)
    → IsInt64 a.minor_units
    → IsInt64 b.minor_units
    → eqb_ℤ b.minor_units k_min ≡ false
    → plus a b ≡ some c
    → minus c b ≡ some a
minus-plus a b c ha hb h e = ground (
  arith,
  plus_exact a b ha hb,
  minus_exact c b,
  sub-add_cancel a.minor_units b.minor_units c.minor_units,
)
