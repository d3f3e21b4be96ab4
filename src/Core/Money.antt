-- ===== src/Core/Money.antt =====
-- libs/pdr-core/src/core/money.hpp and money.cpp: an amount in minor units of one currency.
-- `std::int64_t` is an integer of `Base.Int` with its range stated by `IsInt64`.
pub mod Range
pub mod Exact
use pdr.Base.{
  ℕ, ◌+◌, ◌/◌, ◌≡◌, Bool, true, false, ◌&&◌, ◌||◌, not, List, [], ◌∷◌, Option, none, some, ℤ, pos,
  negsuc, pos_part, neg_part, ◌+ℤ◌, ◌-ℤ◌, ◌*ℤ◌, ◌≤ℤ◌, ltb_ℤ, eqb_ℤ, leb, ◌==◌, if◌then◌else◌,
}

-- `std::numeric_limits<std::int64_t>::max()` and `min()`.
abbrev pub k_max : ℤ
k_max = pos 9223372036854775807

abbrev pub k_min : ℤ
k_min = negsuc 9223372036854775807

-- `/` of C++: the quotient is rounded towards zero.
abbrev pub div_ℤ : ℤ → ℤ → ℤ
div_ℤ (pos a) (pos b) = pos (a / b)
div_ℤ (pos a) (negsuc b) = pos 0 -ℤ pos (a / (b + 1))
div_ℤ (negsuc a) (pos b) = pos 0 -ℤ pos ((a + 1) / b)
div_ℤ (negsuc a) (negsuc b) = pos ((a + 1) / (b + 1))

pub add_overflows : ℤ → ℤ → Bool
add_overflows left right =
    if ltb_ℤ (pos 0) right && ltb_ℤ (k_max -ℤ right) left
    then true
    else if ltb_ℤ right (pos 0) && ltb_ℤ left (k_min -ℤ right)
    then true
    else false

pub mul_overflows : ℤ → ℤ → Bool
mul_overflows left right =
    if eqb_ℤ left (pos 0) || eqb_ℤ right (pos 0)
    then false
    else if eqb_ℤ left (negsuc 0)
    then eqb_ℤ right k_min
    else if eqb_ℤ right (negsuc 0)
    then eqb_ℤ left k_min
    else if ltb_ℤ (pos 0) left
    then (if ltb_ℤ (pos 0) right
        then ltb_ℤ (div_ℤ k_max right) left
        else ltb_ℤ right (div_ℤ k_min left))
    else (if ltb_ℤ (pos 0) right
        then ltb_ℤ left (div_ℤ k_min right)
        else ltb_ℤ left (div_ℤ k_max right))

is_upper_latin : ℕ → Bool
is_upper_latin symbol = leb b'A' symbol && leb symbol b'Z'

-- Three letters, each the number of its `char`.
pub record CurrencyCode : Type 0 where
  pub first : ℕ
  pub second : ℕ
  pub third : ℕ

pub parse : List ℕ → Option CurrencyCode
unfolding is_upper_latin
parse (a ∷ b ∷ c ∷ []) =
    if is_upper_latin a && is_upper_latin b && is_upper_latin c
    then some (record { first = a; second = b; third = c })
    else none
parse text = none

abbrev pub same_currency : CurrencyCode → CurrencyCode → Bool
same_currency a b = (a.first == b.first) && (a.second == b.second) && (a.third == b.third)

pub record Money : Type 0 where
  pub minor_units : ℤ
  pub currency : CurrencyCode

pub plus : Money → Money → Option Money
plus a b =
    if not (same_currency a.currency b.currency)
    then none
    else if add_overflows a.minor_units b.minor_units
    then none
    else some (record { minor_units = a.minor_units +ℤ b.minor_units; currency = a.currency })

pub minus : Money → Money → Option Money
minus a b =
    if not (same_currency a.currency b.currency)
    then none
    else if eqb_ℤ b.minor_units k_min
    then none
    else if add_overflows a.minor_units (pos 0 -ℤ b.minor_units)
    then none
    else some (record { minor_units = a.minor_units -ℤ b.minor_units; currency = a.currency })

pub times : Money → ℤ → Option Money
times a factor =
    if mul_overflows a.minor_units factor
    then none
    else some (record { minor_units = a.minor_units *ℤ factor; currency = a.currency })
