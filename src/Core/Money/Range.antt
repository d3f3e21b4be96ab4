-- ===== src/Core/Money/Range.antt =====
-- money.cpp: the overflow tests against the mathematical sum and product.
use pdr.Base.{
  ℕ, zero, suc, ◌*◌, ◌/◌, ◌<◌, ◌≡◌, ◌↔◌, Bool, true, ◌&&◌, not, ℤ, pos, negsuc, ◌+ℤ◌, ◌-ℤ◌, ◌*ℤ◌,
  +ℤ_parts, -ℤ_parts, leb_ℤ, arith,
}
use pdr.Core.Money.{k_max, k_min, add_overflows, mul_overflows}

-- A value that `std::int64_t` holds.
abbrev pub in_int64 : ℤ → Bool
in_int64 a = leb_ℤ k_min a && leb_ℤ a k_max

abbrev pub IsInt64 : ℤ → Type 0
IsInt64 a = in_int64 a ≡ true

pub add_overflows_lem :
    (a b : ℤ) → IsInt64 a → IsInt64 b → add_overflows a b ≡ not (in_int64 (a +ℤ b))
unfolding add_overflows
add_overflows_lem a b ha hb = ground (arith, +ℤ_parts a b, -ℤ_parts k_max b, -ℤ_parts k_min b)

-- `m / b < a` says that the product passes `m`.
div-lt_iff : (a b m : ℕ) → 0 < b → (m / b < a) ↔ (m < a * b)
div-lt_iff a b m h = (λ p. grind arith, λ p. grind arith)

pub mul_overflows_lem :
    (a b : ℤ) → IsInt64 a → IsInt64 b → mul_overflows a b ≡ not (in_int64 (a *ℤ b))
unfolding mul_overflows ◌*ℤ◌ ◌-ℤ◌
mul_overflows_lem (pos a) (pos b) ha hb = ground (arith, div-lt_iff a b 9223372036854775807)
mul_overflows_lem (pos zero) (negsuc b) ha hb = ground arith
mul_overflows_lem (pos (suc a)) (negsuc zero) ha hb = ground arith
mul_overflows_lem (pos (suc a)) (negsuc (suc b)) ha hb =
    ground (arith, div-lt_iff (suc (suc b)) (suc a) 9223372036854775808)
mul_overflows_lem (negsuc a) (pos zero) ha hb = ground arith
mul_overflows_lem (negsuc zero) (pos (suc b)) ha hb = ground arith
mul_overflows_lem (negsuc (suc a)) (pos (suc b)) ha hb =
    ground (arith, div-lt_iff (suc (suc a)) (suc b) 9223372036854775808)
mul_overflows_lem (negsuc zero) (negsuc b) ha hb = ground arith
mul_overflows_lem (negsuc (suc a)) (negsuc zero) ha hb = ground arith
mul_overflows_lem (negsuc (suc a)) (negsuc (suc b)) ha hb =
    ground (arith, div-lt_iff (suc (suc a)) (suc (suc b)) 9223372036854775807)
