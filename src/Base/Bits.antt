-- ===== src/Base/Bits.antt =====
-- Sets of small numbers kept in the bits of a `std::uint8_t`: `With`, `Without` and `Has` of the
-- source's set classes, and their laws at the first five bits. `negated` is `~` on one byte.
use Prim.Native.Nat.{
  ℕ, zero, suc, ◌+◌, ◌-◌, ◌*◌, ◌/◌, ◌%◌, ◌^◌, ◌≤◌, ◌<◌, min, max, bit_and, bit_or, digits,
  bit_and-bitwise, bit_or-bitwise,
}
use mathlib.Core.Path.{◌≡◌, refl, sym}
use mathlib.Core.Bool.{Bool, true, false, not, ◌&&◌, ◌||◌}
use native.Mathlib.Nat.{pow-succ', mod-eq_of_lt}
use native.Mathlib.Omega.{arith}
use pdr.Base.Tests.{◌==◌}

-- `1U << position`, cast to a byte.
abbrev pub bit : ℕ → ℕ
bit position = 2 ^ position % 256

unfoldable pub with_bit : ℕ → ℕ → ℕ
with_bit bits position = bit_or bits (bit position) % 256

unfoldable pub without_bit : ℕ → ℕ → ℕ
without_bit bits position = bit_and bits (255 - bit position) % 256

unfoldable pub has_bit : ℕ → ℕ → Bool
has_bit bits position = not (bit_and bits (bit position) == 0)

module _ (end : ℕ → ℕ) (join : ℕ → ℕ → ℕ) where
  -- A count of digits that reaches the first number is as good as any other.
  counts_agree :
      (left right count other : ℕ)
      → left ≤ count
      → left ≤ other
      → digits end join count left right ≡ digits end join other left right
  counts_agree zero right zero zero few more = refl
  counts_agree zero right zero (suc other) few more = refl
  counts_agree zero right (suc count) zero few more = refl
  counts_agree zero right (suc count) (suc other) few more = refl
  counts_agree (suc left) right (suc count) (suc other) few more =
      let halves =
        counts_agree (suc left / 2) (right / 2) count other (omega arith) (omega arith) in
      omega (arith, halves)
  counts_agree (suc left) right zero other few more = absurd (omega arith)
  counts_agree (suc left) right (suc count) zero few more = absurd (omega arith)

  -- The lowest digit apart from the others, where a number that has run out joins as zeros do.
  lowest_apart :
      ((right : ℕ) → end right ≡ end (right / 2) * 2 + join 0 (right % 2))
      → (left right : ℕ)
      → digits end join left left right
        ≡ digits end join (left / 2) (left / 2) (right / 2) * 2 + join (left % 2) (right % 2)
  lowest_apart ended zero right = ended right
  lowest_apart ended (suc left) right =
      let half = suc left / 2 in
      omega (arith, counts_agree half (right / 2) left half (omega arith) (omega arith))

bit_or_lowest : (x y : ℕ) → bit_or x y ≡ bit_or (x / 2) (y / 2) * 2 + max (x % 2) (y % 2)
bit_or_lowest x y =
    let apart = lowest_apart (λ right. right) max (λ right. omega arith) x y in
    omega (arith, apart, bit_or-bitwise x y, bit_or-bitwise (x / 2) (y / 2))

bit_and_lowest : (x y : ℕ) → bit_and x y ≡ bit_and (x / 2) (y / 2) * 2 + min (x % 2) (y % 2)
bit_and_lowest x y =
    let apart = lowest_apart (λ right. 0) min (λ right. omega arith) x y in
    omega (arith, apart, bit_and-bitwise x y, bit_and-bitwise (x / 2) (y / 2))

zero-bit_and : (b : ℕ) → bit_and 0 b ≡ 0
zero-bit_and b = bit_and-bitwise 0 b

-- The laws at zero on the right, for a number up to a bound.
zero_on_the_right : (bound a : ℕ) → a ≤ bound → (bit_and a 0 ≡ 0) × (bit_or a 0 ≡ a)
zero_on_the_right bound zero h = (refl, refl)
zero_on_the_right zero (suc a) h = absurd (omega arith)
zero_on_the_right (suc bound) (suc a) h =
    let halves = zero_on_the_right bound (suc a / 2) (omega arith) in
    (
      omega (arith, bit_and_lowest (suc a) 0, halves.0),
      omega (arith, bit_or_lowest (suc a) 0, halves.1),
    )

-- A test that holds of each number below a bound.
every_below : (ℕ → Bool) → ℕ → Bool
every_below test zero = true
every_below test (suc bound) = every_below test bound && test bound

every_below_at :
    (test : ℕ → Bool) (bound x : ℕ) → x < bound → every_below test bound ≡ true → test x ≡ true
unfolding every_below
every_below_at test zero x small holds = absurd (omega arith)
every_below_at test (suc bound) x small holds = ground (arith, every_below_at test bound x)

-- The digit of a number at a position.
test_bit : ℕ → ℕ → Bool
test_bit b zero = b % 2 == 1
test_bit b (suc j) = test_bit (b / 2) j

pow_pos : (k : ℕ) → 0 < 2 ^ k
pow_pos zero = omega arith
pow_pos (suc k) = rw (pow-succ' 2 k) (omega (arith, pow_pos k))

pow_half : (j : ℕ) → (2 ^ suc j / 2 ≡ 2 ^ j) × (2 ^ suc j % 2 ≡ 0)
pow_half j = rw (pow-succ' 2 j) (omega arith)

half_digit : (n d : ℕ) → d < 2 → (n * 2 + d) / 2 ≡ n
half_digit n d h = omega arith

-- A mask of one bit reads that digit.
bit_and-pow : (b j : ℕ) → (bit_and b (2 ^ j) == 0) ≡ not (test_bit b j)
unfolding test_bit
bit_and-pow b zero = ground (arith, bit_and_lowest b 1, zero_on_the_right (b / 2) (b / 2))
bit_and-pow b (suc j) =
    ground (arith, bit_and_lowest b (2 ^ suc j), pow_half j, bit_and-pow (b / 2) j)

bit_or-one : (b : ℕ) → bit_or b 1 ≡ b / 2 * 2 + 1
bit_or-one b = omega (arith, bit_or_lowest b 1, zero_on_the_right (b / 2) (b / 2))

bit_or-pow_suc : (b i : ℕ) → bit_or b (2 ^ suc i) ≡ bit_or (b / 2) (2 ^ i) * 2 + b % 2
bit_or-pow_suc b i = rw (bit_or_lowest b (2 ^ suc i), (pow_half i).0, (pow_half i).1) (omega arith)

test_bit-bit_or : (b i j : ℕ) → test_bit (bit_or b (2 ^ i)) j ≡ (i == j) || test_bit b j
unfolding test_bit
test_bit-bit_or b zero zero = ground (arith, bit_or-one b)
test_bit-bit_or b zero (suc j) =
    rw (bit_or-one b, half_digit (b / 2) 1 (omega arith)) (ground arith)
test_bit-bit_or b (suc i) zero = ground (arith, bit_or-pow_suc b i)
test_bit-bit_or b (suc i) (suc j) =
    rw (bit_or-pow_suc b i, half_digit (bit_or (b / 2) (2 ^ i)) (b % 2) (omega arith))
      (ground (arith, test_bit-bit_or (b / 2) i j))

half_mod : (x m : ℕ) → 0 < m → x % (2 * m) / 2 ≡ x / 2 % m
half_mod x m h = grind arith

low_mod : (x m : ℕ) → 0 < m → x % (2 * m) % 2 ≡ x % 2
low_mod x m h = grind arith

test_bit-mod : (x k j : ℕ) → j < k → test_bit (x % 2 ^ k) j ≡ test_bit x j
unfolding test_bit
test_bit-mod x zero j h = elim h [ ]
test_bit-mod x (suc k) zero h = rw (pow-succ' 2 k, low_mod x (2 ^ k) (pow_pos k))
test_bit-mod x (suc k) (suc j) h =
    rw (pow-succ' 2 k, half_mod x (2 ^ k) (pow_pos k)) (test_bit-mod (x / 2) k j (omega arith))

pow_lt : (i : ℕ) → i < 8 → 2 ^ i < 256
pow_lt zero h = omega arith
pow_lt (suc zero) h = omega arith
pow_lt (suc (suc zero)) h = omega arith
pow_lt (suc (suc (suc zero))) h = omega arith
pow_lt (suc (suc (suc (suc zero)))) h = omega arith
pow_lt (suc (suc (suc (suc (suc zero))))) h = omega arith
pow_lt (suc (suc (suc (suc (suc (suc zero)))))) h = omega arith
pow_lt (suc (suc (suc (suc (suc (suc (suc zero))))))) h = omega arith
pow_lt (suc (suc (suc (suc (suc (suc (suc (suc i)))))))) h = absurd (omega arith)

bit_lem : (i : ℕ) → i < 8 → bit i ≡ 2 ^ i
bit_lem i h = mod-eq_of_lt (pow_lt i h)

has_bit_lem : (b j : ℕ) → j < 8 → has_bit b j ≡ test_bit b j
unfolding has_bit
has_bit_lem b j h = rw (bit_lem j h, bit_and-pow b j) (not_not (test_bit b j))
  where
    not_not : (t : Bool) → not (not t) ≡ t
    not_not true = refl
    not_not false = refl

-- A digit of the set with one element more is that of the element, or was there before.
pub has_bit-with_bit :
    (b i j : ℕ) → i < 8 → j < 8 → has_bit (with_bit b i) j ≡ (i == j) || has_bit b j
unfolding with_bit
has_bit-with_bit b i j hi hj =
    rw (has_bit_lem (with_bit b i) j hj, has_bit_lem b j hj, with_bit, bit_lem i hi)
      (rw (test_bit-mod (bit_or b (2 ^ i)) 8 j hj) (test_bit-bit_or b i j))

test_bit-bit_and : (a b j : ℕ) → test_bit (bit_and a b) j ≡ test_bit a j && test_bit b j
unfolding test_bit
test_bit-bit_and a b zero = ground (arith, bit_and_lowest a b)
test_bit-bit_and a b (suc j) =
    rw
      (bit_and_lowest a b, half_digit (bit_and (a / 2) (b / 2)) (min (a % 2) (b % 2)) (omega arith))
      (test_bit-bit_and (a / 2) (b / 2) j)

same : Bool → Bool → Bool
same true b = b
same false b = not b

same_sound : (a b : Bool) → same a b ≡ true → a ≡ b
unfolding same
same_sound true b h = sym h
same_sound false b h = ground arith

abbrev complement_row : ℕ → Bool
complement_row i = every_below (λ j. same (test_bit (255 - bit i) j) (not (i == j))) 8

complement_table : every_below complement_row 8 ≡ true
unfolding every_below test_bit same
complement_table = refl

test_bit-complement : (i j : ℕ) → i < 8 → j < 8 → test_bit (255 - bit i) j ≡ not (i == j)
test_bit-complement i j hi hj =
    let row = every_below_at complement_row 8 i hi complement_table in
    same_sound _ _ (every_below_at (λ b. same (test_bit (255 - bit i) b) (not (i == b))) 8 j hj row)

-- A digit of the set with one element less was there before, and is not that of the element.
pub has_bit-without_bit :
    (b i j : ℕ) → i < 8 → j < 8 → has_bit (without_bit b i) j ≡ not (i == j) && has_bit b j
unfolding without_bit
has_bit-without_bit b i j hi hj =
    rw (has_bit_lem (without_bit b i) j hj, has_bit_lem b j hj, without_bit)
      (rw (test_bit-mod (bit_and b (255 - bit i)) 8 j hj, test_bit-bit_and b (255 - bit i) j)
        (ground (arith, test_bit-complement i j hi hj)))

pub has_bit-zero : (j : ℕ) → has_bit 0 j ≡ false
unfolding has_bit
has_bit-zero j = rw (zero-bit_and (bit j))
