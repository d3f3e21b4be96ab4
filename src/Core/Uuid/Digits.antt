-- ===== src/Core/Uuid/Digits.antt =====
-- ids.cpp: the two digits of a byte, and its place in the text, are read back.
use Prim.Native.Nat.{bit_and, bit_or}
use pdr.Base.{
  ℕ, zero, suc, ◌+◌, ◌*◌, ◌/◌, ◌%◌, ◌<◌, ◌≡◌, refl, ap, sym, ◌∙◌, Bool, true, false, not, ◌&&◌,
  List, [], ◌∷◌, ◌++◌, Option, none, some, ◌==◌, arith, if◌then◌else◌,
}
use pdr.Core.Uuid.{
  Reading, read_symbol, read_from, digit_value, digit_of, is_hyphen_position, opens_group,
}

-- Whether each number under a bound passes a test, for tables that are checked by evaluation.
module _ (test : ℕ → Bool) where
  unfoldable pub passes_under : ℕ → Bool
  passes_under zero = true
  passes_under (suc bound) = passes_under bound && test bound

  pub passes_under_lem :
      (bound : ℕ) → passes_under bound ≡ true → (number : ℕ) → number < bound → test number ≡ true
  unfolding passes_under
  passes_under_lem zero passed number under = absurd (omega (arith, under))
  passes_under_lem (suc bound) passed number under =
      ground (arith, passed, under, passes_under_lem bound (ground (arith, passed)) number)

abbrev same : Bool → Bool → Bool
same true b = b
same false b = not b

same_sound : (a b : Bool) → same a b ≡ true → a ≡ b
same_sound true b h = sym h
same_sound false true h = absurd (ground (arith, h))
same_sound false false h = refl

abbrev is_some : ℕ → Option ℕ → Bool
is_some n none = false
is_some n (some m) = m == n

is_some_sound : (n : ℕ) (o : Option ℕ) → is_some n o ≡ true → o ≡ some n
is_some_sound n none h = absurd (ground (arith, h))
is_some_sound n (some m) h = ground (arith, h)

digits_table : passes_under (λ d. is_some d (digit_value (digit_of d))) 16 ≡ true
unfolding passes_under digit_value digit_of
digits_table = refl

digit_value-digit_of : (d : ℕ) → d < 16 → digit_value (digit_of d) ≡ some d
digit_value-digit_of d h =
    is_some_sound d _
      (passes_under_lem (λ d. is_some d (digit_value (digit_of d))) 16 digits_table d h)

halves_table :
    passes_under (λ b. bit_or (b / 16 * 16) (bit_and b 15) % 256 == b && bit_and b 15 == b % 16) 256
    ≡ true
unfolding passes_under
halves_table = refl

pub halves :
    (b : ℕ) → b < 256 → (bit_or (b / 16 * 16) (bit_and b 15) % 256 ≡ b) × (bit_and b 15 ≡ b % 16)
halves b h =
    let both =
      passes_under_lem
        (λ b. bit_or (b / 16 * 16) (bit_and b 15) % 256 == b && bit_and b 15 == b % 16) 256
        halves_table b h in
    ground (arith, both)

-- Where a byte stands in the text, its hyphen included.
unfoldable pub position_of : ℕ → ℕ
position_of zero = 0
position_of (suc index) = position_of index + (if opens_group index then 3 else 2)

-- The positions of the hyphens are those before the groups, and no digit stands at one.
abbrev pub fits_group : ℕ → Bool
fits_group index =
    same (opens_group index) (is_hyphen_position (position_of index))
    && (not (is_hyphen_position (position_of index + (if opens_group index then 1 else 0)))
        && not (is_hyphen_position (position_of index + (if opens_group index then 2 else 1))))

pub positions_table : passes_under fits_group 16 ≡ true
unfolding passes_under position_of
positions_table = refl

read_on :
    (position symbol : ℕ) (text : List ℕ) (reading : Reading) {next : Reading}
    → read_symbol position symbol reading ≡ some next
    → read_from position (symbol ∷ text) reading ≡ read_from (suc position) text next
unfolding read_from
read_on position symbol text reading h =
    λ i. elim (h i) [ none ↦ none | some next ↦ read_from (suc position) text next ]

high_half :
    (position symbol digit : ℕ) (bytes : List ℕ)
    → is_hyphen_position position ≡ false
    → digit_value symbol ≡ some digit
    → read_symbol position symbol (record { bytes = bytes; high = none })
      ≡ some (record { bytes = bytes; high = some digit })
unfolding read_symbol
high_half position symbol digit bytes apart value = rw value (ground (arith, apart))

low_half :
    (position symbol digit high : ℕ) (bytes : List ℕ)
    → is_hyphen_position position ≡ false
    → digit_value symbol ≡ some digit
    → read_symbol position symbol (record { bytes = bytes; high = some high })
      ≡ some (record { bytes = bytes ++ (bit_or (high * 16) digit % 256) ∷ []; high = none })
unfolding read_symbol
low_half position symbol digit high bytes apart value = rw value (ground (arith, apart))

pub read_byte :
    (position byte : ℕ) (text bytes : List ℕ)
    → byte < 256
    → is_hyphen_position position ≡ false
    → is_hyphen_position (suc position) ≡ false
    → read_from position
        (digit_of (byte / 16) ∷ digit_of (bit_and byte 15) ∷ text)
        (record { bytes = bytes; high = none })
      ≡ read_from (suc (suc position)) text (record { bytes = bytes ++ byte ∷ []; high = none })
read_byte position byte text bytes small first second =
    let (joined, low) = halves byte small in
    read_on position _ _ _ (
      high_half position _ (byte / 16) bytes first (digit_value-digit_of (byte / 16) (omega arith)))
    ∙ read_on (suc position) _ _ _ (
        low_half (suc position) _ (bit_and byte 15) (byte / 16) bytes second
          (digit_value-digit_of (bit_and byte 15) (omega (arith, low))))
    ∙ ap
        (λ b. read_from (suc (suc position)) text (record { bytes = bytes ++ b ∷ []; high = none }))
        joined

pub read_hyphen :
    (position : ℕ) (text : List ℕ) (reading : Reading)
    → is_hyphen_position position ≡ true
    → read_from position (b'-' ∷ text) reading ≡ read_from (suc position) text reading
read_hyphen position text reading here =
    read_on position b'-' text reading (unfold read_symbol in ground (arith, here))
