-- ===== src/Core/Uuid/RoundTrip.antt =====
-- ids.cpp: an identifier is read back from its text, in small or capital letters.
use Prim.Native.Nat.{bit_and}
use mathlib.Core.List.{append_assoc, append-nil}
use pdr.Base.{
  ℕ, zero, suc, ◌+◌, ◌*◌, ◌/◌, ◌%◌, ◌<◌, ◌≡◌, refl, ap, ◌∙◌, Bool, true, false, List, [], ◌∷◌, ◌++◌,
  Option, none, some, ◌==◌, length, All, arith, if◌then◌else◌, Bool-cases, inl, inr,
}
use pdr.Core.Ids.{Tag, StrongId}
use pdr.Core.Uuid.{
  read_from, parse_uuid, digit_of, opens_group, format_from, format_uuid, bytes_from, number_from,
  parse_id, id_text, k_text_length,
}
use pdr.Core.Uuid.Digits.{
  passes_under_lem, position_of, fits_group, positions_table, read_byte, read_hyphen,
}

abbrev digits_after : ℕ → ℕ → List ℕ → List ℕ
digits_after index byte rest =
    digit_of (byte / 16) ∷ digit_of (bit_and byte 15) ∷ format_from (suc index) rest

pub format_opens :
    (index byte : ℕ) (rest : List ℕ)
    → opens_group index ≡ true
    → format_from index (byte ∷ rest) ≡ b'-' ∷ digits_after index byte rest
unfolding format_from
format_opens index byte rest opens =
    ap
      (λ (b : Bool).
        if b then b'-' ∷ digits_after index byte rest else digits_after index byte rest)
      opens

pub format_inside :
    (index byte : ℕ) (rest : List ℕ)
    → opens_group index ≡ false
    → format_from index (byte ∷ rest) ≡ digits_after index byte rest
unfolding format_from
format_inside index byte rest inside =
    ap
      (λ (b : Bool).
        if b then b'-' ∷ digits_after index byte rest else digits_after index byte rest)
      inside

abbrev read_at : ℕ → List ℕ → List ℕ → Option (List ℕ)
read_at position text bytes = read_from position text (record { bytes = bytes; high = none })

read_from-format_from :
    (index : ℕ) (rest bytes : List ℕ)
    → index + length rest ≡ 16
    → All (λ byte. byte < 256) rest
    → read_from (position_of index) (format_from index rest) (record { bytes = bytes; high = none })
      ≡ some (bytes ++ rest)
unfolding position_of
read_from-format_from index [] bytes count small =
    rw append-nil (unfold format_from read_from in refl)
read_from-format_from index (byte ∷ rest) bytes count small =
    let place = passes_under_lem fits_group 16 positions_table index (omega (arith, count)) in
    let at = position_of index in
    let later =
      read_from-format_from (suc index) rest (bytes ++ byte ∷ []) (omega (arith, count)) small.1 in
    elim (Bool-cases (opens_group index)) [
      | inl opens ↦
          ap (λ t. read_at at t bytes) (format_opens index byte rest opens)
          ∙ read_hyphen at _ _ (ground (arith, place, opens))
          ∙ read_byte (suc at) byte _ bytes small.0 (ground (arith, place, opens))
              (ground (arith, place, opens))
          ∙ ap (λ n. read_at n (format_from (suc index) rest) (bytes ++ byte ∷ []))
              (ground (arith, opens))
          ∙ later
          ∙ ap some (append_assoc bytes (byte ∷ []) rest)
      | inr inside ↦
          ap (λ t. read_at at t bytes) (format_inside index byte rest inside)
          ∙ read_byte at byte _ bytes small.0 (ground (arith, place, inside))
              (ground (arith, place, inside))
          ∙ ap (λ n. read_at n (format_from (suc index) rest) (bytes ++ byte ∷ []))
              (ground (arith, inside))
          ∙ later
          ∙ ap some (append_assoc bytes (byte ∷ []) rest)
    ]

last_position : (index : ℕ) → index ≡ 16 → position_of index ≡ 36
unfolding position_of
last_position index e = rw e refl

length-format_from :
    (index : ℕ) (rest : List ℕ)
    → index + length rest ≡ 16
    → length (format_from index rest) + position_of index ≡ 36
unfolding format_from position_of
length-format_from index [] count = omega (arith, last_position index (omega (arith, count)))
length-format_from index (byte ∷ rest) count =
    ground (arith, length-format_from (suc index) rest (omega (arith, count)))

-- The text of sixteen bytes is read as those bytes.
pub parse_uuid-format_uuid :
    (bytes : List ℕ)
    → length bytes ≡ 16
    → All (λ byte. byte < 256) bytes
    → parse_uuid (format_uuid bytes) ≡ some bytes
unfolding parse_uuid format_uuid position_of
parse_uuid-format_uuid bytes count small =
    let long = length-format_from 0 bytes (omega (arith, count)) in
    let test : (length (format_from 0 bytes) == k_text_length) ≡ true = ground (arith, long) in
    rw test (read_from-format_from 0 bytes [] (omega (arith, count)) small)

-- 256 to the number of bytes.
abbrev pub limit : ℕ → ℕ
limit zero = 1
limit (suc count) = 256 * limit count

number_from-bytes_from :
    (count number : ℕ) (bytes : List ℕ)
    → number < limit count
    → number_from 0 (bytes_from count number bytes) ≡ number_from number bytes
unfolding bytes_from number_from
number_from-bytes_from zero number bytes small =
    ap (λ n. number_from n bytes) (omega (arith, small))
number_from-bytes_from (suc count) number bytes small =
    number_from-bytes_from count (number / 256) ((number % 256) ∷ bytes) (omega (arith, small))
    ∙ ap (λ n. number_from n bytes) (omega arith)

pub bytes_from-IsBytes :
    (count number : ℕ) (bytes : List ℕ)
    → All (λ byte. byte < 256) bytes
    → (All (λ byte. byte < 256) (bytes_from count number bytes))
      × (length (bytes_from count number bytes) ≡ count + length bytes)
unfolding bytes_from
bytes_from-IsBytes zero number bytes small = (small, omega arith)
bytes_from-IsBytes (suc count) number bytes small =
    let later =
      bytes_from-IsBytes count (number / 256) ((number % 256) ∷ bytes) (omega arith, small) in
    (later.0, omega (arith, later.1))

-- An identifier of 128 bits is read back from its text.
pub parse_id-id_text :
    {tag : Tag} (id : StrongId tag) → id.value < limit 16 → parse_id (id_text id) ≡ some id
unfolding parse_id id_text
parse_id-id_text id small =
    let bytes = bytes_from-IsBytes 16 id.value [] tt in
    rw (parse_uuid-format_uuid (bytes_from 16 id.value []) (omega (arith, bytes.1)) bytes.0)
      (ap (λ n. some (record { value = n })) (number_from-bytes_from 16 id.value [] small))
