-- ===== src/Core/Uuid.antt =====
-- libs/pdr-core/src/core/types/ids.cpp and ids.hpp: identifiers as text. A text is the list of its
-- bytes; the sixteen bytes of an identifier are the digits of its number in base 256.
pub mod RoundTrip
pub mod Digits
use Prim.Native.Nat.{bit_and, bit_or}
use pdr.Base.{
  ℕ, zero, suc, ◌+◌, ◌-◌, ◌*◌, ◌/◌, ◌%◌, Bool, false, not, ◌&&◌, ◌||◌, List, [], ◌∷◌, ◌++◌, Option,
  none, some, leb, ◌==◌, length, get_elem?, if◌then◌else◌,
}
use pdr.Core.Ids.{Tag, StrongId}

abbrev pub k_text_length : ℕ
k_text_length = 36

abbrev pub k_hyphens : List ℕ
k_hyphens = 8 ∷ 13 ∷ 18 ∷ 23 ∷ []

abbrev pub k_digits : List ℕ
k_digits =
    b'0' ∷ b'1' ∷ b'2' ∷ b'3' ∷ b'4' ∷ b'5' ∷ b'6' ∷ b'7' ∷ b'8' ∷ b'9' ∷ b'a' ∷ b'b' ∷ b'c' ∷ b'd'
    ∷ b'e' ∷ b'f' ∷ []

unfoldable pub digit_value : ℕ → Option ℕ
digit_value symbol =
    if leb b'0' symbol && leb symbol b'9'
    then some (symbol - b'0')
    else if leb b'a' symbol && leb symbol b'f'
    then some (symbol - b'a' + 10)
    else if leb b'A' symbol && leb symbol b'F'
    then some (symbol - b'A' + 10)
    else none

abbrev pub is_one_of : ℕ → List ℕ → Bool
is_one_of position [] = false
is_one_of position (hyphen ∷ rest) = hyphen == position || is_one_of position rest

abbrev pub is_hyphen_position : ℕ → Bool
is_hyphen_position position = is_one_of position k_hyphens

-- What the loop of `ParseUuid` keeps: the bytes read, and the high half of the next one.
pub record Reading : Type 0 where
  pub bytes : List ℕ
  pub high : Option ℕ

read_digit : Reading → Option ℕ → Option Reading
read_digit reading none = none
read_digit reading (some digit) = elim reading.high [
  | none ↦ some (record reading { high = some digit })
  | some high ↦
      some (record { bytes = reading.bytes ++ (bit_or (high * 16) digit % 256) ∷ []; high = none })
]

-- One round of the loop.
unfoldable pub read_symbol : ℕ → ℕ → Reading → Option Reading
unfolding read_digit digit_value
read_symbol position symbol reading =
    if is_hyphen_position position
    then if not (symbol == b'-') then none else some reading
    else read_digit reading (digit_value symbol)

unfoldable pub read_from : ℕ → List ℕ → Reading → Option (List ℕ)
unfolding read_symbol
read_from position [] reading = some reading.bytes
read_from position (symbol ∷ text) reading = elim (read_symbol position symbol reading) [
  | none ↦ none
  | some next ↦ read_from (suc position) text next
]

unfoldable pub parse_uuid : List ℕ → Option (List ℕ)
unfolding read_from
parse_uuid text =
    if not (length text == k_text_length)
    then none
    else read_from 0 text (record { bytes = []; high = none })

-- `kDigits[value]`; a half of a byte is below sixteen.
unfoldable pub digit_of : ℕ → ℕ
digit_of value = elim (get_elem? k_digits value) [ some symbol ↦ symbol | none ↦ b'0' ]

abbrev pub opens_group : ℕ → Bool
opens_group index = index == 4 || (index == 6 || (index == 8 || index == 10))

-- The loop of `FormatUuid` from one of the bytes.
unfoldable pub format_from : ℕ → List ℕ → List ℕ
unfolding digit_of
format_from index [] = []
format_from index (byte ∷ bytes) =
    let digits =
      digit_of (byte / 16) ∷ digit_of (bit_and byte 15) ∷ format_from (suc index) bytes in
    if opens_group index then b'-' ∷ digits else digits

unfoldable pub format_uuid : List ℕ → List ℕ
unfolding format_from
format_uuid bytes = format_from 0 bytes

-- The bytes of a number, the first the highest, before others.
unfoldable pub bytes_from : ℕ → ℕ → List ℕ → List ℕ
bytes_from zero number bytes = bytes
bytes_from (suc count) number bytes = bytes_from count (number / 256) ((number % 256) ∷ bytes)

unfoldable pub number_from : ℕ → List ℕ → ℕ
number_from number [] = number
number_from number (byte ∷ bytes) = number_from (number * 256 + byte) bytes

id_of_bytes : {tag : Tag} → Option (List ℕ) → Option (StrongId tag)
id_of_bytes none = none
id_of_bytes (some bytes) = some (record { value = number_from 0 bytes })

-- `StrongId::Parse` and `ToString`.
unfoldable pub parse_id : {tag : Tag} → List ℕ → Option (StrongId tag)
unfolding parse_uuid id_of_bytes number_from
parse_id text = id_of_bytes (parse_uuid text)

unfoldable pub id_text : {tag : Tag} → StrongId tag → List ℕ
unfolding format_uuid bytes_from
id_text id = format_uuid (bytes_from 16 id.value [])
