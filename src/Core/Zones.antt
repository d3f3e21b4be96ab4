-- ===== src/Core/Zones.antt =====
-- TimeZone of libs/pdr-core/src/core/types/time.hpp and time.cpp: the name of a time zone, which is one
-- to three segments between slashes.
pub mod Parsing
use Prim.Native.Char.{code}
use Prim.Native.String.{len}
use pdr.Base.{
  ℕ, zero, suc, ◌+◌, Bool, true, false, not, ◌&&◌, ◌||◌, Option, none, some, String, leb, ltb, ◌==◌,
  cut, size, is_blank, every_char, if◌then◌else◌,
}

pub record TimeZone : Type 0 where
  pub name : String

abbrev pub k_max_name_length : ℕ
k_max_name_length = 64

abbrev pub k_max_segments : ℕ
k_max_segments = 3

abbrev pub is_letter : ℕ → Bool
is_letter symbol = (leb b'A' symbol && leb symbol b'Z') || (leb b'a' symbol && leb symbol b'z')

abbrev pub is_allowed_in_segment : ℕ → Bool
is_allowed_in_segment symbol =
    let digit = leb b'0' symbol && leb symbol b'9' in
    is_letter symbol || (digit || (symbol == b'_' || (symbol == b'-' || symbol == b'+')))

unfoldable pub is_segment : String → Bool
is_segment String.[] = false
is_segment (String.◌∷◌ c s) =
    is_letter (code c) && every_char is_allowed_in_segment (String.◌∷◌ c s)

abbrev pub is_slash : ℕ → Bool
is_slash symbol = symbol == b'/'

-- The loop of `TimeZone::Parse` from the rest of the name, with the number of segments before it: whether
-- the name is accepted. Without fuel there is no answer.
unfoldable pub segments_from : ℕ → ℕ → String → Option Bool
segments_from zero segments rest = none
segments_from (suc fuel) segments rest =
    let found = cut is_slash rest in
    if not (is_segment found.0)
    then some false
    else if ltb k_max_segments (segments + 1)
    then some false
    else elim found.1 [ none ↦ some true | some later ↦ segments_from fuel (segments + 1) later ]

zone_of : String → Option Bool → Option TimeZone
zone_of name none = none
zone_of name (some accepted) = if accepted then some (record { name = name }) else none

-- Each round of the loop passes a slash, so that the characters of the name are enough fuel.
unfoldable pub parse_zone : String → Option TimeZone
unfolding segments_from is_segment zone_of
parse_zone name =
    if is_blank name || ltb k_max_name_length (len name)
    then none
    else zone_of name (segments_from (suc (size name)) 0 name)
