-- ===== src/Core/Zones/Parsing.antt =====
-- time.cpp: the loop over the segments of a name ends, and which names it accepts.
use Prim.Native.String.{len}
use pdr.Base.{
  ◌≡◌, ℕ, zero, suc, ◌+◌, ◌<◌, Bool, true, not, ◌&&◌, List, [], ◌∷◌, none, some, String, leb,
  length, cut, size, is_blank, pieces, pieces-cut, cut_smaller, arith, Option-cases, inl, inr,
  if◌then◌else◌,
}
use pdr.Core.Zones.{
  is_segment, is_slash, segments_from, k_max_segments, k_max_name_length, parse_zone, zone_of,
}

abbrev pub all_segments : List String → Bool
all_segments [] = true
all_segments (piece ∷ rest) = is_segment piece && all_segments rest

segments_from-pieces :
    (fuel segments : ℕ) (rest : String)
    → size rest < fuel
    → segments_from fuel segments rest
      ≡ some (
          all_segments (pieces is_slash rest)
          && leb (segments + length (pieces is_slash rest)) k_max_segments)
unfolding segments_from
segments_from-pieces zero segments rest enough = absurd (omega arith)
segments_from-pieces (suc fuel) segments rest enough =
    let split = pieces-cut is_slash rest in
    elim (Option-cases (cut is_slash rest).1) [
      | inl last ↦ rw (split, last) (ground arith)
      | inr (later, more) ↦
          rw (split, more)
            (ground (
              arith,
              segments_from-pieces fuel (segments + 1) later
                  (omega (arith, cut_smaller is_slash rest {rest = later} more)),
            ))
    ]

-- The loop always comes to an end, and a name is accepted exactly where it is not empty, has at most 64
-- bytes and at most three pieces between its slashes, and each of them is a segment; the time zone then
-- has that name.
pub parse_zone_total :
    (name : String)
    → parse_zone name ≡ (
        if not (is_blank name)
          && (leb (len name) k_max_name_length
              && (all_segments (pieces is_slash name)
                  && leb (length (pieces is_slash name)) k_max_segments))
        then some (record { name = name })
        else none)
unfolding parse_zone zone_of
parse_zone_total name =
    let ends = segments_from-pieces (suc (size name)) 0 name (omega arith) in rw ends (ground arith)
