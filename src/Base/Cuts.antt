-- ===== src/Base/Cuts.antt =====
-- Texts cut at symbols: `find_first_of` with the two `substr` beside it, and all the pieces of a text.
use Prim.Native.Nat.{ℕ, suc, ◌<◌}
use Prim.Native.Char.{Char, code}
use Prim.Native.String.{String}
use mathlib.Core.Path.{◌≡◌, refl, ap}
use mathlib.Core.Bool.{Bool, true, false, ◌&&◌}
use mathlib.Core.Logic.{inl, inr}
use mathlib.Core.Option.{Option, none, some}
use mathlib.Core.List.{List, [], ◌∷◌}
use native.Mathlib.Omega.{arith}
use pdr.Base.Tests.{if◌then◌else◌, Bool-cases}

-- How many characters a text has.
abbrev pub size : String → ℕ
size String.[] = 0
size (String.◌∷◌ c s) = suc (size s)

abbrev pub is_blank : String → Bool
is_blank String.[] = true
is_blank (String.◌∷◌ c s) = false

module _ (test : ℕ → Bool) where
  -- What stands before the first symbol of a kind, and what stands after it, if there is one.
  unfoldable pub cut : String → String × Option String
  cut String.[] = (String.[], none)
  cut (String.◌∷◌ c s) =
      let rest = cut s in
      if test (code c) then (String.[], some s) else (String.◌∷◌ c rest.0, rest.1)

  abbrev first_longer : Char → List String → List String
  first_longer c [] = String.◌∷◌ c String.[] ∷ []
  first_longer c (piece ∷ pieces) = String.◌∷◌ c piece ∷ pieces

  -- All the pieces between the symbols of a kind, the empty ones too.
  unfoldable pub pieces : String → List String
  pieces String.[] = String.[] ∷ []
  pieces (String.◌∷◌ c s) =
      if test (code c) then String.[] ∷ pieces s else first_longer c (pieces s)

  abbrev pub pieces_after : Option String → List String
  pieces_after none = []
  pieces_after (some rest) = pieces rest

  pub pieces-cut : (s : String) → pieces s ≡ (cut s).0 ∷ pieces_after (cut s).1
  unfolding pieces cut
  pieces-cut String.[] = refl
  pieces-cut (String.◌∷◌ c s) = elim (Bool-cases (test (code c))) [
    | inl here ↦ rw here refl
    | inr on ↦ rw on (ap (first_longer c) (pieces-cut s))
  ]

  pub cut_smaller : (s : String) {rest : String} → (cut s).1 ≡ some rest → size rest < size s
  unfolding cut
  cut_smaller String.[] h = absurd (ground (arith, h))
  cut_smaller (String.◌∷◌ c s) {rest} h = elim (Bool-cases (test (code c))) [
    | inl here ↦ ground (arith, here, h)
    | inr on ↦ omega (arith, cut_smaller s {rest = rest} (rw on at h))
  ]

  trim_front : String → String
  trim_front String.[] = String.[]
  trim_front (String.◌∷◌ c s) = if test (code c) then trim_front s else String.◌∷◌ c s

  trim_back : String → String
  trim_back String.[] = String.[]
  trim_back (String.◌∷◌ c s) =
      let rest = trim_back s in
      if is_blank rest && test (code c) then String.[] else String.◌∷◌ c rest

  -- `find_first_not_of` and `find_last_not_of` of the symbols of a kind, with the `substr` between them.
  unfoldable pub trimmed : String → String
  unfolding trim_front trim_back
  trimmed text = trim_back (trim_front text)
