-- ===== src/Base/Text.antt =====
-- Wire names: a scan of a list of values for the one whose name is a given text.
use Prim.Native.Nat.{ℕ}
use Prim.Native.Char.{code}
use Prim.Native.String.{String}
use mathlib.Core.Path.{◌≡◌}
use mathlib.Core.Bool.{Bool, true, ◌&&◌}
use mathlib.Core.Option.{Option, none, some}
use mathlib.Core.List.{List, [], ◌∷◌}
use text.Mathlib.Text.{◌==◌}
use text.Mathlib.TextEquality.{eq_iff}
use text.Mathlib.TextPositions.{eq_refl}
use native.Mathlib.Omega.{arith}
use pdr.Base.Tests.{if◌then◌else◌}

abbrev pub str_eq : String → String → Bool
str_eq s t = s == t

pub str_eq_iff : (s t : String) → (str_eq s t ≡ true → s ≡ t) × (s ≡ t → str_eq s t ≡ true)
str_eq_iff s t = eq_iff s t

pub str_eq_refl : (s : String) → str_eq s s ≡ true
str_eq_refl s = eq_refl s

-- `std::all_of` over a text, by the numbers of its characters.
abbrev pub every_char : (ℕ → Bool) → String → Bool
every_char test String.[] = true
every_char test (String.◌∷◌ c s) = test (code c) && every_char test s

module _ {ℓ} {A : Type ℓ} (name : A → String) where
  -- `for (x : every) if (Name(x) == text) return x; return nullopt;`
  unfoldable pub find_named : List A → String → Option A
  find_named [] text = none
  find_named (x ∷ xs) text = if str_eq (name x) text then some x else find_named xs text

  pub find_named-some :
      (xs : List A) (text : String) {x : A} → find_named xs text ≡ some x → name x ≡ text
  unfolding find_named
  find_named-some [] text h = absurd (grind arith)
  find_named-some (y ∷ xs) text {x} h =
      ground (arith, eq_iff (name y) text, find_named-some xs text {x = x})
