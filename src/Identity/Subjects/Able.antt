-- ===== src/Identity/Subjects/Able.antt =====
-- subject_builder.cpp and capabilities.cpp: what a person is old enough for.
use pdr.Base.{◌≡◌, Bool, false, not, ◌&&◌, ◌||◌, List, [], ◌∷◌, if◌then◌else◌, arith}
use pdr.Identity.Abilities.{
  Capability, Capabilities, no_capabilities, able_where, every_capability, arrives_with, years_of,
  AgeThresholds, has_capability, with_capability, same_capability, has_capability-with_capability,
  has_capability-no_capabilities, move_own_slots,
}
use pdr.Identity.Ages.{AgeStatus, reached}
use pdr.Identity.Subjects.{compute}

some_same : Capability → (Capability → Bool) → List Capability → Bool
some_same c test [] = false
some_same c test (x ∷ xs) = (same_capability x c && test x) || some_same c test xs

able_where-has :
    (test : Capability → Bool) (able : Capabilities) (list : List Capability) (c : Capability)
    → has_capability (able_where test able list) c ≡ has_capability able c || some_same c test list
unfolding able_where some_same
able_where-has test able [] c = ground arith
able_where-has test able (x ∷ xs) c = ground (
  arith,
  able_where-has test (if test x then with_capability able x else able) xs c,
  has_capability-with_capability able x c,
)

some_of_every :
    (test : Capability → Bool) (c : Capability)
    → some_same c test every_capability ≡ not (same_capability c Capability.boundary) && test c
unfolding some_same
some_of_every test move_own_slots = ground arith
some_of_every test c = ground arith

-- A capability comes exactly with the age that its threshold names, and the border of the list with
-- no age.
pub has_capability-compute :
    (age : AgeStatus) (thresholds : AgeThresholds) (c : Capability)
    → has_capability (compute age thresholds) c
      ≡ not (same_capability c Capability.boundary)
        && reached age (years_of thresholds (arrives_with c))
unfolding compute some_same
has_capability-compute age thresholds c = ground (
  arith,
  able_where-has (λ capability. reached age (years_of thresholds (arrives_with capability)))
      no_capabilities every_capability c,
  has_capability-no_capabilities c,
  some_of_every (λ capability. reached age (years_of thresholds (arrives_with capability))) c,
)
