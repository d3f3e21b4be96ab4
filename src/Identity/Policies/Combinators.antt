-- ===== src/Identity/Policies/Combinators.antt =====
-- combinators.hpp: what `AllOf` and `AnyOf` decide, from what their parts decide.
use pdr.Base.{
  ℕ, ◌≤◌, ◌≡◌, refl, Bool, true, false, ◌&&◌, ◌||◌, List, [], ◌∷◌, Bool-cases, inl, inr, All,
  if◌then◌else◌, arith,
}
use pdr.Identity.Actions.{Action, Resource, PolicyDecision, allow, deny, role_missing}
use pdr.Identity.Policies.{Subject, Policy, rank, better, all_from, all_of, any_from, any_of}

module _ (subject : Subject) (action : Action) (resource : Resource) where
  abbrev pub allows : Policy → Bool
  allows part = (part subject action resource).is_allowed

  abbrev pub all_allow : List Policy → Bool
  all_allow [] = true
  all_allow (part ∷ parts) = allows part && all_allow parts

  abbrev pub some_allows : List Policy → Bool
  some_allows [] = false
  some_allows (part ∷ parts) = allows part || some_allows parts

  -- The decision of the first part that refuses, or else of the last part.
  abbrev pub first_refusal : PolicyDecision → List Policy → PolicyDecision
  first_refusal last [] = last
  first_refusal last (part ∷ parts) =
      let rest = first_refusal (part subject action resource) parts in
      if allows part then rest else part subject action resource

  all_from-refused :
      (d : PolicyDecision) (parts : List Policy)
      → d.is_allowed ≡ false
      → all_from d parts subject action resource ≡ d
  unfolding all_from
  all_from-refused d [] h = refl
  all_from-refused d (part ∷ parts) h = simp h (all_from-refused d parts h)

  all_from_lem :
      (d : PolicyDecision) (parts : List Policy)
      → d.is_allowed ≡ true
      → all_from d parts subject action resource ≡ first_refusal d parts
  unfolding all_from
  all_from_lem d [] h = refl
  all_from_lem d (part ∷ parts) h = elim (Bool-cases (allows part)) [
    | inl e ↦ simp (h, e) (all_from_lem (part subject action resource) parts e)
    | inr e ↦ simp (h, e) (all_from-refused (part subject action resource) parts e)
  ]

  first_refusal-is_allowed :
      (d : PolicyDecision) (parts : List Policy)
      → d.is_allowed ≡ true
      → (first_refusal d parts).is_allowed ≡ all_allow parts
  first_refusal-is_allowed d [] h = h
  first_refusal-is_allowed d (part ∷ parts) h =
      ground (arith, first_refusal-is_allowed (part subject action resource) parts)

  -- `AllOf` allows exactly when each of its parts does, and its decision is that of the first part
  -- that refuses.
  pub all_of_decision :
      (parts : List Policy)
      → (all_of parts subject action resource ≡ first_refusal allow parts)
        × ((all_of parts subject action resource).is_allowed ≡ all_allow parts)
  unfolding all_of
  all_of_decision parts = (
    all_from_lem allow parts refl,
    rw (all_from_lem allow parts refl) (first_refusal-is_allowed allow parts refl),
  )

  any_from-is_allowed :
      (best : PolicyDecision) (parts : List Policy)
      → (any_from best parts subject action resource).is_allowed
        ≡ best.is_allowed || some_allows parts
  unfolding any_from
  any_from-is_allowed best [] = ground arith
  any_from-is_allowed best (part ∷ parts) = ground (
    arith,
    any_from-is_allowed
        (if best.is_allowed then best else better best (part subject action resource)) parts,
  )

  -- The rank of a part's refusal is at most a bound.
  abbrev pub RankAtMost : ℕ → Policy → Type 0
  RankAtMost bound part = rank (part subject action resource).reason ≤ bound

  any_from-rank :
      (best : PolicyDecision) (parts : List Policy)
      → (any_from best parts subject action resource).is_allowed ≡ false
      → let bound = rank (any_from best parts subject action resource).reason in
        (rank best.reason ≤ bound) × All (RankAtMost bound) parts
  unfolding any_from
  any_from-rank best [] h = (omega arith, tt)
  any_from-rank best (part ∷ parts) h = ground (
    arith,
    any_from-is_allowed best (part ∷ parts),
    any_from-rank (better best (part subject action resource)) parts,
  )

  -- `AnyOf` allows exactly when one of its parts does. A refusal by it has a rank that no part's
  -- refusal passes, so the reason given is the nearest to a permission.
  pub any_of_decision :
      (parts : List Policy)
      → ((any_of parts subject action resource).is_allowed ≡ some_allows parts)
        × ((any_of parts subject action resource).is_allowed ≡ false
            → All (RankAtMost (rank (any_of parts subject action resource).reason)) parts)
  unfolding any_of
  any_of_decision parts = (
    any_from-is_allowed (deny role_missing) parts,
    λ h. (any_from-rank (deny role_missing) parts h).1,
  )
