-- ===== src/Identity/Scopes.antt =====
-- identity/core/guardian_scope.hpp and guardian_scope.cpp: what a guardian may look into.
use pdr.Base.{
  ℕ, ◌<◌, ◌≡◌, Bool, true, false, not, ◌||◌, ◌&&◌, List, [], ◌∷◌, Option, String, find_named, ◌==◌,
  if◌then◌else◌, arith,
}
use pdr.Base.Bits.{
  with_bit, without_bit, has_bit, has_bit-with_bit, has_bit-without_bit, has_bit-zero,
}

pub data GuardianScope : Type 0 where
  schedule payments notes_and_homework recordings boundary : GuardianScope

unfoldable pub name : GuardianScope → String
name schedule = "schedule"
name payments = "payments"
name notes_and_homework = "notes_and_homework"
name recordings = "recordings"
name GuardianScope.boundary = "boundary"

abbrev pub every_guardian_scope : List GuardianScope
every_guardian_scope = schedule ∷ payments ∷ notes_and_homework ∷ recordings ∷ []

unfoldable pub parse_guardian_scope : String → Option GuardianScope
unfolding name find_named
parse_guardian_scope text = find_named name every_guardian_scope text

abbrev pub index : GuardianScope → ℕ
index schedule = 0
index payments = 1
index notes_and_homework = 2
index recordings = 3
index GuardianScope.boundary = 4

unfoldable pub same_scope : GuardianScope → GuardianScope → Bool
same_scope a b = index a == index b

unfoldable pub opens_with_guardianship : GuardianScope → Bool
opens_with_guardianship scope = not (same_scope scope recordings)

pub record GuardianScopeSet : Type 0 where
  pub bits : ℕ

abbrev pub no_scopes : GuardianScopeSet
no_scopes = record { bits = 0 }

unfoldable pub with_scope : GuardianScopeSet → GuardianScope → GuardianScopeSet
with_scope set scope = record { bits = with_bit set.bits (index scope) }

unfoldable pub without_scope : GuardianScopeSet → GuardianScope → GuardianScopeSet
without_scope set scope = record { bits = without_bit set.bits (index scope) }

unfoldable pub has_scope : GuardianScopeSet → GuardianScope → Bool
has_scope set scope = has_bit set.bits (index scope)

unfoldable pub scopes_where :
    (GuardianScope → Bool) → GuardianScopeSet → List GuardianScope → GuardianScopeSet
scopes_where test set [] = set
scopes_where test set (scope ∷ rest) =
    scopes_where test (if test scope then with_scope set scope else set) rest

-- `GuardianScopeSet::OpenedByGuardianship` and `GuardianScopeSet::Everything`.
unfoldable pub opened_by_guardianship : GuardianScopeSet
opened_by_guardianship = scopes_where opens_with_guardianship no_scopes every_guardian_scope

unfoldable pub every_scope : GuardianScopeSet
every_scope = scopes_where (λ _. true) no_scopes every_guardian_scope

index_lt : (s : GuardianScope) → index s < 8
index_lt schedule = omega arith
index_lt payments = omega arith
index_lt notes_and_homework = omega arith
index_lt recordings = omega arith
index_lt GuardianScope.boundary = omega arith

pub has_scope-with_scope :
    (set : GuardianScopeSet) (s s' : GuardianScope)
    → has_scope (with_scope set s) s' ≡ same_scope s s' || has_scope set s'
unfolding has_scope with_scope same_scope
has_scope-with_scope set s s' =
    has_bit-with_bit set.bits (index s) (index s') (index_lt s) (index_lt s')

pub has_scope-without_scope :
    (set : GuardianScopeSet) (s s' : GuardianScope)
    → has_scope (without_scope set s) s' ≡ not (same_scope s s') && has_scope set s'
unfolding has_scope without_scope same_scope
has_scope-without_scope set s s' =
    has_bit-without_bit set.bits (index s) (index s') (index_lt s) (index_lt s')

pub has_scope-no_scopes : (s : GuardianScope) → has_scope no_scopes s ≡ false
unfolding has_scope
has_scope-no_scopes s = has_bit-zero (index s)
