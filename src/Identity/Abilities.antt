-- ===== src/Identity/Abilities.antt =====
-- identity/core/capabilities.hpp and capabilities.cpp: what an age lets a student do alone.
use pdr.Base.{
  ℕ, ◌<◌, ◌≡◌, Bool, true, false, not, ◌||◌, ◌&&◌, List, [], ◌∷◌, Option, String, find_named, ◌==◌,
  ℤ, pos, ltb_ℤ, if◌then◌else◌, arith,
}
use pdr.Base.Bits.{with_bit, has_bit, has_bit-with_bit, has_bit-zero}
use pdr.Core.Errors.{Result, ok, refuse, validation}

pub data AgeThreshold : Type 0 where
  slots_and_reviews own_payments majority boundary : AgeThreshold

unfoldable pub threshold_name : AgeThreshold → String
threshold_name slots_and_reviews = "slots_and_reviews"
threshold_name own_payments = "own_payments"
threshold_name majority = "majority"
threshold_name AgeThreshold.boundary = "boundary"

abbrev pub every_age_threshold : List AgeThreshold
every_age_threshold = slots_and_reviews ∷ own_payments ∷ majority ∷ []

unfoldable pub parse_age_threshold : String → Option AgeThreshold
unfolding threshold_name find_named
parse_age_threshold text = find_named threshold_name every_age_threshold text

-- The three ages, `int` in the source. A value is made by `compose_thresholds` alone.
pub record AgeThresholds : Type 0 where
  pub slots_and_reviews_years : ℤ
  pub own_payments_years : ℤ
  pub majority_years : ℤ

abbrev pub youngest_thinkable : ℤ
youngest_thinkable = pos 6

abbrev pub oldest_thinkable : ℤ
oldest_thinkable = pos 21

abbrev thinkable : ℤ → Bool
thinkable years = not (ltb_ℤ years youngest_thinkable || ltb_ℤ oldest_thinkable years)

unfoldable pub compose_thresholds : ℤ → ℤ → ℤ → Result AgeThresholds
compose_thresholds slots payments grown =
    if not (thinkable slots && thinkable payments && thinkable grown)
    then refuse validation "age_threshold_out_of_range"
        "возрастной порог самостоятельности вне мыслимых пределов"
    else if ltb_ℤ payments slots || ltb_ℤ grown payments
    then refuse validation "age_thresholds_out_of_order"
        "пороги идут не по возрастанию: право приходит раньше предыдущего"
    else ok (record {
      slots_and_reviews_years = slots;
      own_payments_years = payments;
      majority_years = grown;
    })

abbrev pub years_of : AgeThresholds → AgeThreshold → ℤ
years_of thresholds slots_and_reviews = thresholds.slots_and_reviews_years
years_of thresholds own_payments = thresholds.own_payments_years
years_of thresholds majority = thresholds.majority_years
years_of thresholds AgeThreshold.boundary = thresholds.majority_years

pub data Capability : Type 0 where
  move_own_slots write_review decide_own_guardian_access pay_own_money choose_tutor : Capability
  boundary : Capability

unfoldable pub capability_name : Capability → String
capability_name move_own_slots = "move_own_slots"
capability_name write_review = "write_review"
capability_name decide_own_guardian_access = "decide_own_guardian_access"
capability_name pay_own_money = "pay_own_money"
capability_name choose_tutor = "choose_tutor"
capability_name Capability.boundary = "boundary"

abbrev pub every_capability : List Capability
every_capability =
    move_own_slots ∷ write_review ∷ decide_own_guardian_access ∷ pay_own_money ∷ choose_tutor ∷ []

unfoldable pub parse_capability : String → Option Capability
unfolding capability_name find_named
parse_capability text = find_named capability_name every_capability text

abbrev pub arrives_with : Capability → AgeThreshold
arrives_with move_own_slots = slots_and_reviews
arrives_with write_review = slots_and_reviews
arrives_with decide_own_guardian_access = slots_and_reviews
arrives_with pay_own_money = own_payments
arrives_with choose_tutor = own_payments
arrives_with Capability.boundary = slots_and_reviews

abbrev pub index : Capability → ℕ
index move_own_slots = 0
index write_review = 1
index decide_own_guardian_access = 2
index pay_own_money = 3
index choose_tutor = 4
index Capability.boundary = 5

pub record Capabilities : Type 0 where
  pub bits : ℕ

abbrev pub no_capabilities : Capabilities
no_capabilities = record { bits = 0 }

unfoldable pub with_capability : Capabilities → Capability → Capabilities
with_capability set capability = record { bits = with_bit set.bits (index capability) }

unfoldable pub has_capability : Capabilities → Capability → Bool
has_capability set capability = has_bit set.bits (index capability)

-- The loop of `Everything` and `Compute`: it adds each capability that passes the test.
unfoldable pub able_where : (Capability → Bool) → Capabilities → List Capability → Capabilities
able_where test able [] = able
able_where test able (capability ∷ rest) =
    able_where test (if test capability then with_capability able capability else able) rest

unfoldable pub every_ability : Capabilities
unfolding able_where with_capability
every_ability = able_where (λ _. true) no_capabilities every_capability

abbrev pub same_capability : Capability → Capability → Bool
same_capability a b = index a == index b

index_lt : (c : Capability) → index c < 8
index_lt move_own_slots = omega arith
index_lt write_review = omega arith
index_lt decide_own_guardian_access = omega arith
index_lt pay_own_money = omega arith
index_lt choose_tutor = omega arith
index_lt Capability.boundary = omega arith

pub has_capability-with_capability :
    (set : Capabilities) (c c' : Capability)
    → has_capability (with_capability set c) c' ≡ same_capability c c' || has_capability set c'
unfolding has_capability with_capability
has_capability-with_capability set c c' =
    has_bit-with_bit set.bits (index c) (index c') (index_lt c) (index_lt c')

pub has_capability-no_capabilities : (c : Capability) → has_capability no_capabilities c ≡ false
unfolding has_capability
has_capability-no_capabilities c = has_bit-zero (index c)
