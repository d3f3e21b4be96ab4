-- ===== src/Identity/Care/Notices/Moments.antt =====
-- announce_coming_of_age.cpp and announce_guardian_handover.cpp: the moments that the notices name.
use pdr.Base.{
  ◌≡◌, refl, ap, sym, ◌∙◌, ℕ, ◌≤◌, Bool, true, false, not, ◌&&◌, List, [], ◌∷◌, Option, none, some,
  ℤ, pos, ◌-ℤ◌, arith, if_both, if◌then◌else◌, All, ◌⊎◌, inl, inr, Bool-cases,
}
use pdr.Core.Errors.{Result, ok}
use pdr.Core.Time.{Instant, not_after, before}
use pdr.Identity.Scopes.{GuardianScope, GuardianScopeSet, has_scope, every_guardian_scope}
use pdr.Identity.Abilities.{slots_and_reviews, own_payments, majority}
use pdr.Identity.Access.{MaturityRule}
use pdr.Identity.Ages.{BirthDate, AgeStatus, age_at, turns_at, reached}
use pdr.Identity.Ages.Birthdays.{has_reached}
use pdr.Identity.Ages.Agree.{IsBirthDate, age_at-turns_at}
use pdr.Identity.Care.Notices.{just_crossed, k_day, earliest, decide_by_from, closes_at}

-- Some moment is named, and it is not after another one.
abbrev pub at_most : Option Instant → Instant → Bool
at_most none moment = false
at_most (some d) moment = not_after d moment

module _ (born : BirthDate) (rule : MaturityRule) (deciding : GuardianScopeSet) where
  -- No moment, or the one at which some scope that is being decided closes.
  abbrev pub IsClosing : Option Instant → Type 0
  IsClosing o =
      (o ≡ none)
      ⊎ ((scope : GuardianScope) × (has_scope deciding scope ≡ true)
          × (o ≡ some (closes_at born rule scope)))

  abbrev next : Option Instant → GuardianScope → Option Instant
  next found scope =
      if not (has_scope deciding scope) then found else earliest (closes_at born rule scope) found

  next_keeps :
      (found : Option Instant) (scope : GuardianScope) (moment : Instant)
      → at_most found moment ≡ true
      → at_most (next found scope) moment ≡ true
  unfolding earliest
  next_keeps none scope moment h = absurd (ground arith)
  next_keeps (some d) scope moment h = ground arith

  next_covers :
      (found : Option Instant) (scope : GuardianScope)
      → has_scope deciding scope ≡ true
      → at_most (next found scope) (closes_at born rule scope) ≡ true
  unfolding earliest
  next_covers none scope h = ground arith
  next_covers (some d) scope h = ground arith

  earliest-IsClosing :
      (found : Option Instant) (scope : GuardianScope)
      → has_scope deciding scope ≡ true
      → IsClosing found
      → IsClosing (earliest (closes_at born rule scope) found)
  unfolding earliest
  earliest-IsClosing none scope asked h = inr (scope, asked, refl)
  earliest-IsClosing (some d) scope asked h =
      if_both {A = Option Instant} IsClosing (before (closes_at born rule scope) d)
        (inr (scope, asked, refl)) h

  next-IsClosing :
      (found : Option Instant) (scope : GuardianScope)
      → IsClosing found
      → IsClosing (next found scope)
  unfolding earliest
  next-IsClosing found scope h = elim (Bool-cases (has_scope deciding scope)) [
    | inr closed ↦ rw closed h
    | inl open_now ↦ rw open_now (earliest-IsClosing found scope open_now h)
  ]

  from_keeps :
      (found : Option Instant) (moment : Instant) (scopes : List GuardianScope)
      → at_most found moment ≡ true
      → at_most (decide_by_from born rule deciding found scopes) moment ≡ true
  unfolding decide_by_from
  from_keeps found moment [] h = h
  from_keeps found moment (scope ∷ rest) h =
      from_keeps (next found scope) moment rest (next_keeps found scope moment h)

  -- The moment that is looked for over a list of scopes.
  decide_by_from_lem :
      (found : Option Instant) (scopes : List GuardianScope)
      → IsClosing found
      → IsClosing (decide_by_from born rule deciding found scopes)
        × All
            (λ scope.
              has_scope deciding scope ≡ true
              → at_most (decide_by_from born rule deciding found scopes) (closes_at born rule scope)
                ≡ true)
            scopes
  unfolding decide_by_from
  decide_by_from_lem found [] h = (h, tt)
  decide_by_from_lem found (scope ∷ rest) h =
      let later = decide_by_from_lem (next found scope) rest (next-IsClosing found scope h) in
      (
        later.0,
        (
          λ asked.
              from_keeps (next found scope) (closes_at born rule scope) rest
                (next_covers found scope asked),
          later.1,
        ),
      )

  -- The moment that a handover names is the least at which a scope that is being decided closes: it is
  -- the closing of such a scope, and not after the closing of any other; without such a scope none is
  -- named.
  pub decide_by_least :
      IsClosing (decide_by_from born rule deciding none every_guardian_scope)
      × All
          (λ scope.
            has_scope deciding scope ≡ true
            → at_most
                (decide_by_from born rule deciding none every_guardian_scope)
                (closes_at born rule scope)
              ≡ true)
          every_guardian_scope
  decide_by_least = decide_by_from_lem none every_guardian_scope (inl refl)

-- The age is reached within the day before a moment.
abbrev pub turned : BirthDate → Instant → ℤ → Bool
turned born now years =
    not (not_after (turns_at born years) (record { micros = now.micros -ℤ k_day }))
    && not_after (turns_at born years) now

reached_then :
    (born : BirthDate) (years : ℕ) (moment : Instant) (age : AgeStatus)
    → IsBirthDate born
    → years ≤ 30000
    → age_at born moment ≡ ok age
    → reached age (pos years) ≡ not_after (turns_at born (pos years)) moment
reached_then born years moment age valid small h =
    ap (λ (r : Result AgeStatus). has_reached r (pos years)) (sym h)
    ∙ age_at-turns_at born years moment valid small

-- A threshold is announced exactly on the day on which its age is reached, and of several the last of
-- the list.
pub just_crossed-turned :
    (born : BirthDate) (now : Instant) (yesterday today : AgeStatus) (slots payments grown : ℕ)
    → IsBirthDate born
    → slots ≤ 30000
    → payments ≤ 30000
    → grown ≤ 30000
    → age_at born (record { micros = now.micros -ℤ k_day }) ≡ ok yesterday
    → age_at born now ≡ ok today
    → just_crossed yesterday today (record {
      slots_and_reviews_years = pos slots;
      own_payments_years = pos payments;
      majority_years = pos grown;
    })
      ≡ (if turned born now (pos grown)
          then some majority
          else if turned born now (pos payments)
          then some own_payments
          else if turned born now (pos slots)
          then some slots_and_reviews
          else none)
unfolding just_crossed
just_crossed-turned born now yesterday today slots payments grown valid s p g was is_now =
    let day_before : Instant = record { micros = now.micros -ℤ k_day } in
    rw (
      reached_then born slots day_before yesterday valid s was,
      reached_then born slots now today valid s is_now,
      reached_then born payments day_before yesterday valid p was,
      reached_then born payments now today valid p is_now,
      reached_then born grown day_before yesterday valid g was,
      reached_then born grown now today valid g is_now,
    )
