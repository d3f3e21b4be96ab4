-- ===== src/Identity/Access/Weigh.antt =====
-- guardian_access.cpp: the three sets that `WeighConsents` gives, each scope of them described by
-- the consents that put it there.
use pdr.Base.{
  ◌≡◌, refl, sym, ◌∙◌, Bool, true, false, not, ◌&&◌, ◌||◌, List, [], ◌∷◌, none, some, +ℤ_parts, All,
  arith,
}
use pdr.Core.Time.{Instant, before, not_after, shift, is_positive}
use pdr.Identity.Scopes.{
  GuardianScope, same_scope, has_scope, has_scope-with_scope, has_scope-no_scopes,
}
use pdr.Identity.Consents.{GuardianConsent, is_active_at, rests_on_guardianship, granted_by_student}
use pdr.Identity.Access.{
  ComesOfAge, MaturityRule, GuardianAccess, no_access, threshold_years, weigh_one, weigh_from,
  weigh_consents,
}

abbrev pub some_consent : (GuardianConsent → Bool) → List GuardianConsent → Bool
some_consent test [] = false
some_consent test (c ∷ cs) = test c || some_consent test cs

-- The student is grown for a scope, and the window after that is over.
abbrev pub is_grown : ComesOfAge → MaturityRule → Instant → GuardianScope → Bool
is_grown none rule now scope = false
is_grown (some turns_at) rule now scope = not (before now (turns_at (threshold_years rule scope)))

abbrev pub is_over : ComesOfAge → MaturityRule → Instant → GuardianScope → Bool
is_over none rule now scope = false
is_over (some turns_at) rule now scope =
    not (before now (shift (turns_at (threshold_years rule scope)) rule.grace))

module _ (turns_at : ComesOfAge) (rule : MaturityRule) (now : Instant) (holds : Bool) where
  -- The consent is in force and is about the scope.
  abbrev pub counts : GuardianScope → GuardianConsent → Bool
  counts x c =
      is_active_at c now && (not (rests_on_guardianship c && not holds) && same_scope c.scope x)

  abbrev pub opens : GuardianScope → GuardianConsent → Bool
  opens x c = counts x c && (granted_by_student c || not (is_over turns_at rule now c.scope))

  abbrev pub in_window : GuardianScope → GuardianConsent → Bool
  in_window x c =
      counts x c
      && (not (granted_by_student c)
          && (is_grown turns_at rule now c.scope && not (is_over turns_at rule now c.scope)))

  abbrev pub lapsed : GuardianScope → GuardianConsent → Bool
  lapsed x c = counts x c && (not (granted_by_student c) && is_over turns_at rule now c.scope)

  -- The three sets of the loop, scope by scope, are at least those of the start.
  abbrev Sets : GuardianScope → GuardianAccess → GuardianAccess → List GuardianConsent → Type 0
  Sets x start end cs =
      (has_scope end.open_scopes x ≡ has_scope start.open_scopes x || some_consent (opens x) cs)
      × (has_scope end.deciding x ≡ has_scope start.deciding x || some_consent (in_window x) cs)
      × (has_scope end.awaits_student x
          ≡ has_scope start.awaits_student x || some_consent (lapsed x) cs)

module _ (turns_at : ComesOfAge) (rule : MaturityRule) (now : Instant) (holds : Bool)
    (positive : is_positive rule.grace ≡ true) where
  weigh_one-Sets :
      (t : ComesOfAge)
      → (x : GuardianScope) (access : GuardianAccess) (c : GuardianConsent)
      → Sets t rule now holds x access (weigh_one t rule now holds c access) (c ∷ [])
  unfolding weigh_one
  weigh_one-Sets none x access c = ground (arith, has_scope-with_scope access.open_scopes c.scope x)
  weigh_one-Sets (some turns) x access c = ground (
    arith,
    has_scope-with_scope access.open_scopes c.scope x,
    has_scope-with_scope access.deciding c.scope x,
    has_scope-with_scope access.awaits_student c.scope x,
    +ℤ_parts (turns (threshold_years rule c.scope)).micros rule.grace,
  )

  weigh_from-Sets :
      (x : GuardianScope) (access : GuardianAccess) (cs : List GuardianConsent)
      → Sets turns_at rule now holds x access (weigh_from turns_at rule now holds access cs) cs
  unfolding weigh_from
  weigh_from-Sets x access [] = ground arith
  weigh_from-Sets x access (c ∷ cs) =
      let first = weigh_one-Sets turns_at x access c in
      let rest = weigh_from-Sets x (weigh_one turns_at rule now holds c access) cs in
      (
        ground (arith, first.0, rest.0),
        ground (arith, first.1, rest.1),
        ground (arith, first.2, rest.2),
      )

  -- A scope is open exactly when some consent for it is in force, holds without the guardianship if
  -- that has ended, and is the student's own or its window is not over. It is marked as awaiting a
  -- decision exactly for such a consent of another within the window, and as lapsed exactly for one
  -- whose window is over. The rule's window has a positive length.
  pub weigh_consents-sets :
      (x : GuardianScope) (cs : List GuardianConsent)
      → let access = weigh_consents turns_at rule now holds cs in
        (has_scope access.open_scopes x ≡ some_consent (opens turns_at rule now holds x) cs)
        × (has_scope access.deciding x ≡ some_consent (in_window turns_at rule now holds x) cs)
        × (has_scope access.awaits_student x ≡ some_consent (lapsed turns_at rule now holds x) cs)
  unfolding weigh_consents
  weigh_consents-sets x cs = ground (arith, weigh_from-Sets x no_access cs, has_scope-no_scopes x)

some_consent_mono :
    (p q : GuardianConsent → Bool) (cs : List GuardianConsent)
    → All (λ c. p c ≡ true → q c ≡ true) cs
    → some_consent p cs ≡ true
    → some_consent q cs ≡ true
some_consent_mono p q [] h e = e
some_consent_mono p q (c ∷ cs) h e = ground (arith, some_consent_mono p q cs h.1, h.0)

module _ (rule : MaturityRule) (now later : Instant) (holds : Bool)
    (ordered : not_after now later ≡ true) where
  is_active_at_mono :
      (c : GuardianConsent)
      → not_after c.granted_at now ≡ true
      → is_active_at c later ≡ true
      → is_active_at c now ≡ true
  unfolding is_active_at
  is_active_at_mono c g h = ground arith

  is_over_mono :
      (t : ComesOfAge) (x : GuardianScope)
      → is_over t rule later x ≡ false
      → is_over t rule now x ≡ false
  is_over_mono none x h = refl
  is_over_mono (some turns_at) x h = ground arith

  opens_mono :
      (t : ComesOfAge) (x : GuardianScope) (cs : List GuardianConsent)
      → All (λ c. not_after c.granted_at now ≡ true) cs
      → All (λ c. opens t rule later holds x c ≡ true → opens t rule now holds x c ≡ true) cs
  opens_mono t x [] g = tt
  opens_mono t x (c ∷ cs) g =
      (λ h. ground (arith, is_active_at_mono c g.0, is_over_mono t c.scope), opens_mono t x cs g.1)

  -- Time alone opens nothing: a scope that the same consents, all given by now, open later is open
  -- now.
  pub weigh_consents_mono :
      (t : ComesOfAge) (x : GuardianScope) (cs : List GuardianConsent)
      → is_positive rule.grace ≡ true
      → All (λ c. not_after c.granted_at now ≡ true) cs
      → has_scope (weigh_consents t rule later holds cs).open_scopes x ≡ true
      → has_scope (weigh_consents t rule now holds cs).open_scopes x ≡ true
  weigh_consents_mono t x cs positive given h =
      (weigh_consents-sets t rule now holds positive x cs).0
      ∙ some_consent_mono (opens t rule later holds x) (opens t rule now holds x) cs
          (opens_mono t x cs given)
          (sym (weigh_consents-sets t rule later holds positive x cs).0 ∙ h)

weigh_one_ended :
    (t : ComesOfAge) (rule : MaturityRule) (now : Instant) (access : GuardianAccess)
    → (c : GuardianConsent) → rests_on_guardianship c ≡ true
    → weigh_one t rule now false c access ≡ access
unfolding weigh_one
weigh_one_ended t rule now access c h = ground arith

weigh_from_ended :
    (t : ComesOfAge) (rule : MaturityRule) (now : Instant) (access : GuardianAccess)
    → (cs : List GuardianConsent) → All (λ c. rests_on_guardianship c ≡ true) cs
    → weigh_from t rule now false access cs ≡ access
unfolding weigh_from
weigh_from_ended t rule now access [] h = refl
weigh_from_ended t rule now access (c ∷ cs) h =
    rw (weigh_one_ended t rule now access c h.0) (weigh_from_ended t rule now access cs h.1)

-- Once the guardianship has ended, the consents that rest on it open nothing, leave nothing in the
-- window and nothing to the student.
pub weigh_consents_ended :
    (t : ComesOfAge) (rule : MaturityRule) (now : Instant) (cs : List GuardianConsent)
    → All (λ c. rests_on_guardianship c ≡ true) cs
    → weigh_consents t rule now false cs ≡ no_access
unfolding weigh_consents
weigh_consents_ended t rule now cs h = weigh_from_ended t rule now no_access cs h
