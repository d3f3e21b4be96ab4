-- ===== src/Core/Secrets/Inspection.antt =====
-- verify_secrets.cpp: when the service may start.
use pdr.Base.{
  ◌≡◌, refl, sym, ◌∙◌, ◌↔◌, Bool, true, false, not, ◌&&◌, ◌||◌, List, [], ◌∷◌, ◌++◌, Option, none,
  some, has_value, ap, Option-cases, String, str_eq, arith, Bool-cases, inl, inr,
}
use pdr.Core.Errors.{Error, ok, err, validation}
use pdr.Core.Secrets.{
  SecretSpec, SecretComplaint, Taken, required_now, sharing, weigh, inspect_from, inspect_secrets,
  verify_secrets, verified,
}

abbrev pub is_clean : List SecretComplaint → Bool
is_clean [] = true
is_clean (complaint ∷ rest) = false

-- There is a value, and it is not empty.
abbrev pub is_given : Option String → Bool
is_given none = false
is_given (some value) = not (str_eq value "")

abbrev pub same_value : Option String → Option String → Bool
same_value (some a) (some b) = str_eq a b
same_value (some a) none = false
same_value none b = false

sharing-append :
    (value : String) (taken : List Taken) (t : Taken)
    → has_value (sharing value (taken ++ t ∷ []))
      ≡ has_value (sharing value taken) || str_eq t.value value
unfolding sharing
sharing-append value [] t = ground arith
sharing-append value (first ∷ taken) t = ground (arith, sharing-append value taken t)

module _ (find : String → Option String) where
  -- Every secret that is needed now has a value.
  abbrev pub all_given : List SecretSpec → Bool
  all_given [] = true
  all_given (spec ∷ rest) = (not (required_now spec) || is_given (find spec.name)) && all_given rest

  abbrev pub apart_from : SecretSpec → List SecretSpec → Bool
  apart_from spec [] = true
  apart_from spec (other ∷ rest) =
      not
        (required_now spec && (required_now other && same_value (find spec.name) (find other.name)))
      && apart_from spec rest

  -- No two secrets that are needed now have one value.
  abbrev pub pairwise_apart : List SecretSpec → Bool
  pairwise_apart [] = true
  pairwise_apart (spec ∷ rest) = apart_from spec rest && pairwise_apart rest

  clashes : Option String → List Taken → Bool
  clashes none taken = false
  clashes (some value) taken = has_value (sharing value taken)

  -- No value that is needed now was taken before.
  unshared : List Taken → List SecretSpec → Bool
  unshared taken [] = true
  unshared taken (spec ∷ rest) =
      not (required_now spec && clashes (find spec.name) taken) && unshared taken rest

  clashes-append :
      (o : Option String) (taken : List Taken) (t : Taken)
      → clashes o (taken ++ t ∷ []) ≡ clashes o taken || same_value (some t.value) o
  unfolding clashes
  clashes-append none taken t = refl
  clashes-append (some value) taken t = sharing-append value taken t

  unshared-append :
      (taken : List Taken) (t : Taken) (specs : List SecretSpec)
      → required_now t.spec ≡ true
      → find t.spec.name ≡ some t.value
      → unshared (taken ++ t ∷ []) specs ≡ unshared taken specs && apart_from t.spec specs
  unfolding unshared
  unshared-append taken t [] needed value = refl
  unshared-append taken t (spec ∷ rest) needed value = ground (
    arith,
    needed,
    ap (λ o. same_value o (find spec.name)) value,
    clashes-append (find spec.name) taken t,
    unshared-append taken t rest needed value,
  )

  unshared-nil : (specs : List SecretSpec) → unshared [] specs ≡ true
  unfolding unshared clashes sharing
  unshared-nil [] = refl
  unshared-nil (spec ∷ rest) = elim (Option-cases (find spec.name)) [
    | inl free ↦ ground (arith, unshared-nil rest)
    | inr (value, found) ↦ ground (arith, unshared-nil rest)
  ]

  idle-apart_from :
      (spec : SecretSpec) (rest : List SecretSpec)
      → required_now spec ≡ false
      → apart_from spec rest ≡ true
  idle-apart_from spec [] idle = refl
  idle-apart_from spec (other ∷ rest) idle = ground (arith, idle-apart_from spec rest idle)

  -- A secret that is needed and has a value, which is not empty.
  inspect_given :
      (taken : List Taken) (spec : SecretSpec) (rest : List SecretSpec) (value : String)
      → ((more : List Taken)
          → is_clean (inspect_from find more rest)
            ≡ all_given rest && (unshared more rest && pairwise_apart rest))
      → required_now spec ≡ true
      → find spec.name ≡ some value
      → str_eq value "" ≡ false
      → is_clean (inspect_from find taken (spec ∷ rest))
        ≡ all_given (spec ∷ rest) && (unshared taken (spec ∷ rest) && pairwise_apart (spec ∷ rest))
  unfolding inspect_from weigh unshared clashes
  inspect_given taken spec rest value later needed found full =
      elim (Option-cases (sharing value taken)) [
        | inr (t, clash) ↦ rw (needed, found, full, clash) (ground arith)
        | inl fresh ↦
            rw (needed, found, full, fresh)
              (ground (
                arith,
                needed,
                later (taken ++ record { spec = spec; value = value } ∷ []),
                unshared-append taken (record { spec = spec; value = value }) rest needed found,
              ))
      ]

  inspect_from-is_clean :
      (taken : List Taken) (specs : List SecretSpec)
      → is_clean (inspect_from find taken specs)
        ≡ all_given specs && (unshared taken specs && pairwise_apart specs)
  unfolding inspect_from weigh unshared clashes
  inspect_from-is_clean taken [] = refl
  inspect_from-is_clean taken (spec ∷ rest) =
      let later = λ (more : List Taken). inspect_from-is_clean more rest in
      elim (Bool-cases (required_now spec)) [
        | inr idle ↦ ground (arith, later taken, idle-apart_from spec rest idle)
        | inl needed ↦ elim (Option-cases (find spec.name)) [
          | inl free ↦ rw (needed, free) (ground arith)
          | inr (value, found) ↦ elim (Bool-cases (str_eq value "")) [
            | inl empty ↦ rw (needed, found, empty) (ground arith)
            | inr full ↦ inspect_given taken spec rest value later needed found full
          ]
        ]
      ]

  verified-is_clean :
      (complaints : List SecretComplaint)
      → ((verified find complaints ≡ ok tt) ↔ (is_clean complaints ≡ true))
        × ((e : Error)
            → verified find complaints ≡ err e
            → (e.code ≡ "secrets_incomplete") × (e.kind ≡ validation))
  unfolding verified
  verified-is_clean [] = ((λ h. refl, λ h. refl), λ e h. absurd (ground (arith, h)))
  verified-is_clean (complaint ∷ rest) =
      ((λ h. absurd (ground (arith, h)), λ h. absurd (ground (arith, h))), λ e h. ground (arith, h))

  -- `VerifySecrets` lets the service start exactly where every secret that is needed now has a value,
  -- which is not empty, and no two of them have one; otherwise it refuses with `secrets_incomplete`.
  pub verify_secrets_lem :
      (registry : List SecretSpec)
      → ((verify_secrets find registry ≡ ok tt)
          ↔ (all_given registry && pairwise_apart registry ≡ true))
        × ((e : Error)
            → verify_secrets find registry ≡ err e
            → (e.code ≡ "secrets_incomplete") × (e.kind ≡ validation))
  unfolding verify_secrets inspect_secrets
  verify_secrets_lem registry =
      let clean =
        inspect_from-is_clean [] registry
        ∙ ap (λ b. all_given registry && (b && pairwise_apart registry)) (unshared-nil registry) in
      let ends = verified-is_clean (inspect_from find [] registry) in
      ((λ h. sym clean ∙ ends.0.0 h, λ h. ends.0.1 (clean ∙ h)), ends.1)
