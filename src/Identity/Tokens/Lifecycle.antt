-- ===== src/Identity/Tokens/Lifecycle.antt =====
-- one_time_token.cpp: a link works within its time, and once.
use pdr.Base.{◌≡◌, refl, true, false, Option, some, arith, ◌⊎◌, inl, inr, +ℤ_parts}
use pdr.Core.Errors.{Error, ok, err, Result-cases, refuse, conflict}
use pdr.Core.Ids.{TenantId, PersonId}
use pdr.Core.Time.{Instant, Duration, shift, before}
use pdr.Identity.Roles.{Role}
use pdr.Identity.Tokens.{TokenId, Digest, OneTimeToken, invite, reset_password, is_usable_at, used}

used_refused :
    (token : OneTimeToken) (at : Instant)
    → is_usable_at token at ≡ false
    → (e : Error) × (used token at ≡ err e)
unfolding used is_usable_at
used_refused token at h = elim (Result-cases (used token at)) [
  | inl (after, e) ↦ absurd (ground arith)
  | inr refused ↦ refused
]

-- A link is used exactly when it is usable. Once used it is usable at no moment, is not used again,
-- and is otherwise as it was.
pub used-is_usable_at :
    (token : OneTimeToken) (at : Instant)
    → (is_usable_at token at ≡ false → (e : Error) × (used token at ≡ err e))
      × (is_usable_at token at ≡ true
          → (after : OneTimeToken) × (used token at ≡ ok after)
            × (after ≡ record token { used_at = some at })
            × ((moment : Instant) → is_usable_at after moment ≡ false)
            × ((again : Instant)
                → used after again
                  ≡ refuse conflict "token_already_used" "по этой ссылке уже заходили"))
unfolding used is_usable_at
used-is_usable_at token at = (
  λ h. used_refused token at h,
  λ h. (record token { used_at = some at }, ground arith, refl, λ moment. refl, λ again. refl),
)

-- Both kinds of link are usable from their issue, and at any moment exactly before their end.
pub issued-is_usable_at :
    (id : TokenId) (tenant : TenantId) (secret : Digest) (role : Role) (invited : Option Digest)
    (person : PersonId) (at : Instant) (lifetime : Duration) (token : OneTimeToken)
    → (invite id tenant secret role invited at lifetime ≡ ok token)
      ⊎ (reset_password id tenant secret person at lifetime ≡ ok token)
    → (is_usable_at token at ≡ true)
      × ((moment : Instant) → is_usable_at token moment ≡ before moment (shift at lifetime))
unfolding invite reset_password is_usable_at
issued-is_usable_at id tenant secret role invited person at lifetime token (inl h) =
    (ground (arith, +ℤ_parts at.micros lifetime), λ moment. ground arith)
issued-is_usable_at id tenant secret role invited person at lifetime token (inr h) =
    (ground (arith, +ℤ_parts at.micros lifetime), λ moment. ground arith)
