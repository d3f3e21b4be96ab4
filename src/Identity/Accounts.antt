-- ===== src/Identity/Accounts.antt =====
-- identity/core/account.hpp, account.cpp and auth_lifetimes.cpp: an account and the confirmation of
-- its mail, the limits of signing up, and the lifetimes of what opens an account.
use pdr.Base.{
  ◌≡◌, ap, ℕ, Bool, true, false, not, ◌||◌, Option, none, some, has_value, str_eq_iff,
  if◌then◌else◌, ◌==◌, ltb_ℤ, arith,
}
use pdr.Core.Errors.{Result, ok, refuse, validation, conflict, not_found}
use pdr.Core.Ids.{PersonId}
use pdr.Core.Time.{Instant, Duration, shift, before, is_positive}
use pdr.Identity.Consents.{reached_by}
use pdr.Identity.Tokens.{Digest, same_digest}

pub record Account : Type 0 where
  pub id : PersonId
  pub mail : Digest
  pub confirmed_at : Option Instant
  pub confirmation : Option Digest
  pub confirmation_expires_at : Option Instant
  pub created_at : Instant

unfoldable pub register : PersonId → Digest → Digest → Instant → Duration → Result Account
register id mail confirmation at lifetime =
    if not (is_positive lifetime)
    then refuse validation "confirmation_lifetime_not_positive"
        "ссылка подтверждения нулевой длины срабатывает раньше, чем дойдёт"
    else ok (record {
      id = id;
      mail = mail;
      confirmed_at = none;
      confirmation = some confirmation;
      confirmation_expires_at = some (shift at lifetime);
      created_at = at;
    })

unfoldable pub invite_account : PersonId → Digest → Instant → Account
invite_account id mail at = record {
  id = id;
  mail = mail;
  confirmed_at = some at;
  confirmation = none;
  confirmation_expires_at = none;
  created_at = at;
}

unfoldable pub is_confirmed : Account → Bool
is_confirmed a = has_value a.confirmed_at

-- `!confirmation_.has_value() || !(*confirmation_ == shown)`, negated.
abbrev pub is_shown : Option Digest → Digest → Bool
is_shown none shown = false
is_shown (some expected) shown = same_digest expected shown

unfoldable pub confirmed_by : Account → Digest → Instant → Result Account
unfolding is_confirmed
confirmed_by a shown at =
    if is_confirmed a
    then refuse conflict "account_already_confirmed" "почта уже подтверждена"
    else if not (is_shown a.confirmation shown)
    then refuse not_found "confirmation_unknown" "такой ссылки подтверждения нет"
    else if reached_by a.confirmation_expires_at at
    then refuse conflict "confirmation_expired" "срок ссылки подтверждения вышел"
    else ok
        (record a { confirmed_at = some at; confirmation = none; confirmation_expires_at = none })

pub record SignupLimits : Type 0 where
  pub window : Duration
  pub per_address : ℕ

unfoldable pub compose_signup : Duration → ℕ → Result SignupLimits
compose_signup window per_address =
    if not (is_positive window)
    then refuse validation "signup_window_not_positive" "окно нулевой длины не считает ничего"
    else if per_address == 0
    then refuse validation "signup_limit_too_low"
        "порог в ноль заведений запрещает регистрацию вовсе"
    else ok (record { window = window; per_address = per_address })

pub record AuthLifetimes : Type 0 where
  pub session : Duration
  pub invitation : Duration
  pub password_reset : Duration

unfoldable pub compose_lifetimes : Duration → Duration → Duration → Result AuthLifetimes
compose_lifetimes session invitation password_reset =
    if not (is_positive session)
      || (not (is_positive invitation) || not (is_positive password_reset))
    then refuse validation "auth_lifetime_not_positive"
        "срок, истёкший в момент выдачи, ничего не открывает"
    else if ltb_ℤ invitation password_reset
    then refuse validation "auth_reset_outlives_invitation"
        "ссылка сброса живёт дольше приглашения: у неё риск выше, а срок обязан быть короче"
    else ok (record { session = session; invitation = invitation; password_reset = password_reset })

-- An account that has registered is confirmed exactly by the digest of its own link, shown before
-- the link's end; it is not confirmed before that, and once confirmed no link confirms it again.
pub register-confirmed_by :
    (id : PersonId) (mail confirmation shown : Digest) (at moment : Instant) (lifetime : Duration)
    (a : Account)
    → register id mail confirmation at lifetime ≡ ok a
    → (is_confirmed a ≡ false)
      × ((b : Account)
          → confirmed_by a shown moment ≡ ok b
          → (shown ≡ confirmation)
            × (before moment (shift at lifetime) ≡ true)
            × (is_confirmed b ≡ true)
            × ((again : Digest) (later : Instant)
                → confirmed_by b again later
                  ≡ refuse conflict "account_already_confirmed" "почта уже подтверждена"))
      × (before moment (shift at lifetime) ≡ true
          → (b : Account) × (confirmed_by a confirmation moment ≡ ok b))
unfolding register confirmed_by is_confirmed
register-confirmed_by id mail confirmation shown at moment lifetime a h = (
  ground arith,
  λ b confirmed. (
    ap (λ text. record { value = text })
        (ground (arith, str_eq_iff confirmation.value shown.value)),
    ground arith,
    ground arith,
    λ again later. ground arith,
  ),
  λ in_time. (
    record a { confirmed_at = some moment; confirmation = none; confirmation_expires_at = none },
    ground (arith, str_eq_iff confirmation.value confirmation.value),
  ),
)
