-- ===== src/Identity/Tokens.antt =====
-- identity/core/one_time_token.hpp and one_time_token.cpp: the links that work once. A digest is the
-- text of it, which the adapters compute.
pub mod Lifecycle
use Prim.Native.String.{len, ◌++◌}
use pdr.Base.{
  ℕ, ltb, leb, ◌==◌, ◌&&◌, ◌||◌, every_char, ◌≡◌, Bool, true, false, not, Option, none, some,
  has_value, String, str_eq, if◌then◌else◌, ◌+ℤ◌,
}
use pdr.Core.Errors.{Result, ok, err, refuse, validation, conflict}
use pdr.Core.Ids.{StrongId, token_tag, TenantId, PersonId}
use pdr.Core.Time.{Instant, Duration, shift, before, not_after, is_positive}
use pdr.Identity.Roles.{Role}

abbrev pub TokenId : Type 0
TokenId = StrongId token_tag

-- `Digest`: its text.
pub record Digest : Type 0 where
  pub value : String

abbrev pub same_digest : Digest → Digest → Bool
same_digest a b = str_eq a.value b.value

-- `IsLowerHex` and `Digest::Parse`; `shown` is `std::to_string`, in the refusal's text only.
abbrev is_lower_hex : ℕ → Bool
is_lower_hex symbol = (leb b'0' symbol && leb symbol b'9') || (leb b'a' symbol && leb symbol b'f')

unfoldable pub parse_digest : (ℕ → String) → String → Result Digest
parse_digest shown text =
    if not (len text == 64)
    then refuse validation "digest_malformed"
        ("отпечаток SHA-256 — ровно 64 знака, пришло " ++ shown (len text))
    else if not (every_char is_lower_hex text)
    then refuse validation "digest_malformed"
        "отпечаток записывается строчными шестнадцатеричными знаками"
    else ok (record { value = text })

-- `TokenSecret`, the text of a link.
pub record TokenSecret : Type 0 where
  pub value : String

abbrev pub is_base64_url : ℕ → Bool
is_base64_url symbol =
    (leb b'0' symbol && leb symbol b'9')
    || ((leb b'a' symbol && leb symbol b'z')
        || ((leb b'A' symbol && leb symbol b'Z') || (symbol == b'-' || symbol == b'_')))

unfoldable pub parse_secret : String → Result TokenSecret
parse_secret text =
    if ltb (len text) 43
    then refuse validation "token_secret_too_short"
        "в ссылке меньше 43 знаков: такую подбирают перебором"
    else if not (every_char is_base64_url text)
    then refuse validation "token_secret_malformed"
        "секрет ссылки записывается base64url без набивки"
    else ok (record { value = text })

pub data TokenPurpose : Type 0 where
  invitation password_reset : TokenPurpose

unfoldable pub purpose_name : TokenPurpose → String
purpose_name invitation = "invitation"
purpose_name password_reset = "password_reset"

unfoldable pub parse_token_purpose : String → Option TokenPurpose
parse_token_purpose text =
    if str_eq text "invitation"
    then some invitation
    else if str_eq text "password_reset"
    then some password_reset
    else none

pub record OneTimeToken : Type 0 where
  pub id : TokenId
  pub tenant : TenantId
  pub secret : Digest
  pub purpose : TokenPurpose
  pub role : Option Role
  pub person : Option PersonId
  pub invited : Option Digest
  pub created_at : Instant
  pub expires_at : Instant
  pub used_at : Option Instant

abbrev lifetime_not_positive : Result OneTimeToken
lifetime_not_positive =
    refuse validation "token_lifetime_not_positive"
      "ссылка, просроченная в момент выдачи, — это не ссылка"

unfoldable pub invite :
    TokenId → TenantId → Digest → Role → Option Digest → Instant → Duration → Result OneTimeToken
invite id tenant secret role invited at lifetime =
    if not (is_positive lifetime)
    then lifetime_not_positive
    else ok (record {
      id = id;
      tenant = tenant;
      secret = secret;
      purpose = invitation;
      role = some role;
      person = none;
      invited = invited;
      created_at = at;
      expires_at = shift at lifetime;
      used_at = none;
    })

unfoldable pub reset_password :
    TokenId → TenantId → Digest → PersonId → Instant → Duration → Result OneTimeToken
reset_password id tenant secret person at lifetime =
    if not (is_positive lifetime)
    then lifetime_not_positive
    else ok (record {
      id = id;
      tenant = tenant;
      secret = secret;
      purpose = password_reset;
      role = none;
      person = some person;
      invited = none;
      created_at = at;
      expires_at = shift at lifetime;
      used_at = none;
    })

unfoldable pub is_usable_at : OneTimeToken → Instant → Bool
is_usable_at token moment =
    if has_value token.used_at then false else before moment token.expires_at

unfoldable pub used : OneTimeToken → Instant → Result OneTimeToken
used token at =
    if has_value token.used_at
    then refuse conflict "token_already_used" "по этой ссылке уже заходили"
    else if not_after token.expires_at at
    then refuse conflict "token_expired" "срок ссылки вышел"
    else ok (record token { used_at = some at })
