-- ===== src/Identity/Sessions.antt =====
-- identity/core/session.hpp and session.cpp: the sessions of the people who have signed in.
pub mod Texts
use pdr.Base.{
  ◌≡◌, Bool, true, false, not, Option, none, some, has_value, if◌then◌else◌, arith, +ℤ_parts,
}
use pdr.Core.Errors.{Result, ok, refuse, validation}
use pdr.Core.Ids.{StrongId, session_tag, TenantId, PersonId}
use pdr.Core.Time.{Instant, Duration, shift, before, is_positive}
use pdr.Identity.Tokens.{Digest}

pub record SessionId : Type 0 where
  pub tenant : TenantId
  pub secret : StrongId session_tag

pub record Fingerprint : Type 0 where
  pub agent : Digest
  pub address : Digest

pub record Session : Type 0 where
  pub id : SessionId
  pub person : PersonId
  pub created_at : Instant
  pub expires_at : Instant
  pub revoked_at : Option Instant
  pub seen : Fingerprint

unfoldable pub open_session :
    SessionId → PersonId → Instant → Duration → Fingerprint → Result Session
open_session id person at lifetime seen =
    if not (is_positive lifetime)
    then refuse validation "session_lifetime_not_positive"
        "сессия, негодная в момент выдачи, — это не сессия"
    else ok (record {
      id = id;
      person = person;
      created_at = at;
      expires_at = shift at lifetime;
      revoked_at = none;
      seen = seen;
    })

unfoldable pub is_usable_at : Session → Instant → Bool
is_usable_at s moment = if has_value s.revoked_at then false else before moment s.expires_at

unfoldable pub revoke : Session → Instant → Session
revoke s at = if has_value s.revoked_at then s else record s { revoked_at = some at }

-- A session that is opened is usable from its start, and at any moment exactly before its end; once
-- revoked it is usable at no moment, and a second revocation changes nothing.
pub open_session-is_usable_at :
    (id : SessionId) (person : PersonId) (at : Instant) (lifetime : Duration) (seen : Fingerprint)
    (s : Session)
    → open_session id person at lifetime seen ≡ ok s
    → (is_usable_at s at ≡ true)
      × ((moment : Instant) → is_usable_at s moment ≡ before moment (shift at lifetime))
      × ((when moment : Instant) → is_usable_at (revoke s when) moment ≡ false)
      × ((when again : Instant) → revoke (revoke s when) again ≡ revoke s when)
unfolding open_session is_usable_at revoke
open_session-is_usable_at id person at lifetime seen s h = (
  ground (arith, +ℤ_parts at.micros lifetime),
  λ moment. ground arith,
  λ when moment. ground arith,
  λ when again. ground arith,
)
