-- ===== src/Examples/Entrance.antt =====
-- Signing up, signing in, links and sessions.
use pdr.Base.{◌≡◌, refl, true, List, [], ◌∷◌, none, some, pos, ◌+ℤ◌, All}
use pdr.Core.Errors.{ok}
use pdr.Core.Time.{Instant, Duration}
use pdr.Identity.Roles.{guardian}
use pdr.Identity.Throttle.{AttemptWindow}
use pdr.Identity.Throttle.Blocking.{is_within}
use pdr.Identity.Tokens.{Digest, OneTimeToken, invitation, invite}
use pdr.Identity.Accounts.{Account, register}
use pdr.Examples.People.{practice, parent, moment}

abbrev minute : Duration
minute = pos 60000000

abbrev window : AttemptWindow
window = record { started_at = moment (pos 0); attempts = 1 }

abbrev tries : List Instant
tries = moment (pos 1000) ∷ moment (pos 2000) ∷ []

within : All (λ at. is_within window minute at ≡ true) tries
unfolding ◌+ℤ◌
within = (refl, (refl, tt))

abbrev secret : Digest
secret = record { value = "5e884898" }

abbrev link : OneTimeToken
link = record {
  id = record { value = 7 };
  tenant = practice;
  secret = secret;
  purpose = invitation;
  role = some guardian;
  person = none;
  invited = none;
  created_at = moment (pos 0);
  expires_at = moment (pos 60000000);
  used_at = none;
}

invited :
    invite (record { value = 7 }) practice secret guardian none (moment (pos 0)) minute ≡ ok link
unfolding invite ◌+ℤ◌
invited = refl

abbrev fresh : Account
fresh = record {
  id = parent;
  mail = secret;
  confirmed_at = none;
  confirmation = some secret;
  confirmation_expires_at = some (moment (pos 60000000));
  created_at = moment (pos 0);
}

signed_up : register parent secret secret (moment (pos 0)) minute ≡ ok fresh
unfolding register ◌+ℤ◌
signed_up = refl
