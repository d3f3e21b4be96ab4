-- ===== src/Identity/Entrance/Tables.antt =====
-- What the use cases of the entrance work on and with: the tables of the adapters, the settings, and
-- the ports of the framework's cryptography. Each use case runs in one transaction of its practice, which
-- is committed where the use case returns, with a value or a refusal, and undone where a statement
-- fails. The accounts of the platform are beside it: each of their statements is committed at once.
use pdr.Base.{ℕ, Bool, List, String}
use pdr.Core.Errors.{Result}
use pdr.Core.Ids.{TenantId}
use pdr.Identity.Tokens.{OneTimeToken, Digest}
use pdr.Identity.Sessions.{Session}
use pdr.Identity.Throttle.{ThrottleLimits}
use pdr.Identity.Accounts.{Account, AuthLifetimes, SignupLimits}
use pdr.Identity.Entrance.Passwords.{Password, PasswordRules, PasswordHash}
use pdr.Identity.Entrance.AttemptStore.{AttemptRow}
use pdr.Identity.Entrance.PeopleStore.{PersonRow, CredentialRow, RoleRow}

pub record Tables : Type 0 where
  pub sessions : List Session
  pub tokens : List OneTimeToken
  pub attempts : List AttemptRow
  pub people : List PersonRow
  pub credentials : List CredentialRow
  pub roles : List RoleRow
  pub accounts : List Account

pub record Services : Type 0 where
  -- `ports::AuthSettings`
  pub passwords : Result PasswordRules
  pub throttle : Result ThrottleLimits
  pub lifetimes : Result AuthLifetimes
  pub signups : Result SignupLimits
  -- `ports::Digests`, `ports::PasswordHasher`, `ToString` of a practice and of a number
  pub digest_of : String → Digest
  pub hash : Password → PasswordRules → Result PasswordHash
  pub matches : Password → PasswordHash → Bool
  pub tenant_text : TenantId → String
  pub shown : ℕ → String

pub data Ending (A : Type 0) : Type 0 where
  returned : Result A → Tables → Ending A
  failed : List Account → Ending A

-- The tables after a use case that began with the first ones.
abbrev pub tables_after : {A : Type 0} → Tables → Ending A → Tables
tables_after before (returned result after) = after
tables_after before (failed accounts) = record before { accounts = accounts }
