-- ===== src/Http/Handler.antt =====
-- infrastructure/http/authorized_handler.hpp with fingerprint.cpp: the way of a request, from its body
-- to its answer. What an heir of the class fills in, and the framework, the schema, the sessions and
-- the policies that it asks, are the fields of `Handler`.
pub mod Serving
pub mod Guarding
pub mod Once
pub mod Admission
use pdr.Base.{Bool, true, false, not, List, [], ◌∷◌, Option, none, some, String, ℕ, ℤ, pos}
use pdr.Core.Errors.{Error, Result, ok, err}
use pdr.Core.Ids.{TenantId, PersonId}
use pdr.Core.Time.{Instant}
use pdr.Identity.Actions.{Action, Resource, PolicyDecision}
use pdr.Http.Keys.{
  IdempotencyKey, RequestFingerprint, HttpMethod, translate, mutating, parse_key, parse_fingerprint,
  SavedAnswer, ClaimOutcome, taken, replay, in_flight, Claim, KeyLifetime, expires_from,
}
use pdr.Http.Problems.{
  Occasion, Problem, error_as_problem, decision_as_problem, unidentified, malformed, key_required,
  key_in_flight, request_id_of, security_headers,
}
use pdr.Http.Store.{KeyRow, Attempt, done, rolled, broken, take, complete}

pub record Caller : Type 0 where
  pub tenant : TenantId
  pub actor : PersonId

pub record CredentialSource : Type 0 where
  pub cookie : String
  pub header : String

pub record Request : Type 0 where
  pub method : HttpMethod
  pub path : String
  pub body : String
  pub header_of : String → String
  pub cookie_of : String → String

pub record Handler (Json Data : Type 0) : Type 0 where
  -- `Wants`, `About`, `Run`, `lifetime_`; a refusal of `run` comes with no data of its own
  pub wants : Action
  pub about : Caller → Json → Resource
  pub run : Caller → Json → String → Data → Result (Json × Data)
  pub lifetime : KeyLifetime
  -- `RequestSchema::Parse`, with the field that it names
  pub parse : String → Result Json × String
  -- `Callers`
  pub where_from : CredentialSource
  pub identify : String → String → Result Caller
  -- `identity::Contract::Decide`
  pub decide : TenantId → PersonId → Action → Resource → PolicyDecision
  -- `formats::json::ToString`, `Render`, SHA-256 in lower case
  pub to_string : Json → String
  pub render : Problem → String
  pub sha256 : String → String

pub record Response : Type 0 where
  pub status : ℤ
  pub headers : List (String × String)
  pub body : String

-- The data of a practice and the keys beside them.
pub record Database (Data : Type 0) : Type 0 where
  pub keys : List KeyRow
  pub data_of : Data

-- How the region of a practice ends.
pub data Region (A : Type 0) : Type 0 where
  answered : A → Region A
  declined : Error → Region A
  crashed : Region A

pub record Served : Type 0 where
  pub outcome : ClaimOutcome
  pub answer : SavedAnswer

-- `InTenant` with the handling of `Rollback`: the work is committed where it ends by a value, and
-- otherwise the data stay as they were.
unfoldable pub in_tenant :
    {Data A : Type 0} → Attempt (Database Data) A → Database Data → Region A × Database Data
in_tenant (done a after) database = (answered a, after)
in_tenant (rolled refusal) database = (declined refusal, database)
in_tenant broken database = (crashed, database)

module _ {Json Data : Type 0} (handler : Handler Json Data) where
  open handler use {to_string, run}

  produced : Result (Json × Data) → Attempt Data SavedAnswer
  produced (ok (value, data_after)) =
      done (record { status = pos 200; body = to_string value }) data_after
  produced (err refusal) = rolled refusal

  -- `Produce`.
  unfoldable pub produce : Caller → Json → String → Data → Attempt Data SavedAnswer
  unfolding produced
  produce caller body request_id data_of = produced (run caller body request_id data_of)

  plainly : Attempt Data SavedAnswer → List KeyRow → Attempt (Database Data) Served
  plainly (done answer after) keys =
      done (record { outcome = taken; answer = answer }) (record { keys = keys; data_of = after })
  plainly (rolled refusal) keys = rolled refusal
  plainly broken keys = broken

  unfoldable pub plain : Caller → Json → String → Database Data → Region Served × Database Data
  unfolding produce plainly in_tenant
  plain caller body request_id database =
      in_tenant (plainly (produce caller body request_id database.data_of) database.keys) database

  -- After `Complete`.
  completed_by : SavedAnswer → Data → Attempt (List KeyRow) Unit → Attempt (Database Data) Served
  completed_by answer after (done u keys) =
      done (record { outcome = taken; answer = answer }) (record { keys = keys; data_of = after })
  completed_by answer after (rolled refusal) = rolled refusal
  completed_by answer after broken = broken

  -- After `Produce`.
  closing :
      TenantId
      → IdempotencyKey
      → List KeyRow
      → Attempt Data SavedAnswer
      → Attempt (Database Data) Served
  unfolding completed_by complete
  closing tenant key keys (done answer after) =
      completed_by answer after (complete keys tenant key answer)
  closing tenant key keys (rolled refusal) = rolled refusal
  closing tenant key keys broken = broken

  -- After `Take`.
  claimed :
      Caller
      → Json
      → String
      → IdempotencyKey
      → Data
      → Attempt (List KeyRow) Claim
      → Attempt (Database Data) Served
  unfolding closing produce
  claimed caller body request_id key data_of (rolled refusal) = rolled refusal
  claimed caller body request_id key data_of broken = broken
  claimed caller body request_id key data_of (done claim keys) = elim claim.outcome [
    | ClaimOutcome.taken ↦ closing caller.tenant key keys (produce caller body request_id data_of)
    | _ ↦
        done (record { outcome = claim.outcome; answer = claim.answer })
          (record { keys = keys; data_of = data_of })
  ]

  -- `Guarded`, where the reading part of the claim sees `seen`.
  unfoldable pub guarded :
      List KeyRow
      → Instant
      → Caller
      → Json
      → String
      → IdempotencyKey
      → RequestFingerprint
      → Database Data
      → Region Served × Database Data
  unfolding claimed take in_tenant expires_from
  guarded seen now caller body request_id key fingerprint database =
      in_tenant
        (claimed caller body request_id key database.data_of (
          take seen database.keys caller.tenant key fingerprint
            (expires_from handler.lifetime now)))
        database
