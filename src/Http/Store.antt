-- ===== src/Http/Store.antt =====
-- infrastructure/http/postgres_idempotency_keys.cpp: the table of the keys, and the claim and the
-- completion of a key as its statements make them. The key of the table is the pair of practice and
-- key (db/migrations/V010__idempotency.sql), and a session sees the rows of its own practice.
--
-- A claim is one statement of two parts. The insertion looks at the table as it stands, after it has
-- waited for any other transaction that inserts the same key; the reading part sees the table as it
-- was when the statement began. The two are the same unless another transaction was committed in
-- between, so `take` has both.
pub mod Rows
use pdr.Base.{
  Bool, not, ◌&&◌, List, [], ◌∷◌, Option, none, some, String, str_eq, if◌then◌else◌, ℕ, suc, ◌==◌,
}
use pdr.Core.Errors.{Error, conflict}
use pdr.Core.Ids.{TenantId, same_id}
use pdr.Core.Time.{Instant, not_after}
use pdr.Http.Keys.{
  IdempotencyKey, RequestFingerprint, KeyState, in_progress, completed, parse_key_state,
  SavedAnswer, no_answer, Claim, taken, replay, in_flight,
}

-- A row; the two columns of the answer are filled together.
pub record KeyRow : Type 0 where
  pub tenant : TenantId
  pub key : IdempotencyKey
  pub fingerprint : RequestFingerprint
  pub state : String
  pub response : Option SavedAnswer
  pub expires_at : Instant

-- What a piece of work in a transaction comes to: a value and the changed data, a refusal that the
-- code throws to roll back, or a failure that it throws as a fault.
pub data Attempt (S : Type 0) (A : Type 0) : Type 0 where
  done : A → S → Attempt S A
  rolled : Error → Attempt S A
  broken : Attempt S A

abbrev pub is_row : TenantId → IdempotencyKey → KeyRow → Bool
is_row tenant key row = same_id row.tenant tenant && str_eq row.key.value key.value

unfoldable pub find_row : TenantId → IdempotencyKey → List KeyRow → Option KeyRow
find_row tenant key [] = none
find_row tenant key (row ∷ rows) =
    if is_row tenant key row then some row else find_row tenant key rows

-- The answer for a key that another request has, from its state and the columns of the answer.
unfoldable pub read_state :
    Option KeyState → Option SavedAnswer → List KeyRow → Attempt (List KeyRow) Claim
read_state none response rows = broken
read_state (some in_progress) response rows =
    done (record { outcome = in_flight; answer = no_answer }) rows
read_state (some completed) none rows = broken
read_state (some completed) (some answer) rows =
    done (record { outcome = replay; answer = answer }) rows
read_state (some KeyState.boundary) none rows = broken
read_state (some KeyState.boundary) (some answer) rows =
    done (record { outcome = replay; answer = answer }) rows

abbrev pub key_reused : Error
key_reused = record {
  kind = conflict;
  code = "idempotency_key_reused";
  detail =
      "этот ключ уже занят запросом с другим телом. Это ошибка клиента, а не повтор: возьмите новый ключ";
}

unfoldable pub read_row :
    RequestFingerprint → Option KeyRow → List KeyRow → Attempt (List KeyRow) Claim
unfolding read_state
read_row fingerprint none rows = broken
read_row fingerprint (some row) rows =
    if not (str_eq row.fingerprint.value fingerprint.value)
    then rolled key_reused
    else read_state (parse_key_state row.state) row.response rows

abbrev pub new_row : TenantId → IdempotencyKey → RequestFingerprint → Instant → KeyRow
new_row tenant key fingerprint expires_at = record {
  tenant = tenant;
  key = key;
  fingerprint = fingerprint;
  state = "in_progress";
  response = none;
  expires_at = expires_at;
}

-- `kClaim` and `Take`, by what the insertion meets.
unfoldable pub take_at :
    List KeyRow
    → List KeyRow
    → TenantId
    → IdempotencyKey
    → RequestFingerprint
    → Instant
    → Option KeyRow
    → Attempt (List KeyRow) Claim
unfolding read_row
take_at seen stands tenant key fingerprint expires_at none =
    done (record { outcome = taken; answer = no_answer })
      (new_row tenant key fingerprint expires_at ∷ stands)
take_at seen stands tenant key fingerprint expires_at (some row) =
    read_row fingerprint (find_row tenant key seen) stands

unfoldable pub take :
    List KeyRow
    → List KeyRow
    → TenantId
    → IdempotencyKey
    → RequestFingerprint
    → Instant
    → Attempt (List KeyRow) Claim
unfolding take_at
take seen stands tenant key fingerprint expires_at =
    take_at seen stands tenant key fingerprint expires_at (find_row tenant key stands)

-- `kComplete`: the rows of the key that are in progress get the answer; `rows_affected` counts them.
abbrev pub is_open : TenantId → IdempotencyKey → KeyRow → Bool
is_open tenant key row = is_row tenant key row && str_eq row.state "in_progress"

abbrev pub filled : SavedAnswer → KeyRow → KeyRow
filled answer row = record row { state = "completed"; response = some answer }

unfoldable pub complete_rows : TenantId → IdempotencyKey → SavedAnswer → List KeyRow → List KeyRow
complete_rows tenant key answer [] = []
complete_rows tenant key answer (row ∷ rows) =
    (if is_open tenant key row then filled answer row else row)
    ∷ complete_rows tenant key answer rows

unfoldable pub rows_affected : TenantId → IdempotencyKey → List KeyRow → ℕ
rows_affected tenant key [] = 0
rows_affected tenant key (row ∷ rows) =
    if is_open tenant key row
    then suc (rows_affected tenant key rows)
    else rows_affected tenant key rows

unfoldable pub complete :
    List KeyRow → TenantId → IdempotencyKey → SavedAnswer → Attempt (List KeyRow) Unit
unfolding complete_rows rows_affected
complete rows tenant key answer =
    if not (rows_affected tenant key rows == 1)
    then broken
    else done tt (complete_rows tenant key answer rows)

-- db/http/prune.sql.
unfoldable pub prune : Instant → List KeyRow → List KeyRow
prune now [] = []
prune now (row ∷ rows) =
    if not_after row.expires_at now then prune now rows else row ∷ prune now rows
