-- ===== src/Http/Store/Rows.antt =====
-- postgres_idempotency_keys.cpp: tables in which every key is completed, as transactions leave them,
-- and what a claim and a completion do to them.
use pdr.Base.{
  ◌≡◌, refl, ap, Bool-cases, if_not, and_false, ==_refl, str_eq_refl, true, false, List, [], ◌∷◌,
  Option, none, some, has_value, arith, str_eq, ◌⊎◌, inl, inr, if◌then◌else◌,
}
use pdr.Core.Ids.{TenantId}
use pdr.Core.Time.{Instant}
use pdr.Http.Keys.{
  IdempotencyKey, RequestFingerprint, parse_key_state, state_name, SavedAnswer, replay,
}
use pdr.Http.Store.{
  KeyRow, done, rolled, is_row, find_row, read_row, read_state, new_row, is_open, filled,
  complete_rows, rows_affected, complete, key_reused,
}

-- Each row carries an answer, and no two rows have one practice and one key.
abbrev pub IsSettled : List KeyRow → Type 0
IsSettled [] = Unit
IsSettled (row ∷ rows) =
    (row.state ≡ "completed")
    × (has_value row.response ≡ true)
    × (find_row row.tenant row.key rows ≡ none)
    × IsSettled rows

-- The row of a claim that is completed at once.
abbrev pub settled_row :
    TenantId → IdempotencyKey → RequestFingerprint → Instant → SavedAnswer → KeyRow
settled_row tenant key fingerprint expires_at answer =
    filled answer (new_row tenant key fingerprint expires_at)

completed-is_open :
    (tenant : TenantId) (key : IdempotencyKey) (row : KeyRow)
    → row.state ≡ "completed"
    → is_open tenant key row ≡ false
completed-is_open tenant key row h = rw h (and_false (is_row tenant key row))

settled_closed :
    (tenant : TenantId) (key : IdempotencyKey) (rows : List KeyRow)
    → IsSettled rows
    → (rows_affected tenant key rows ≡ 0)
      × ((answer : SavedAnswer) → complete_rows tenant key answer rows ≡ rows)
unfolding rows_affected complete_rows
settled_closed tenant key [] h = (refl, λ answer. refl)
settled_closed tenant key (row ∷ rows) h =
    let rest = settled_closed tenant key rows h.3 in
    let closed = completed-is_open tenant key row h.0 in
    (rw closed rest.0, λ answer. rw closed (ap (λ rs. row ∷ rs) (rest.1 answer)))

-- The completion of a key that was just claimed fills its row and no other.
pub complete-new_row :
    (tenant : TenantId) (key : IdempotencyKey) (fingerprint : RequestFingerprint)
    (expires_at : Instant) (rows : List KeyRow) (answer : SavedAnswer)
    → IsSettled rows
    → complete (new_row tenant key fingerprint expires_at ∷ rows) tenant key answer
      ≡ done tt (settled_row tenant key fingerprint expires_at answer ∷ rows)
unfolding complete rows_affected complete_rows
complete-new_row tenant key fingerprint expires_at rows answer h =
    let rest = settled_closed tenant key rows h in
    rw (==_refl tenant.value, str_eq_refl key.value, rest.0, rest.1 answer)

-- A row of a settled table that is found under a key.
pub record IsFound (tenant : TenantId) (key : IdempotencyKey) (rows : List KeyRow) : Type 0 where
  pub row : KeyRow
  pub answer : SavedAnswer
  pub found : find_row tenant key rows ≡ some row
  pub is_completed : row.state ≡ "completed"
  pub has_answer : row.response ≡ some answer

has_value-some : {A : Type 0} (o : Option A) → has_value o ≡ true → (a : A) × (o ≡ some a)
has_value-some none h = absurd (ground arith)
has_value-some (some a) h = (a, refl)

pub find_row-cases :
    (tenant : TenantId) (key : IdempotencyKey) (rows : List KeyRow)
    → IsSettled rows
    → (find_row tenant key rows ≡ none) ⊎ IsFound tenant key rows
unfolding find_row
find_row-cases tenant key [] h = inl refl
find_row-cases tenant key (row ∷ rows) h = elim (Bool-cases (is_row tenant key row)) [
  | inl same ↦
      let given = has_value-some row.response h.1 in
      inr (record {
        row = row;
        answer = given.0;
        found = rw same;
        is_completed = h.0;
        has_answer = given.1;
      })
  | inr other ↦ elim (find_row-cases tenant key rows h.3) [
    | inl free ↦ inl (rw other free)
    | inr at ↦ inr (record {
      row = at.row;
      answer = at.answer;
      found = rw other at.found;
      is_completed = at.is_completed;
      has_answer = at.has_answer;
    })
  ]
]

-- A settled row is read as a repeat or refused, by its fingerprint.
pub read_row-settled :
    (fingerprint : RequestFingerprint) (row : KeyRow) (rows : List KeyRow) {answer : SavedAnswer}
    → row.state ≡ "completed"
    → row.response ≡ some answer
    → read_row fingerprint (some row) rows ≡ (
        if str_eq row.fingerprint.value fingerprint.value
        then done (record { outcome = replay; answer = answer }) rows
        else rolled key_reused)
unfolding read_row read_state parse_key_state state_name
read_row-settled fingerprint row rows state response =
    rw (state, response) (if_not (str_eq row.fingerprint.value fingerprint.value) _ _)
