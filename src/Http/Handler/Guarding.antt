-- ===== src/Http/Handler/Guarding.antt =====
-- authorized_handler.hpp: what `Guarded` promises, as a step on a book of answers, and that it keeps
-- the promise.
use pdr.Base.{
  ◌≡◌, ◌&&◌, List, ◌∷◌, Option, none, some, str_eq, ◌⊎◌, inl, inr, pos, if◌then◌else◌, String,
  Bool-cases,
}
use pdr.Core.Errors.{Error, Result, ok, err, Result-cases}
use pdr.Core.Ids.{TenantId, same_id}
use pdr.Core.Time.{Instant}
use pdr.Http.Keys.{IdempotencyKey, RequestFingerprint, SavedAnswer, taken, replay, expires_from}
use pdr.Http.Store.{KeyRow, find_row, take, take_at, key_reused}
use pdr.Http.Store.Rows.{
  IsSettled, IsFound, find_row-cases, complete-new_row, settled_row, read_row-settled,
}
use pdr.Http.Handler.{
  Caller, Handler, Database, Region, answered, declined, Served, guarded, produce, in_tenant,
}

-- The answers given so far, by practice and key, and the data of the practices.
pub record Book (Data : Type 0) : Type 0 where
  pub answer_for : TenantId → IdempotencyKey → Option (RequestFingerprint × SavedAnswer)
  pub data_of : Data

abbrev entry_of : Option KeyRow → Option (RequestFingerprint × SavedAnswer)
entry_of none = none
entry_of (some row) = elim row.response [
  | none ↦ none
  | some answer ↦ some (row.fingerprint, answer)
]

abbrev pub book_of : {Data : Type 0} → Database Data → Book Data
book_of database = record {
  answer_for = λ tenant key. entry_of (find_row tenant key database.keys);
  data_of = database.data_of;
}

abbrev remember :
    {Data : Type 0}
    → TenantId
    → IdempotencyKey
    → RequestFingerprint
    → SavedAnswer
    → Data
    → Book Data
    → Book Data
remember tenant key fingerprint answer after book = record {
  answer_for = λ other_tenant other_key.
      if same_id tenant other_tenant && str_eq key.value other_key.value
      then some (fingerprint, answer)
      else book.answer_for other_tenant other_key;
  data_of = after;
}

entry-settled_row :
    (tenant : TenantId) (key : IdempotencyKey) (fingerprint : RequestFingerprint) (until : Instant)
    (answer : SavedAnswer) (rows : List KeyRow) (other : TenantId) (other_key : IdempotencyKey)
    → entry_of (find_row other other_key (settled_row tenant key fingerprint until answer ∷ rows))
      ≡ (if same_id tenant other && str_eq key.value other_key.value
          then some (fingerprint, answer)
          else entry_of (find_row other other_key rows))
unfolding find_row
entry-settled_row tenant key fingerprint until answer rows other other_key =
    elim (Bool-cases (same_id tenant other && str_eq key.value other_key.value)) [
      | inl same ↦ rw same
      | inr different ↦ rw different
    ]

module _ {Json Data : Type 0} (handler : Handler Json Data) where
  abbrev pub answer_of : Json → SavedAnswer
  answer_of value = record { status = pos 200; body = handler.to_string value }

  -- The operation performed, and its answer remembered; a refusal changes nothing.
  abbrev pub performed :
      Caller
      → IdempotencyKey
      → RequestFingerprint
      → Result (Json × Data)
      → Book Data
      → Region Served × Book Data
  performed caller key fingerprint (ok (value, after)) book = (
    answered (record { outcome = taken; answer = answer_of value }),
    remember caller.tenant key fingerprint (answer_of value) after book,
  )
  performed caller key fingerprint (err refusal) book = (declined refusal, book)

  -- The promise: a key that is free is performed; a key that has an answer gives that answer again to
  -- the same body, and refuses another one.
  abbrev pub promised_at :
      Caller
      → Json
      → String
      → IdempotencyKey
      → RequestFingerprint
      → Book Data
      → Option (RequestFingerprint × SavedAnswer)
      → Region Served × Book Data
  promised_at caller body request_id key fingerprint book none =
      performed caller key fingerprint (handler.run caller body request_id book.data_of) book
  promised_at caller body request_id key fingerprint book (some (first, answer)) =
      if str_eq first.value fingerprint.value
      then (answered (record { outcome = replay; answer = answer }), book)
      else (declined key_reused, book)

  abbrev pub promised :
      Caller
      → Json
      → String
      → IdempotencyKey
      → RequestFingerprint
      → Book Data
      → Region Served × Book Data
  promised caller body request_id key fingerprint book =
      promised_at caller body request_id key fingerprint book (book.answer_for caller.tenant key)

  module _ (now : Instant) (caller : Caller) (body : Json) (request_id : String)
      (key : IdempotencyKey) (fingerprint : RequestFingerprint) where
    -- A key that is free: refused by the operation, or performed and kept.
    pub guarded_free :
        (seen : List KeyRow) (database : Database Data)
        → IsSettled database.keys
        → find_row caller.tenant key database.keys ≡ none
        → ((refusal : Error) × (handler.run caller body request_id database.data_of ≡ err refusal)
            × (guarded handler seen now caller body request_id key fingerprint database
                ≡ (declined refusal, database)))
          ⊎ ((value : Json) × (after : Data) × (handler.run caller body request_id database.data_of
                ≡ ok (value, after))
              × (guarded handler seen now caller body request_id key fingerprint database ≡ (
                answered (record { outcome = taken; answer = answer_of value }),
                record {
                  keys =
                      settled_row caller.tenant key fingerprint
                        (expires_from handler.lifetime now)
                        (answer_of value)
                      ∷ database.keys;
                  data_of = after;
                },
              )))
    unfolding guarded take produce in_tenant
    guarded_free seen database settled free =
        let until = expires_from handler.lifetime now in
        elim (Result-cases (handler.run caller body request_id database.data_of)) [
          | inl ((value, after), fine) ↦
              let closed =
                complete-new_row caller.tenant key fingerprint until database.keys (answer_of value)
                  settled in
              inr (value, after, fine, rw (free, fine, closed))
          | inr (refusal, bad) ↦ inl (refusal, bad, rw (free, bad))
        ]

    -- A key that has an answer gives it again, or refuses another body.
    pub guarded_held :
        (database : Database Data) (at : IsFound caller.tenant key database.keys)
        → guarded handler database.keys now caller body request_id key fingerprint database ≡ (
          (if str_eq at.row.fingerprint.value fingerprint.value
              then answered (record { outcome = replay; answer = at.answer })
              else declined key_reused),
          database,
        )
    unfolding guarded take take_at in_tenant
    guarded_held database at =
        let settled =
          read_row-settled fingerprint at.row database.keys at.is_completed at.has_answer in
        elim (Bool-cases (str_eq at.row.fingerprint.value fingerprint.value)) [
          | inl same ↦ rw (at.found, at.found, settled, same)
          | inr other ↦ rw (at.found, at.found, settled, other)
        ]

    -- On a table of completed keys, and where no other transaction is committed meanwhile, the
    -- handler answers as the promise says, and leaves the book of answers and the data of the
    -- practice as the promise does.
    pub guarded-promised :
        (database : Database Data)
        → IsSettled database.keys
        → let (region, after) =
            guarded handler database.keys now caller body request_id key fingerprint database in
          (region, book_of after)
          ≡ promised caller body request_id key fingerprint (book_of database)
    guarded-promised database settled =
        elim (find_row-cases caller.tenant key database.keys settled) [
          | inl free ↦ elim (guarded_free database.keys database settled free) [
            | inl (refusal, bad, made) ↦ rw (made, free, bad)
            | inr (value, after, fine, made) ↦
                rw (made, free, fine)
                  (λ i. (
                    answered (record { outcome = taken; answer = answer_of value }),
                    record {
                      answer_for = λ tenant other.
                          entry-settled_row caller.tenant key fingerprint
                            (expires_from handler.lifetime now) (answer_of value) database.keys
                            tenant other i;
                      data_of = after;
                    },
                  ))
          ]
          | inr at ↦ elim (Bool-cases (str_eq at.row.fingerprint.value fingerprint.value)) [
            | inl same ↦ rw (guarded_held database at, at.found, at.has_answer, same)
            | inr other ↦ rw (guarded_held database at, at.found, at.has_answer, other)
          ]
        ]
