-- ===== src/Http/Handler/Once.antt =====
-- authorized_handler.hpp over any history of requests: an operation under a key is performed once, and
-- its answer is given again. Between two requests other transactions may be committed, and the table
-- may be pruned (db/http/prune.sql).
use mathlib.Core.Option.{some-injective}
use pdr.Base.{
  ◌≡◌, refl, ◌∙◌, ap, sym, subst, Bool, true, false, List, [], ◌∷◌, none, some, str_eq, inl, inr,
  arith, String, if_both, str_eq_iff, Bool-cases, str_eq_refl, ==_refl, ◌&&◌,
}
use pdr.Core.Errors.{ok, err, Result-cases}
use pdr.Core.Ids.{TenantId, same_id}
use pdr.Core.Time.{Instant, not_after, before}
use pdr.Http.Keys.{
  IdempotencyKey, RequestFingerprint, ClaimOutcome, replay, no_answer, expires_from,
}
use pdr.Http.Store.{KeyRow, find_row, is_row, take, take_at, read_row, prune}
use pdr.Http.Store.Rows.{IsSettled, IsFound, find_row-cases, settled_row, read_row-settled}
use pdr.Http.Handler.{
  Caller, Handler, Database, Region, answered, declined, crashed, Served, guarded, plain, produce,
  in_tenant,
}
use pdr.Http.Handler.Guarding.{answer_of, guarded_free, guarded_held}

-- What is committed between two requests. The readings of the clock that prune the table are before a
-- moment `until`; a claim reads the table as some transactions left it.
pub data Step {Data : Type 0} (until : Instant) : Database Data → Database Data → Type 1 where
  by_guarded :
      {Json : Type 0} (handler : Handler Json Data) (seen : List KeyRow) (now : Instant)
      (caller : Caller) (body : Json) (request_id : String) (key : IdempotencyKey)
      (fingerprint : RequestFingerprint) (database : Database Data)
      → IsSettled seen
      → Step until database
          (guarded handler seen now caller body request_id key fingerprint database).1
  by_plain :
      {Json : Type 0} (handler : Handler Json Data) (caller : Caller) (body : Json)
      (request_id : String) (database : Database Data)
      → Step until database (plain handler caller body request_id database).1
  by_pruning :
      (now : Instant) (database : Database Data)
      → before now until ≡ true
      → Step until database (record database { keys = prune now database.keys })

pub data Steps {Data : Type 0} (until : Instant) : Database Data → Database Data → Type 1 where
  here : (database : Database Data) → Steps until database database
  and_then : {a b c : Database Data} → Steps until a b → Step until b c → Steps until a c

prune_free :
    (now : Instant) (tenant : TenantId) (key : IdempotencyKey) (rows : List KeyRow)
    → find_row tenant key rows ≡ none
    → find_row tenant key (prune now rows) ≡ none
unfolding find_row prune
prune_free now tenant key [] free = refl
prune_free now tenant key (row ∷ rows) free = ground (arith, prune_free now tenant key rows)

prune-IsSettled : (now : Instant) (rows : List KeyRow) → IsSettled rows → IsSettled (prune now rows)
unfolding prune
prune-IsSettled now [] h = tt
prune-IsSettled now (row ∷ rows) h = elim (Bool-cases (not_after row.expires_at now)) [
  | inl over ↦ rw over (prune-IsSettled now rows h.3)
  | inr kept ↦
      rw kept (h.0, h.1, prune_free now row.tenant row.key rows h.2, prune-IsSettled now rows h.3)
]

prune_keeps :
    (now : Instant) (tenant : TenantId) (key : IdempotencyKey) (rows : List KeyRow) (row : KeyRow)
    → find_row tenant key rows ≡ some row
    → not_after row.expires_at now ≡ false
    → find_row tenant key (prune now rows) ≡ some row
unfolding find_row prune
prune_keeps now tenant key [] row found alive = found
prune_keeps now tenant key (first ∷ rows) row found alive =
    elim (Bool-cases (is_row tenant key first)) [
      | inl same ↦
          let e : some first ≡ some row = ground (arith, found, same) in
          let stays : not_after first.expires_at now ≡ false =
            ap (λ r. not_after r.expires_at now) (some-injective first row e) ∙ alive in
          rw (stays, same) e
      | inr other ↦
          let rest = prune_keeps now tenant key rows row (ground (arith, found, other)) alive in
          if_both (λ rs. find_row tenant key rs ≡ some row) (not_after first.expires_at now) rest
            (rw other rest)
    ]

-- A request under a key that stands leaves all as it was, whatever its reading part sees, and does not
-- perform anything.
abbrev pub not_performed : Region Served → Bool
not_performed (answered served) = elim served.outcome [ ClaimOutcome.replay ↦ true | _ ↦ false ]
not_performed (declined refusal) = true
not_performed crashed = true

pub guarded_standing :
    {Json Data : Type 0} (handler : Handler Json Data) (seen : List KeyRow) (now : Instant)
    (caller : Caller) (body : Json) (request_id : String) (key : IdempotencyKey)
    (fingerprint : RequestFingerprint) (database : Database Data)
    → IsSettled seen
    → IsFound caller.tenant key database.keys
    → let made = guarded handler seen now caller body request_id key fingerprint database in
      (made.1 ≡ database) × (not_performed made.0 ≡ true)
unfolding guarded take take_at in_tenant read_row
guarded_standing handler seen now caller body request_id key fingerprint database settled at =
    elim (find_row-cases caller.tenant key seen settled) [
      | inl free ↦ rw (at.found, free) (refl, refl)
      | inr before_at ↦
          let read =
            read_row-settled fingerprint before_at.row database.keys before_at.is_completed
              before_at.has_answer in
          elim (Bool-cases (str_eq before_at.row.fingerprint.value fingerprint.value)) [
            | inl same ↦ rw (at.found, before_at.found, read, same) (refl, refl)
            | inr other ↦ rw (at.found, before_at.found, read, other) (refl, refl)
          ]
    ]

guarded-IsSettled :
    {Json Data : Type 0} (handler : Handler Json Data) (seen : List KeyRow) (now : Instant)
    (caller : Caller) (body : Json) (request_id : String) (key : IdempotencyKey)
    (fingerprint : RequestFingerprint) (database : Database Data)
    → IsSettled seen
    → IsSettled database.keys
    → IsSettled (guarded handler seen now caller body request_id key fingerprint database).1.keys
guarded-IsSettled handler seen now caller body request_id key fingerprint database before_it
      settled =
    elim (find_row-cases caller.tenant key database.keys settled) [
      | inl free ↦
          elim (guarded_free handler now caller body request_id key fingerprint seen database
            settled free) [
              | inl (refusal, bad, made) ↦ rw made settled
              | inr (value, after, fine, made) ↦ rw made (refl, refl, free, settled)
            ]
      | inr at ↦
          let stays =
            guarded_standing handler seen now caller body request_id key fingerprint database
              before_it at in
          rw stays.0 settled
    ]

plain_keys :
    {Json Data : Type 0} (handler : Handler Json Data) (caller : Caller) (body : Json)
    (request_id : String) (database : Database Data)
    → (plain handler caller body request_id database).1.keys ≡ database.keys
unfolding plain produce in_tenant
plain_keys handler caller body request_id database =
    elim (Result-cases (handler.run caller body request_id database.data_of)) [
      | inl (pair, fine) ↦ rw fine
      | inr (refusal, bad) ↦ rw bad
    ]

Step-IsSettled :
    {Data : Type 0} {until : Instant} {a b : Database Data}
    → Step until a b
    → IsSettled a.keys
    → IsSettled b.keys
Step-IsSettled
      (by_guarded handler seen now caller body request_id key fingerprint database before_it) h =
    guarded-IsSettled handler seen now caller body request_id key fingerprint database before_it h
Step-IsSettled (by_plain handler caller body request_id database) h =
    rw (plain_keys handler caller body request_id database) h
Step-IsSettled (by_pruning now database soon) h = prune-IsSettled now database.keys h

-- Whatever requests are handled and whenever the table is pruned, each key of the table is completed
-- with an answer, and no practice has a key twice.
pub Steps-IsSettled :
    {Data : Type 0} {until : Instant} {a b : Database Data}
    → Steps until a b
    → IsSettled a.keys
    → IsSettled b.keys
Steps-IsSettled (here database) h = h
Steps-IsSettled (and_then {b = b} steps step) h = Step-IsSettled step (Steps-IsSettled steps h)

same_find :
    (tenant other : TenantId) (key other_key : IdempotencyKey) (rows : List KeyRow)
    → same_id tenant other && str_eq key.value other_key.value ≡ true
    → find_row tenant key rows ≡ find_row other other_key rows
same_find tenant other key other_key rows same =
    let ids : tenant.value ≡ other.value = ground (arith, same) in
    let texts : key.value ≡ other_key.value =
      ground (arith, str_eq_iff key.value other_key.value, same) in
    λ i. find_row (record { value = ids i }) (record { value = texts i }) rows

-- The row of a key outlives every step, where its end is not before that of the steps.
Step-find_row :
    {Data : Type 0} {until : Instant} {a b : Database Data} (tenant : TenantId)
    (key : IdempotencyKey) (row : KeyRow)
    → Step until a b
    → IsSettled a.keys
    → not_after until row.expires_at ≡ true
    → find_row tenant key a.keys ≡ some row
    → find_row tenant key b.keys ≡ some row
unfolding find_row
Step-find_row tenant key row
      (by_guarded handler seen now caller body request_id used fingerprint database before_it) h
      alive found =
    elim (find_row-cases caller.tenant used database.keys h) [
      | inl free ↦
          elim (guarded_free handler now caller body request_id used fingerprint seen database h
            free) [
              | inl (refusal, bad, made) ↦ rw made found
              | inr (value, after, fine, made) ↦
                  elim (Bool-cases (same_id caller.tenant tenant && str_eq used.value key.value)) [
                    | inl same ↦ absurd (
                        ground (
                          arith,
                          same_find caller.tenant tenant used key database.keys same,
                          free,
                          found,
                        ))
                    | inr other ↦ rw (made, other) found
                  ]
            ]
      | inr at ↦
          let stays =
            guarded_standing handler seen now caller body request_id used fingerprint database
              before_it at in
          rw stays.0 found
    ]
Step-find_row tenant key row (by_plain handler caller body request_id database) h alive found =
    rw (plain_keys handler caller body request_id database) found
Step-find_row {until = until} tenant key row (by_pruning now database soon) h alive found =
    prune_keeps now tenant key database.keys row found (ground (arith, soon, alive))

Steps-find_row :
    {Data : Type 0} {until : Instant} {a b : Database Data} (tenant : TenantId)
    (key : IdempotencyKey) (row : KeyRow)
    → Steps until a b
    → IsSettled a.keys
    → not_after until row.expires_at ≡ true
    → find_row tenant key a.keys ≡ some row
    → find_row tenant key b.keys ≡ some row
Steps-find_row tenant key row (here database) h alive found = found
Steps-find_row tenant key row (and_then steps step) h alive found =
    Step-find_row tenant key row step (Steps-IsSettled steps h) alive
      (Steps-find_row tenant key row steps h alive found)

-- What stands for a key after its operation, up to the end of the key.
stands_after :
    {Json Data : Type 0} (first : Handler Json Data) (seen : List KeyRow) (now until : Instant)
    (caller : Caller) (body : Json) (request_id : String) (key : IdempotencyKey)
    (fingerprint : RequestFingerprint) (database after_all : Database Data) (value : Json)
    (result : Data)
    → IsSettled database.keys
    → find_row caller.tenant key database.keys ≡ none
    → first.run caller body request_id database.data_of ≡ ok (value, result)
    → not_after until (expires_from first.lifetime now) ≡ true
    → Steps until
        (guarded first seen now caller body request_id key fingerprint database).1
        after_all
    → find_row caller.tenant key after_all.keys
      ≡ some (
          settled_row caller.tenant key fingerprint
            (expires_from first.lifetime now)
            (answer_of first value))
unfolding find_row
stands_after first seen now until caller body request_id key fingerprint database after_all value
      result settled free fine alive steps =
    elim (guarded_free first now caller body request_id key fingerprint seen database settled
      free) [
        | inl (refusal, bad, made) ↦ absurd (ground (arith, bad, fine))
        | inr (other, after, good, made) ↦
            let row =
              settled_row caller.tenant key fingerprint (expires_from first.lifetime now)
                (answer_of first other) in
            let kept =
              Steps-find_row caller.tenant key row
                (subst (λ pair. Steps until pair.1 after_all) made steps)
                (refl, refl, free, settled) alive
                (rw (==_refl caller.tenant.value, str_eq_refl key.value)) in
            let same : answer_of first other ≡ answer_of first value =
              ap (λ r. elim r [ ok pair ↦ answer_of first pair.0 | err e ↦ no_answer ])
                (sym good ∙ fine) in
            kept
            ∙ ap
                (λ answer. some (
                  settled_row caller.tenant key fingerprint (expires_from first.lifetime now)
                    answer))
                same
      ]

-- After a request whose operation succeeded under a free key, and whatever is handled and pruned before
-- the end of that key, the key gives the first answer again to the same body, from any handler and any
-- person of the practice; and whatever its reading part sees, no request under the key performs an
-- operation or changes anything.
pub guarded_once :
    {Json Data Other : Type 0} (first : Handler Json Data) (again : Handler Other Data)
    (seen earlier : List KeyRow) (now later until : Instant) (caller repeater : Caller)
    (body : Json) (other_body : Other) (request_id other_id : String) (key : IdempotencyKey)
    (fingerprint other_print : RequestFingerprint) (database after_all : Database Data)
    (value : Json) (result : Data)
    → IsSettled database.keys
    → IsSettled earlier
    → find_row caller.tenant key database.keys ≡ none
    → first.run caller body request_id database.data_of ≡ ok (value, result)
    → not_after until (expires_from first.lifetime now) ≡ true
    → Steps until
        (guarded first seen now caller body request_id key fingerprint database).1
        after_all
    → repeater.tenant ≡ caller.tenant
    → (guarded again after_all.keys later repeater other_body other_id key fingerprint after_all
        ≡ (answered (record { outcome = replay; answer = answer_of first value }), after_all))
      × (let made =
            guarded again earlier later repeater other_body other_id key other_print after_all in
          (made.1 ≡ after_all) × (not_performed made.0 ≡ true))
guarded_once first again seen earlier now later until caller repeater body other_body request_id
      other_id key fingerprint other_print database after_all value result settled settled_earlier
      free fine alive steps tenants =
    let stands =
      ap (λ tenant. find_row tenant key after_all.keys) tenants
      ∙ stands_after first seen now until caller body request_id key fingerprint database after_all
          value result settled free fine alive steps in
    let at : IsFound repeater.tenant key after_all.keys = record {
      row = _;
      answer = answer_of first value;
      found = stands;
      is_completed = refl;
      has_answer = refl;
    } in
    (
      guarded_held again later repeater other_body other_id key fingerprint after_all at
          ∙ rw (str_eq_refl fingerprint.value),
      guarded_standing again earlier later repeater other_body other_id key other_print after_all
          settled_earlier at,
    )
