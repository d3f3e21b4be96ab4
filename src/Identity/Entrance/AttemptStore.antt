-- ===== src/Identity/Entrance/AttemptStore.antt =====
-- identity/infrastructure/auth/postgres_login_attempts.cpp: the table of the attempts. Its column of
-- attempts is a signed integer of 32 bits, whose overflow is a failure of the statement.
use pdr.Base.{
  ◌≡◌, refl, ap, ◌∙◌, Bool, true, false, not, ◌&&◌, List, [], ◌∷◌, Option, none, some, ◌+◌, ◌^◌,
  ltb, if◌then◌else◌, Bool-cases, str_eq_iff, str_eq_refl, if_idle, if_same, if_swap, sym, inl, inr,
  arith, ==_refl, pos, ◌-ℤ◌, +ℤ_parts, -ℤ_parts,
}
use pdr.Core.Ids.{TenantId, same_id}
use pdr.Core.Time.{Instant, Duration, shift, not_after, from_unix_micros}
use pdr.Identity.Tokens.{Digest, same_digest}
use pdr.Identity.Throttle.{
  AttemptSubject, account, address, AttemptWindow, registered, is_blocked_at,
}

-- What an attempt is counted by: the key of the table.
pub record Counter : Type 0 where
  pub tenant : TenantId
  pub subject : AttemptSubject
  pub of : Digest

pub record AttemptRow : Type 0 where
  pub counter : Counter
  pub window : AttemptWindow

abbrev pub same_subject : AttemptSubject → AttemptSubject → Bool
same_subject account account = true
same_subject account address = false
same_subject address account = false
same_subject address address = true

abbrev pub same_counter : Counter → Counter → Bool
same_counter a b =
    same_id a.tenant b.tenant && (same_subject a.subject b.subject && same_digest a.of b.of)

-- The update of `kRegister`; `expired` is the moment up to which a window that began has passed.
unfoldable pub register_row : Instant → Instant → AttemptWindow → Option AttemptWindow
register_row at expired w =
    if not_after w.started_at expired
    then some (record { started_at = at; attempts = 1 })
    else if ltb (w.attempts + 1) (2 ^ 31)
    then some (record { started_at = w.started_at; attempts = w.attempts + 1 })
    else none

-- The statement fails where the counter of its row is full.
updated : AttemptRow → List AttemptRow → Option AttemptWindow → Option (List AttemptRow)
updated row rows none = none
updated row rows (some w) = some (record row { window = w } ∷ rows)

beside : AttemptRow → Option (List AttemptRow) → Option (List AttemptRow)
beside row none = none
beside row (some rows) = some (row ∷ rows)

unfoldable pub register_at :
    Counter → Instant → Instant → List AttemptRow → Option (List AttemptRow)
unfolding updated beside
register_at counter at expired [] =
    some (record { counter = counter; window = record { started_at = at; attempts = 1 } } ∷ [])
register_at counter at expired (row ∷ rows) =
    let rest = beside row (register_at counter at expired rows) in
    if same_counter row.counter counter
    then updated row rows (register_row at expired row.window)
    else rest

-- `at - window`.
abbrev pub expired_by : Instant → Duration → Instant
expired_by at window = record { micros = at.micros -ℤ window }

-- `Register`.
unfoldable pub register_attempt :
    Counter → Instant → Duration → List AttemptRow → Option (List AttemptRow)
unfolding register_at
register_attempt counter at window rows = register_at counter at (expired_by at window) rows

unfoldable pub find_counter : Counter → List AttemptRow → Option AttemptWindow
find_counter counter [] = none
find_counter counter (row ∷ rows) =
    if same_counter row.counter counter then some row.window else find_counter counter rows

abbrev pub no_attempts : AttemptWindow
no_attempts = record { started_at = from_unix_micros (pos 0); attempts = 0 }

abbrev pub window_or_none : Option AttemptWindow → AttemptWindow
window_or_none none = no_attempts
window_or_none (some w) = w

-- `Seen`.
unfoldable pub seen : Counter → List AttemptRow → AttemptWindow
unfolding find_counter
seen counter rows = window_or_none (find_counter counter rows)

-- `Forget`.
unfoldable pub forget : Counter → List AttemptRow → List AttemptRow
forget counter [] = []
forget counter (row ∷ rows) =
    let rest = forget counter rows in if same_counter row.counter counter then rest else row ∷ rest

same_subject_sound : (a b : AttemptSubject) → same_subject a b ≡ true → a ≡ b
same_subject_sound account account h = refl
same_subject_sound account address h = absurd (ground arith)
same_subject_sound address account h = absurd (ground arith)
same_subject_sound address address h = refl

same_counter_sound : (a b : Counter) → same_counter a b ≡ true → a ≡ b
same_counter_sound a b h =
    let tenants : a.tenant.value ≡ b.tenant.value = ground (arith, h) in
    let subjects = same_subject_sound a.subject b.subject (ground (arith, h)) in
    let texts : a.of.value ≡ b.of.value = ground (arith, h, str_eq_iff a.of.value b.of.value) in
    λ i. record {
      tenant = record { value = tenants i };
      subject = subjects i;
      of = record { value = texts i };
    }

same_subject_refl : (a : AttemptSubject) → same_subject a a ≡ true
same_subject_refl account = refl
same_subject_refl address = refl

pub same_counter_refl : (a : Counter) → same_counter a a ≡ true
same_counter_refl a =
    rw (==_refl a.tenant.value, same_subject_refl a.subject, str_eq_refl a.of.value)

-- The column has room for an attempt: the window has passed, or its count is not at the end.
abbrev pub has_room : AttemptWindow → Instant → Duration → Bool
has_room w at window = not (is_blocked_at w at window 2147483647)

-- The statement counts an attempt as the domain does, while the column of 32 bits holds the count.
register_row-registered :
    (w : AttemptWindow) (at : Instant) (window : Duration)
    → has_room w at window ≡ true
    → register_row at (expired_by at window) w ≡ some (registered w at window)
unfolding register_row registered is_blocked_at
register_row-registered w at window fits =
    ground (arith, +ℤ_parts w.started_at.micros window, -ℤ_parts at.micros window)

counted : Instant → Duration → Option AttemptWindow → AttemptWindow
counted at window none = record { started_at = at; attempts = 1 }
counted at window (some w) = registered w at window

-- What an attempt does to the counters of a table.
record IsRegistered (counter : Counter) (at : Instant) (window : Duration) (rows : List AttemptRow)
    : Type 0 where
  after : List AttemptRow
  made : register_at counter at (expired_by at window) rows ≡ some after
  found :
      (other : Counter)
      → find_counter other after ≡ (
          if same_counter counter other
          then some (counted at window (find_counter counter rows))
          else find_counter other rows)

register_at-IsRegistered :
    (counter : Counter) (at : Instant) (window : Duration) (rows : List AttemptRow)
    → has_room (window_or_none (find_counter counter rows)) at window ≡ true
    → IsRegistered counter at window rows
unfolding register_at find_counter counted
register_at-IsRegistered counter at window [] fits = record {
  after = _;
  made = refl;
  found = λ other. refl;
}
register_at-IsRegistered counter at window (row ∷ rows) fits =
    elim (Bool-cases (same_counter row.counter counter)) [
      | inl same ↦
          let room : has_room row.window at window ≡ true = rw same at fits in
          let one = same_counter_sound row.counter counter same in
          record {
            after = record row { window = registered row.window at window } ∷ rows;
            made = rw (same, register_row-registered row.window at window room);
            found = λ other.
                rw (same, ap (λ c. same_counter c other) one)
                  (if_idle (same_counter counter other) _ (some row.window) _);
          }
      | inr other ↦
          let rest = register_at-IsRegistered counter at window rows (rw other at fits) in
          record {
            after = row ∷ rest.after;
            made = rw (other, rest.made);
            found = λ asked. rw other (
                ap (λ o. if same_counter row.counter asked then some row.window else o)
                  (rest.found asked)
                ∙ if_swap (same_counter row.counter asked) (same_counter counter asked) _ _ _
                    (λ same.
                      ap (λ c. same_counter row.counter c)
                        (sym (same_counter_sound counter asked same))
                      ∙ other));
          }
    ]

window_or_none-if :
    (b : Bool) (w : AttemptWindow) (o : Option AttemptWindow)
    → window_or_none (if b then some w else o) ≡ (if b then w else window_or_none o)
window_or_none-if true w o = refl
window_or_none-if false w o = refl

counted_lem :
    (at : Instant) (window : Duration) (o : Option AttemptWindow)
    → not_after (shift (from_unix_micros (pos 0)) window) at ≡ true
    → counted at window o ≡ registered (window_or_none o) at window
unfolding counted registered
counted_lem at window none late = rw late
counted_lem at window (some w) late = refl

-- While the column of 32 bits has room, and one window has passed since 1970, an attempt is stored: its
-- counter is then seen as the domain counts the attempt from what was seen before, and every other
-- counter is seen as before.
pub seen-register_attempt :
    (counter : Counter) (at : Instant) (window : Duration) (rows : List AttemptRow)
    → has_room (seen counter rows) at window ≡ true
    → not_after (shift (from_unix_micros (pos 0)) window) at ≡ true
    → (after : List AttemptRow) × (register_attempt counter at window rows ≡ some after)
      × ((other : Counter)
          → seen other after ≡ (
              if same_counter counter other
              then registered (seen counter rows) at window
              else seen other rows))
unfolding register_attempt seen
seen-register_attempt counter at window rows fits late =
    let done = register_at-IsRegistered counter at window rows fits in
    (
      done.after,
      done.made,
      λ other.
          ap window_or_none (done.found other)
          ∙ window_or_none-if (same_counter counter other) _ _
          ∙ ap (λ w. if same_counter counter other then w else seen other rows)
              (counted_lem at window (find_counter counter rows) late),
    )

find_counter-forget :
    (counter other : Counter) (rows : List AttemptRow)
    → find_counter other (forget counter rows)
      ≡ (if same_counter counter other then none else find_counter other rows)
unfolding find_counter forget
find_counter-forget counter other [] = sym (if_same (same_counter counter other) none)
find_counter-forget counter other (row ∷ rows) =
    let rest = find_counter-forget counter other rows in
    elim (Bool-cases (same_counter row.counter counter)) [
      | inl same ↦
          let one = same_counter_sound row.counter counter same in
          rw (same, ap (λ c. same_counter c other) one)
            (rest ∙ if_idle (same_counter counter other) _ (some row.window) _)
      | inr apart ↦ rw apart (
          ap (λ o. if same_counter row.counter other then some row.window else o) rest
          ∙ if_swap (same_counter row.counter other) (same_counter counter other) _ _ _ (λ asked.
            ap (λ c. same_counter row.counter c) (sym (same_counter_sound counter other asked))
            ∙ apart))
    ]

-- A counter that is forgotten is seen as if nobody had tried, and every other counter as before.
pub seen-forget :
    (counter other : Counter) (rows : List AttemptRow)
    → seen other (forget counter rows)
      ≡ (if same_counter counter other then no_attempts else seen other rows)
unfolding seen
seen-forget counter other rows =
    ap window_or_none (find_counter-forget counter other rows)
    ∙ window_or_none-cut (same_counter counter other) _
  where
    window_or_none-cut :
        (b : Bool) (o : Option AttemptWindow)
        → window_or_none (if b then none else o) ≡ (if b then no_attempts else window_or_none o)
    window_or_none-cut true o = refl
    window_or_none-cut false o = refl
