-- ===== src/Identity/Journal/Rows.antt =====
-- identity/infrastructure/audit/postgres_access_log.cpp, identity/infrastructure/access/
-- postgres_access_journal.cpp and identity/application/show_access_journal.cpp: the table of the
-- journal, which the migrations V005 and V007 of db/migrations describe, and who may read it. A row
-- keeps the texts of its columns, and an identifier as it is. The rows of a practice are those that
-- the row-level security of the table shows to its transaction. ORDER BY leaves the order of rows of the
-- same moment open; here the one that was written later comes first.
pub mod Reading
use Prim.Native.String.{◌++◌ as ◌++s◌}
use pdr.Base.{Bool, not, ◌&&◌, List, [], ◌∷◌, Option, none, some, String, if◌then◌else◌}
use pdr.Core.Errors.{Error, Result, ok, err, refuse, validation, forbidden}
use pdr.Core.Ids.{TenantId, PersonId, same_id}
use pdr.Core.Time.{Instant, before}
use pdr.Identity.Actions.{Action, view_access_journal, PolicyDecision, Resource, reason_name}
use pdr.Identity.Policies.Table.{Table}
use pdr.Identity.Subjects.{Ports}
use pdr.Identity.Journal.{
  ResourceKind, kind_name, parse_resource_kind, AccessOutcome, parse_access_outcome, AccessRecord,
  access_record, Journal, decide_for,
}

pub record LogRow : Type 0 where
  pub tenant_id : TenantId
  pub actor_id : PersonId
  pub subject_id : PersonId
  pub resource_kind : String
  pub outcome : String
  pub at : Instant

-- The default of the column.
abbrev pub outcome_default : String
outcome_default = "shown"

-- `PostgresAccessLog::Record`: the statement does not name the column of the outcome.
unfoldable pub record_row : AccessRecord → List LogRow → List LogRow
unfolding kind_name
record_row r rows =
    record {
      tenant_id = r.tenant;
      actor_id = r.actor;
      subject_id = r.subject;
      resource_kind = kind_name r.kind;
      outcome = outcome_default;
      at = r.at;
    }
    ∷ rows

-- `WHERE subject_id = $1::uuid AND at >= $2`, of the rows of the practice.
unfoldable pub is_about : TenantId → PersonId → Instant → LogRow → Bool
is_about tenant subject since row =
    same_id row.tenant_id tenant && (same_id row.subject_id subject && not (before row.at since))

unfoldable pub selected : TenantId → PersonId → Instant → List LogRow → List LogRow
unfolding is_about
selected tenant subject since [] = []
selected tenant subject since (row ∷ rows) =
    let rest = selected tenant subject since rows in
    if is_about tenant subject since row then row ∷ rest else rest

-- `ORDER BY at DESC`.
module _ {A : Type 0} (moment : A → Instant) where
  unfoldable pub put : A → List A → List A
  put x [] = x ∷ []
  put x (y ∷ ys) =
      let rest = put x ys in if before (moment x) (moment y) then y ∷ rest else x ∷ y ∷ ys

  unfoldable pub newest_first : List A → List A
  unfolding put
  newest_first [] = []
  newest_first (x ∷ xs) = put x (newest_first xs)

abbrev kept : Result AccessRecord → Option AccessRecord
kept (ok r) = some r
kept (err e) = none

unfoldable pub read_as :
    TenantId → PersonId → LogRow → Option ResourceKind → Option AccessOutcome → Option AccessRecord
unfolding access_record
read_as tenant subject row (some kind) (some outcome) =
    kept (access_record tenant row.actor_id subject kind outcome row.at)
read_as tenant subject row (some kind) none = none
read_as tenant subject row none outcome = none

-- A row of the answer, where `none` stands for an exception.
unfoldable pub read_log_row : TenantId → PersonId → LogRow → Option AccessRecord
unfolding read_as parse_resource_kind parse_access_outcome
read_log_row tenant subject row =
    read_as tenant subject row (parse_resource_kind row.resource_kind)
      (parse_access_outcome row.outcome)

unfoldable pub and_more : AccessRecord → Option (List AccessRecord) → Option (List AccessRecord)
and_more r none = none
and_more r (some rest) = some (r ∷ rest)

unfoldable pub read_rows : TenantId → PersonId → List LogRow → Option (List AccessRecord)
unfolding read_log_row and_more
read_rows tenant subject [] = some []
read_rows tenant subject (row ∷ rows) = elim (read_log_row tenant subject row) [
  | none ↦ none
  | some r ↦ and_more r (read_rows tenant subject rows)
]

-- `PostgresAccessJournal::AboutPerson`.
unfoldable pub about_person :
    TenantId → PersonId → Instant → List LogRow → Option (List AccessRecord)
unfolding read_rows newest_first selected
about_person tenant subject since rows =
    read_rows tenant subject
      (newest_first (λ (row : LogRow). row.at) (selected tenant subject since rows))

-- What a call comes back with, or that it throws.
pub data Shown : Type 0 where
  answered : Result (List AccessRecord) → Shown
  thrown : Shown

unfoldable pub shown_of : Option (List AccessRecord) → Shown
shown_of none = thrown
shown_of (some records) = answered (ok records)

show_decided : PolicyDecision → TenantId → PersonId → Instant → List LogRow → Shown
unfolding shown_of about_person
show_decided decision tenant subject since rows =
    if not decision.is_allowed
    then answered (
        refuse forbidden "journal_not_yours" (
          "журнал доступа показывают тому, о ком он; причина отказа — "
          ++s reason_name decision.reason))
    else shown_of (about_person tenant subject since rows)

module _ (ports : Ports) (tenant : TenantId) (permissions : Table) where
  show_about : PersonId → Resource → Instant → Instant → Option PersonId → List LogRow → Shown
  unfolding show_decided decide_for
  show_about actor about since now none rows =
      answered
        (refuse validation "journal_without_subject" "журнал спрашивают о ком-то, а не вообще")
  show_about actor about since now (some subject) rows =
      show_decided (decide_for ports tenant permissions actor view_access_journal about now []).0
        tenant subject since rows

  -- `ShowAccessJournal::Execute`. The question whether the journal may be read leaves no trace in it.
  unfoldable pub show_access_journal : PersonId → Resource → Instant → Instant → List LogRow → Shown
  unfolding show_about
  show_access_journal actor about since now rows =
      show_about actor about since now about.subject rows
