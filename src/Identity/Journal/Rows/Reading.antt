-- ===== src/Identity/Journal/Rows/Reading.antt =====
-- postgres_access_log.cpp and postgres_access_journal.cpp: what is read of the records that were kept.
use pdr.Base.{◌≡◌, not, ◌&&◌, List, [], ◌∷◌, some, if◌then◌else◌}
use pdr.Core.Ids.{TenantId, PersonId, same_id}
use pdr.Core.Time.{Instant, before}
use pdr.Identity.Journal.{kind_name, shown, AccessRecord, Journal}
use pdr.Identity.Journal.Rows.{LogRow, record_row, read_log_row, outcome_default}

-- The records of a journal, kept one after another, the last one first.
abbrev pub rows_of : Journal → List LogRow
unfolding record_row
rows_of [] = []
rows_of (r ∷ journal) = record_row r (rows_of journal)

-- The records about a person from a moment on, each as one of a view.
abbrev pub views_of : TenantId → PersonId → Instant → Journal → List AccessRecord
views_of tenant subject since [] = []
views_of tenant subject since (r ∷ journal) =
    if same_id r.tenant tenant && (same_id r.subject subject && not (before r.at since))
    then record r { outcome = shown } ∷ views_of tenant subject since journal
    else views_of tenant subject since journal

abbrev row_from : AccessRecord → LogRow
row_from r = record {
  tenant_id = r.tenant;
  actor_id = r.actor;
  subject_id = r.subject;
  resource_kind = kind_name r.kind;
  outcome = outcome_default;
  at = r.at;
}

-- A row of a view is read as the view.
abbrev IsRead : TenantId → PersonId → AccessRecord → Type 0
IsRead tenant subject r = read_log_row tenant subject (row_from r) ≡ some r
