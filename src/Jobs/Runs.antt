-- ===== src/Jobs/Runs.antt =====
-- jobs/application/run_periodic_job.cpp: one run of a periodic job. The ledger of the effects is a
-- port that the database fills: here it is a state that `claim` reads and changes. The lock and the
-- clock answer anew at every item, so their answers are functions of the item's place in the plan;
-- so are the claims that the other workers make in between. An item whose Perform throws is not
-- modelled.
pub mod Complete
pub mod Effects
use pdr.Base.{
  ◌≡◌, ℕ, zero, suc, ◌+◌, Bool, true, false, not, ◌&&◌, ◌||◌, List, [], ◌∷◌, ◌==◌, ℤ, pos, leb_ℤ,
  String, str_eq, if◌then◌else◌,
}
use pdr.Core.Errors.{Result, ok, err}
use pdr.Core.Ids.{TenantId, same_id}
use pdr.Core.Time.{Instant, Duration, since}
use pdr.Jobs.Settings.{JobName, JobSettings}
use pdr.Jobs.Records.{Outcome, done, lock_lost, timed_out, RunRecord, compose}

pub record WorkItem : Type 0 where
  pub tenant : TenantId
  pub key : String

-- What a claim names: the practice, the job and the key of the effect.
pub record Mark : Type 0 where
  pub tenant : TenantId
  pub job : JobName
  pub key : String

abbrev pub mark_of : JobName → WorkItem → Mark
mark_of job item = record { tenant = item.tenant; job = job; key = item.key }

abbrev pub same_mark : Mark → Mark → Bool
same_mark a b = same_id a.tenant b.tenant && (str_eq a.job.value b.job.value && str_eq a.key b.key)

-- `ports::JobLedger`: a ledger in some state, whether it holds a mark, and a claim.
pub record JobLedger : Type 1 where
  pub State : Type 0
  pub holds : State → Mark → Bool
  pub claim : State → Mark → Bool × State

-- The calls of `ports::JobJournal`.
pub data JournalEntry : Type 0 where
  started : JobName → Instant → JournalEntry
  finished : JobName → RunRecord → JournalEntry

-- What happens around the loop at each place of the plan.
pub record Surroundings : Type 0 where
  pub is_held : ℕ → Bool
  pub now : ℕ → Instant
  pub others : ℕ → List Mark

module _ (ledger : JobLedger) where
  -- The loop's state: the outcome, the counters, the ledger, and the items performed, the last first.
  pub record Run : Type 0 where
    pub outcome : Outcome
    pub produced : ℕ
    pub repeated : ℕ
    pub state : ledger.State
    pub performed : List WorkItem

  -- The claims of the other workers before an item.
  unfoldable pub claim_all : List Mark → ledger.State → ledger.State
  claim_all [] s = s
  claim_all (m ∷ ms) s = claim_all ms (ledger.claim s m).1

  unfoldable pub stop : Outcome → Run → Run
  stop outcome run = record run { outcome = outcome }

  -- After the claim: repeat or perform.
  unfoldable pub claimed : WorkItem → Bool × ledger.State → Run → Run
  claimed item answer run =
      if answer.0
      then record run {
        produced = suc run.produced;
        state = answer.1;
        performed = item ∷ run.performed;
      }
      else record run { repeated = suc run.repeated; state = answer.1 }

  module _ (around : Surroundings) (job : JobName) (attempt : Duration) (started_at : Instant) where
    -- One claim, after those of the others.
    unfoldable pub take_item : ℕ → WorkItem → Run → Run
    unfolding claimed claim_all
    take_item i item run =
        claimed item (ledger.claim (claim_all (around.others i) run.state) (mark_of job item)) run

    -- The loop over the plan, from its place `i` on.
    unfoldable pub run_items : ℕ → List WorkItem → Run → Run
    unfolding take_item stop
    run_items i [] run = run
    run_items i (item ∷ rest) run =
        let next = run_items (suc i) rest (take_item i item run) in
        if not (around.is_held i)
        then stop lock_lost run
        else if leb_ℤ attempt (since (around.now i) started_at)
        then stop timed_out run
        else next

  -- `record.Value()` is read for the journal only where the record was composed.
  unfoldable pub finish : JobName → Result RunRecord → List JournalEntry
  finish job (ok record_of_run) = finished job record_of_run ∷ []
  finish job (err e) = []

  -- `RunPeriodicJob::Execute`: the run, the record, and what the journal is told.
  unfoldable pub execute :
      Surroundings
      → JobName
      → JobSettings
      → (Instant → List WorkItem)
      → Instant
      → Instant
      → ledger.State
      → Run × Result RunRecord × List JournalEntry
  unfolding run_items finish
  execute around job settings plan started_at finished_at state =
      let run =
        run_items around job settings.attempt started_at 0 (plan started_at)
          (record { outcome = done; produced = 0; repeated = 0; state = state; performed = [] }) in
      let made = compose started_at finished_at run.outcome (pos run.produced) (pos run.repeated) in
      (run, made, started job started_at ∷ finish job made)
