-- ===== src/Jobs/Runs/Complete.antt =====
-- run_periodic_job.cpp: a run that nothing breaks off takes every item of the plan.
use pdr.Base.{
  ◌≡◌, refl, sym, ◌∙◌, subst, ℕ, suc, ◌+◌, Bool, true, false, ◌||◌, List, [], ◌∷◌, pos, leb_ℤ, All,
  length, arith, str_eq_iff,
}
use pdr.Core.Errors.{Result, ok, err}
use pdr.Core.Time.{Instant, Duration, since, before}
use pdr.Jobs.Settings.{JobName, JobSettings}
use pdr.Jobs.Records.{done, RunRecord, compose}
use pdr.Jobs.Runs.{
  WorkItem, Mark, mark_of, same_mark, JobLedger, Surroundings, Run, claim_all, claimed, take_item,
  run_items, execute, started, finished, finish,
}
use pdr.Jobs.Runs.Effects.{IsLawful, claim_all_keeps}

abbrev pub is_recorded : Result RunRecord → Bool
is_recorded (ok r) = true
is_recorded (err e) = false

same_mark_refl : (m : Mark) → same_mark m m ≡ true
same_mark_refl m = ground (arith, str_eq_iff m.job.value m.job.value, str_eq_iff m.key m.key)

module _ (ledger : JobLedger) (lawful : IsLawful ledger) (job : JobName) where
  claimed_state :
      (item : WorkItem) (answer : Bool × ledger.State) (run : Run ledger)
      → ((claimed ledger item answer run).state ≡ answer.1)
        × ((claimed ledger item answer run).outcome ≡ run.outcome)
        × ((claimed ledger item answer run).produced + (claimed ledger item answer run).repeated
            ≡ suc (run.produced + run.repeated))
  unfolding claimed
  claimed_state item (true, s) run = (refl, refl, omega arith)
  claimed_state item (false, s) run = (refl, refl, omega arith)

  module _ (around : Surroundings) (attempt : Duration) (started_at : Instant)
      (held : (i : ℕ) → around.is_held i ≡ true)
      (in_time : (i : ℕ) → leb_ℤ attempt (since (around.now i) started_at) ≡ false) where
    -- The state after one item, and after all.
    abbrev taken : ℕ → WorkItem → Run ledger → Run ledger
    taken i item run = take_item ledger around job attempt started_at i item run

    abbrev ended : ℕ → List WorkItem → Run ledger → Run ledger
    ended i plan run = run_items ledger around job attempt started_at i plan run

    ended_step :
        (i : ℕ) (item : WorkItem) (rest : List WorkItem) (run : Run ledger)
        → ended i (item ∷ rest) run ≡ ended (suc i) rest (taken i item run)
    unfolding run_items
    ended_step i item rest run = rw (held i, in_time i) refl

    taken_counts :
        (i : ℕ) (item : WorkItem) (run : Run ledger)
        → ((taken i item run).outcome ≡ run.outcome)
          × ((taken i item run).produced + (taken i item run).repeated
              ≡ suc (run.produced + run.repeated))
    unfolding take_item
    taken_counts i item run =
        let s = claim_all ledger (around.others i) run.state in
        let counts = claimed_state item (ledger.claim s (mark_of job item)) run in
        (counts.1, counts.2)

    taken_holds :
        (i : ℕ) (item : WorkItem) (run : Run ledger) (m : Mark)
        → same_mark (mark_of job item) m || ledger.holds run.state m ≡ true
        → ledger.holds (taken i item run).state m ≡ true
    unfolding take_item
    taken_holds i item run m h =
        let s = claim_all ledger (around.others i) run.state in
        let answer = ledger.claim s (mark_of job item) in
        subst (λ t. ledger.holds t m ≡ true) (sym (claimed_state item answer run).0)
          (ground (
            arith,
            lawful.claim_holds s (mark_of job item) m,
            claim_all_keeps ledger lawful (around.others i) run.state m,
          ))

    ended_holds :
        (i : ℕ) (plan : List WorkItem) (run : Run ledger) (m : Mark)
        → ledger.holds run.state m ≡ true
        → ledger.holds (ended i plan run).state m ≡ true
    unfolding run_items
    ended_holds i [] run m h = h
    ended_holds i (item ∷ rest) run m h =
        subst (λ r. ledger.holds r.state m ≡ true) (sym (ended_step i item rest run))
          (ended_holds (suc i) rest (taken i item run) m
            (taken_holds i item run m (ground (arith, h))))

    -- What a whole run comes to.
    abbrev IsWhole : ℕ → List WorkItem → Run ledger → Run ledger → Type 0
    IsWhole i plan run end =
        (end.outcome ≡ run.outcome)
        × (end.produced + end.repeated ≡ run.produced + run.repeated + length plan)
        × All (λ item. ledger.holds end.state (mark_of job item) ≡ true) plan

    ended-IsWhole :
        (i : ℕ) (plan : List WorkItem) (run : Run ledger) → IsWhole i plan run (ended i plan run)
    unfolding run_items
    ended-IsWhole i [] run = (refl, omega arith, tt)
    ended-IsWhole i (item ∷ rest) run =
        let next = taken i item run in
        let counts = taken_counts i item run in
        let whole = ended-IsWhole (suc i) rest next in
        subst (IsWhole i (item ∷ rest) run) (sym (ended_step i item rest run)) (
          whole.0 ∙ counts.0,
          omega (arith, whole.1, counts.1),
          (
            ended_holds (suc i) rest next (mark_of job item) (
                taken_holds i item run (mark_of job item)
                  (ground (arith, same_mark_refl (mark_of job item)))),
            whole.2,
          ),
        )

  -- A run that keeps its lock and its time, and does not end before it starts, comes to the end of
  -- its plan: it is recorded as done, each item of the plan was performed or found marked, every
  -- item's mark is in the ledger, and the journal is told of the start and of the end.
  pub execute_complete :
      (around : Surroundings) (settings : JobSettings) (plan : Instant → List WorkItem)
      → (started_at finished_at : Instant) (s : ledger.State) → ((i : ℕ) → around.is_held i ≡ true)
      → ((i : ℕ) → leb_ℤ settings.attempt (since (around.now i) started_at) ≡ false)
      → before finished_at started_at ≡ false
      → let (run, _, journal) = execute ledger around job settings plan started_at finished_at s in
        (run.outcome ≡ done)
        × (run.produced + run.repeated ≡ length (plan started_at))
        × All (λ item. ledger.holds run.state (mark_of job item) ≡ true) (plan started_at)
        × (journal
            ≡ started job started_at
              ∷ finished job (record {
                started_at = started_at;
                finished_at = finished_at;
                outcome = done;
                produced = pos run.produced;
                repeated = pos run.repeated;
              })
              ∷ [])
  unfolding execute compose finish
  execute_complete around settings plan started_at finished_at s held in_time ordered =
      let whole =
        ended-IsWhole around settings.attempt started_at held in_time 0 (plan started_at)
          (record { outcome = done; produced = 0; repeated = 0; state = s; performed = [] }) in
      (whole.0, omega (arith, whole.1), whole.2, ground (arith, whole.0))

module _ (ledger : JobLedger) (job : JobName) where
  -- A run that ends no earlier than it starts, by the clock, is recorded with its counters, and the
  -- journal is told of its end. By a clock set back during the run there is no record: the journal is
  -- told of the start alone, whatever the run has performed.
  pub execute_recorded :
      (around : Surroundings) (settings : JobSettings) (plan : Instant → List WorkItem)
      → (started_at finished_at : Instant) (s : ledger.State)
      → let (run, made, journal) =
          execute ledger around job settings plan started_at finished_at s in
        (before finished_at started_at ≡ false
          → (r : RunRecord) × (made ≡ ok r)
            × (r.produced ≡ pos run.produced)
            × (r.repeated ≡ pos run.repeated)
            × (r.outcome ≡ run.outcome)
            × (journal ≡ started job started_at ∷ finished job r ∷ []))
        × (before finished_at started_at ≡ true
            → (is_recorded made ≡ false) × (journal ≡ started job started_at ∷ []))
  unfolding execute compose finish
  execute_recorded around settings plan started_at finished_at s =
      let run = (execute ledger around job settings plan started_at finished_at s).0 in
      (
        λ ordered. (
          record {
            started_at = started_at;
            finished_at = finished_at;
            outcome = run.outcome;
            produced = pos run.produced;
            repeated = pos run.repeated;
          },
          ground arith,
          refl,
          refl,
          refl,
          ground arith,
        ),
        λ back. (ground arith, ground arith),
      )
