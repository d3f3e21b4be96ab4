-- ===== src/Jobs/Runs/Effects.antt =====
-- run_periodic_job.cpp: each effect is performed at most once, in a run and over several runs.
use pdr.Base.{
  ◌≡◌, refl, ℕ, suc, Bool, true, false, not, ◌&&◌, ◌||◌, List, [], ◌∷◌, leb_ℤ, All, if_both, length,
  arith,
}
use pdr.Core.Time.{Instant, Duration, since}
use pdr.Jobs.Settings.{JobName, JobSettings}
use pdr.Jobs.Records.{Outcome, done, lock_lost, timed_out}
use pdr.Jobs.Runs.{
  WorkItem, Mark, mark_of, same_mark, JobLedger, Surroundings, Run, claim_all, stop, claimed,
  take_item, run_items, execute,
}

-- The documented behaviour of the ledger: a claim succeeds exactly where the mark was not held, and
-- then it is held beside those held before.
pub record IsLawful (ledger : JobLedger) : Type 0 where
  pub claim_free : (s : ledger.State) (m : Mark) → (ledger.claim s m).0 ≡ not (ledger.holds s m)
  pub claim_holds :
      (s : ledger.State) (m n : Mark)
      → ledger.holds (ledger.claim s m).1 n ≡ same_mark m n || ledger.holds s n

-- Some item of the list has the mark.
abbrev pub is_among : JobName → Mark → List WorkItem → Bool
is_among job m [] = false
is_among job m (x ∷ xs) = same_mark (mark_of job x) m || is_among job m xs

abbrev pub all_distinct : JobName → List WorkItem → Bool
all_distinct job [] = true
all_distinct job (x ∷ xs) = not (is_among job (mark_of job x) xs) && all_distinct job xs

module _ (ledger : JobLedger) (lawful : IsLawful ledger) where
  open lawful use {claim_free, claim_holds}

  pub claim_all_keeps :
      (ms : List Mark) (s : ledger.State) (m : Mark)
      → ledger.holds s m ≡ true
      → ledger.holds (claim_all ledger ms s) m ≡ true
  unfolding claim_all
  claim_all_keeps [] s m h = h
  claim_all_keeps (n ∷ ns) s m h =
      claim_all_keeps ns (ledger.claim s n).1 m (ground (arith, claim_holds s n m))

  module _ (job : JobName) (s0 : ledger.State) where
    -- What holds of the loop's state at each place of the plan, for a loop that began with `s0`.
    pub record IsOnce (run : Run ledger) : Type 0 where
      pub kept : (m : Mark) → ledger.holds s0 m ≡ true → ledger.holds run.state m ≡ true
      pub marked :
          (m : Mark) → is_among job m run.performed ≡ true → ledger.holds run.state m ≡ true
      pub was_free : All (λ item. ledger.holds s0 (mark_of job item) ≡ false) run.performed
      pub once : all_distinct job run.performed ≡ true
      pub counted : run.produced ≡ length run.performed

    claimed-IsOnce :
        (item : WorkItem) (answer : Bool × ledger.State) (run : Run ledger)
        → IsOnce run
        → answer.0 ≡ not (ledger.holds run.state (mark_of job item))
        → ((n : Mark)
            → ledger.holds answer.1 n ≡ same_mark (mark_of job item) n || ledger.holds run.state n)
        → IsOnce (claimed ledger item answer run)
    unfolding claimed
    claimed-IsOnce item (true, s) run h free held = record {
      kept = λ m before. ground (arith, h.kept m, held m);
      marked = λ m among. ground (arith, h.marked m, held m);
      was_free = (ground (arith, h.kept (mark_of job item)), h.was_free);
      once = ground (arith, h.marked (mark_of job item), h.once);
      counted = omega (arith, h.counted);
    }
    claimed-IsOnce item (false, s) run h free held = record {
      kept = λ m before. ground (arith, h.kept m, held m);
      marked = λ m among. ground (arith, h.marked m, held m);
      was_free = h.was_free;
      once = h.once;
      counted = h.counted;
    }

    stopped : (outcome : Outcome) (run : Run ledger) → IsOnce run → IsOnce (stop ledger outcome run)
    unfolding stop
    stopped outcome run h = record {
      kept = h.kept;
      marked = h.marked;
      was_free = h.was_free;
      once = h.once;
      counted = h.counted;
    }

    module _ (around : Surroundings) (attempt : Duration) (started_at : Instant) where
      take_item-IsOnce :
          (i : ℕ) (item : WorkItem) (run : Run ledger)
          → IsOnce run
          → IsOnce (take_item ledger around job attempt started_at i item run)
      unfolding take_item
      take_item-IsOnce i item run h =
          let s = claim_all ledger (around.others i) run.state in
          let keeps = claim_all_keeps (around.others i) run.state in
          claimed-IsOnce item (ledger.claim s (mark_of job item)) (record run { state = s })
            (record {
              kept = λ m before. keeps m (h.kept m before);
              marked = λ m among. keeps m (h.marked m among);
              was_free = h.was_free;
              once = h.once;
              counted = h.counted;
            })
            (claim_free s (mark_of job item)) (claim_holds s (mark_of job item))

      run_items-IsOnce :
          (i : ℕ) (plan : List WorkItem) (run : Run ledger)
          → IsOnce run
          → IsOnce (run_items ledger around job attempt started_at i plan run)
      unfolding run_items
      run_items-IsOnce i [] run h = h
      run_items-IsOnce i (item ∷ rest) run h =
          if_both IsOnce (not (around.is_held i)) (stopped lock_lost run h) (
            if_both IsOnce (leb_ℤ attempt (since (around.now i) started_at))
              (stopped timed_out run h)
              (run_items-IsOnce (suc i) rest
                (take_item ledger around job attempt started_at i item run)
                (take_item-IsOnce i item run h)))

  start-IsOnce :
      (job : JobName) (s : ledger.State)
      → IsOnce job s
          (record { outcome = done; produced = 0; repeated = 0; state = s; performed = [] })
  start-IsOnce job s = record {
    kept = λ m before. before;
    marked = λ m among. absurd (ground arith);
    was_free = tt;
    once = refl;
    counted = refl;
  }

  -- Whatever the lock, the clock and the other workers do, and wherever the run breaks off: the
  -- ledger forgets nothing, each item performed is marked at the end and was not at the start, no
  -- two items performed have one mark, and they are as many as the counter says.
  pub execute-IsOnce :
      (around : Surroundings) (job : JobName) (settings : JobSettings)
      → (plan : Instant → List WorkItem) (started_at finished_at : Instant) (s : ledger.State)
      → IsOnce job s (execute ledger around job settings plan started_at finished_at s).0
  unfolding execute
  execute-IsOnce around job settings plan started_at finished_at s =
      run_items-IsOnce job s around settings.attempt started_at 0 (plan started_at) _
        (start-IsOnce job s)

  still_free :
      (job : JobName) (s t : ledger.State) (xs done_before : List WorkItem)
      → ((m : Mark) → is_among job m done_before ≡ true → ledger.holds t m ≡ true)
      → All (λ item. ledger.holds t (mark_of job item) ≡ false) xs
      → All (λ item. is_among job (mark_of job item) done_before ≡ false) xs
  still_free job s t [] ys marked free = tt
  still_free job s t (x ∷ xs) ys marked free =
      (ground (arith, marked (mark_of job x), free.0), still_free job s t xs ys marked free.1)

  -- Of two runs of a job, the second on a ledger that still holds what the first one left, no item
  -- that the second performs has a mark of one that the first performed.
  pub execute_disjoint :
      (around again : Surroundings) (job : JobName) (settings changed : JobSettings)
      → (plan replan : Instant → List WorkItem) (from to since_then until : Instant)
      → (s t : ledger.State)
      → let first = (execute ledger around job settings plan from to s).0 in
        let second = (execute ledger again job changed replan since_then until t).0 in
        ((m : Mark) → ledger.holds first.state m ≡ true → ledger.holds t m ≡ true)
        → All (λ item. is_among job (mark_of job item) first.performed ≡ false) second.performed
  execute_disjoint around again job settings changed plan replan from to since_then until s t kept =
      let first = execute-IsOnce around job settings plan from to s in
      let second = execute-IsOnce again job changed replan since_then until t in
      still_free job s t _ _ (λ m among. kept m (first.marked m among)) second.was_free
