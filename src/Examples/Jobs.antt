-- ===== src/Examples/Jobs.antt =====
-- A reminder job over a ledger kept as a list of marks.
use pdr.Base.{◌≡◌, refl, ℕ, Bool, true, false, not, ◌||◌, List, [], ◌∷◌, pos, leb_ℤ, All, ◌-ℤ◌}
use pdr.Core.Time.{Instant, Duration}
use pdr.Jobs.Settings.{JobName, JobSettings}
use pdr.Jobs.Records.{done}
use pdr.Jobs.Runs.{WorkItem, Mark, mark_of, same_mark, JobLedger, Surroundings, execute}
use pdr.Jobs.Runs.Effects.{IsLawful, IsOnce, is_among, execute-IsOnce, execute_disjoint}
use pdr.Jobs.Runs.Complete.{execute_complete}
use pdr.Examples.People.{practice, moment}

abbrev any_same : List Mark → Mark → Bool
any_same [] m = false
any_same (n ∷ ns) m = same_mark n m || any_same ns m

abbrev listed : JobLedger
listed = record {
  State = List Mark;
  holds = any_same;
  claim = λ marks m. (not (any_same marks m), m ∷ marks);
}

listed-IsLawful : IsLawful listed
listed-IsLawful = record { claim_free = λ s m. refl; claim_holds = λ s m n. refl }

abbrev reminders : JobName
reminders = record { value = "reminders" }

abbrev hour : Duration
hour = pos 3600000000

abbrev settings : JobSettings
settings = record {
  lock = reminders;
  period = hour;
  attempt = hour;
  silence_allowed = hour;
  enabled = true;
}

abbrev quiet : Surroundings
quiet = record { is_held = λ i. true; now = λ i. moment (pos 5); others = λ i. [] }

abbrev plan : Instant → List WorkItem
plan now =
    record { tenant = practice; key = "lesson-1" }
    ∷ record { tenant = practice; key = "lesson-2" }
    ∷ record { tenant = practice; key = "lesson-1" }
    ∷ []

execute-IsOnce_example :
    IsOnce listed listed-IsLawful reminders []
      (execute listed quiet reminders settings plan (moment (pos 0)) (moment (pos 9)) []).0
execute-IsOnce_example =
    execute-IsOnce listed listed-IsLawful quiet reminders settings plan (moment (pos 0))
      (moment (pos 9)) []

-- The second run begins where the first one ended.
abbrev left : List Mark
left = (execute listed quiet reminders settings plan (moment (pos 0)) (moment (pos 9)) []).0.state

execute_disjoint_example :
    All
      (λ item.
        is_among reminders
          (mark_of reminders item)
          (execute listed quiet reminders settings plan
            (moment (pos 0))
            (moment (pos 9))
            []).0.performed
        ≡ false)
      (execute listed quiet reminders settings plan
        (moment (pos 20))
        (moment (pos 30))
        left).0.performed
execute_disjoint_example =
    execute_disjoint listed listed-IsLawful quiet quiet reminders settings settings plan plan
      (moment (pos 0)) (moment (pos 9)) (moment (pos 20)) (moment (pos 30)) [] left (λ m h. h)

in_time : ℕ → leb_ℤ settings.attempt (pos 5 -ℤ pos 0) ≡ false
unfolding ◌-ℤ◌
in_time i = refl

execute_complete_example :
    (execute listed quiet reminders settings plan (moment (pos 0)) (moment (pos 9)) []).0.outcome
    ≡ done
execute_complete_example =
    (execute_complete listed listed-IsLawful reminders quiet settings plan (moment (pos 0))
      (moment (pos 9)) [] (λ i. refl) in_time refl).0
