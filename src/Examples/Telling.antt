-- ===== src/Examples/Telling.antt =====
-- The announcements about a practice, and the journal of views.
use pdr.Base.{refl, false, List, [], ◌∷◌, none}
use pdr.Identity.Practices.{opened, is_discoverable, looks_borrowed}
use pdr.Identity.Practices.Store.{PracticeRow, find_practice}
use pdr.Identity.Practices.Reviews.{
  Publishing, Order, ask_to_publish, turn_down, let_out, execute_all,
}
use pdr.Identity.Practices.Reviews.Told.{IsTold, execute_all-IsTold}
use pdr.Identity.Journal.{Journal, recording, chat, shown, refused}
use pdr.Examples.People.{practice, parent, pupil, teacher, new_year}

abbrev row : PracticeRow
row = record {
  tenant_id = practice;
  name = "Algebra";
  zone = "Europe/Moscow";
  visibility = "hidden";
  created_at = new_year;
  asked_at = none;
  decided_at = none;
  refusal = none;
}

abbrev state : Publishing
state = record { rows = row ∷ []; events = [] }

abbrev orders : List Order
orders =
    record { command = ask_to_publish; tenant = practice; at = new_year; later = new_year }
    ∷ record {
      command = turn_down looks_borrowed;
      tenant = practice;
      at = new_year;
      later = new_year;
    }
    ∷ record { command = ask_to_publish; tenant = practice; at = new_year; later = new_year }
    ∷ record { command = let_out; tenant = practice; at = new_year; later = new_year }
    ∷ []

told : IsTold practice false state
unfolding find_practice opened is_discoverable
told = record { practice = opened practice new_year; found = refl; known = refl }

execute_all-IsTold_example : IsTold practice false (execute_all orders state)
execute_all-IsTold_example =
    execute_all-IsTold orders practice false state (refl, (refl, (refl, (refl, tt)))) told

-- A view that was shown, and one that was refused.
abbrev journal : Journal
journal =
    record {
      tenant = practice;
      actor = parent;
      subject = pupil;
      kind = recording;
      outcome = refused;
      at = new_year;
    }
    ∷ record {
      tenant = practice;
      actor = teacher;
      subject = pupil;
      kind = chat;
      outcome = shown;
      at = new_year;
    }
    ∷ []
