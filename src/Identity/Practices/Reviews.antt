-- ===== src/Identity/Practices/Reviews.antt =====
-- identity/application/manage_publication.hpp and manage_publication.cpp, with events/identity/
-- practice_visibility_changed.hpp of libs/pdr-events: the requests and the decisions about the
-- publication of a practice, and what is announced of them. The last announcement stands first.
pub mod Told
use pdr.Base.{Bool, List, [], ◌∷◌, String}
use pdr.Core.Errors.{Error, Result, ok, err, refuse, not_found}
use pdr.Core.Ids.{TenantId}
use pdr.Core.Time.{Instant}
use pdr.Identity.Practices.{
  visibility_name, RefusalReason, Practice, is_discoverable, asked_to_publish, publish,
  refused_because, hide,
}
use pdr.Identity.Practices.Store.{
  PracticeRow, Found, absent, broken, there, find_practice, save_practice,
}

pub record PracticeVisibilityChanged : Type 0 where
  pub tenant : TenantId
  pub occurred_at : Instant
  pub visibility : String
  pub discoverable : Bool

-- The table of the practices and the events of the bus.
pub record Publishing : Type 0 where
  pub rows : List PracticeRow
  pub events : List PracticeVisibilityChanged

-- What a call comes back with, or that it throws.
pub data Answer : Type 0 where
  answered : Result Practice → Answer
  thrown : Answer

-- `AskToPublish::Execute` and `Hide`, `DecidePublication::Publish` and `Refuse`.
pub data Command : Type 0 where
  ask_to_publish conceal let_out : Command
  turn_down : RefusalReason → Command

unfoldable pub announce :
    Practice → Instant → List PracticeVisibilityChanged → List PracticeVisibilityChanged
unfolding visibility_name is_discoverable
announce practice at events =
    record {
      tenant = practice.tenant;
      occurred_at = at;
      visibility = visibility_name practice.visibility;
      discoverable = is_discoverable practice;
    }
    ∷ events

unfoldable pub decided : Command → Practice → Instant → Result Practice
unfolding asked_to_publish publish refused_because hide
decided ask_to_publish practice at = asked_to_publish practice at
decided conceal practice at = ok (hide practice at)
decided let_out practice at = publish practice at
decided (turn_down reason) practice at = refused_because practice reason at

-- What follows a decision; the clock is read again for the announcement.
unfoldable pub settle : Result Practice → Instant → Publishing → Answer × Publishing
unfolding save_practice announce
settle (err e) later state = (answered (err e), state)
settle (ok practice) later state = (
  answered (ok practice),
  record {
    rows = save_practice practice state.rows;
    events = announce practice later state.events;
  },
)

unfoldable pub found_then : Found → Command → Instant → Instant → Publishing → Answer × Publishing
unfolding decided settle
found_then absent command at later state =
    (answered (refuse not_found "practice_unknown" "такой практики нет"), state)
found_then broken command at later state = (thrown, state)
found_then (there practice) command at later state =
    settle (decided command practice at) later state

unfoldable pub execute : Command → TenantId → Instant → Instant → Publishing → Answer × Publishing
unfolding find_practice found_then
execute command tenant at later state =
    found_then (find_practice tenant state.rows) command at later state

-- A call with what the clock gives it.
pub record Order : Type 0 where
  pub command : Command
  pub tenant : TenantId
  pub at : Instant
  pub later : Instant

unfoldable pub execute_all : List Order → Publishing → Publishing
unfolding execute
execute_all [] state = state
execute_all (order ∷ orders) state =
    execute_all orders (execute order.command order.tenant order.at order.later state).1
