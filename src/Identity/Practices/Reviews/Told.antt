-- ===== src/Identity/Practices/Reviews/Told.antt =====
-- manage_publication.cpp: what was announced of a practice is what the table says of it.
use pdr.Base.{
  ◌≡◌, refl, sym, ◌∙◌, Bool, true, List, [], ◌∷◌, arith, if◌then◌else◌, Bool-cases, inl, inr, All,
  subst,
}
use pdr.Core.Errors.{ok, Result-cases}
use pdr.Core.Ids.{TenantId, same_id}
use pdr.Core.Time.{Instant}
use pdr.Identity.Practices.{
  Practice, is_discoverable, asked_to_publish, publish, refused_because, hide,
}
use pdr.Identity.Practices.Store.{Found, absent, broken, there, find_practice}
use pdr.Identity.Practices.Reviews.{
  PracticeVisibilityChanged, Publishing, Command, ask_to_publish, conceal, let_out, turn_down,
  announce, decided, settle, found_then, execute, Order, execute_all,
}
use pdr.Identity.Practices.Store.Saving.{
  is_real, is_real_reason, same_tenant, find_practice-IsOf, find_practice-save_practice,
  find_practice-save_practice_other,
}

abbrev pub is_real_command : Command → Bool
is_real_command (turn_down reason) = is_real_reason reason
is_real_command _ = true

-- What the last announcement said of a practice, or what was known at first.
abbrev pub last_known : TenantId → Bool → List PracticeVisibilityChanged → Bool
last_known tenant first [] = first
last_known tenant first (event ∷ events) =
    if same_id event.tenant tenant then event.discoverable else last_known tenant first events

-- A practice stands in the table, and who heard the announcements knows whether it is found.
pub record IsTold (tenant : TenantId) (first : Bool) (state : Publishing) : Type 0 where
  pub practice : Practice
  pub found : find_practice tenant state.rows ≡ there practice
  pub known : last_known tenant first state.events ≡ is_discoverable practice

record IsDecided (p q : Practice) : Type 0 where
  same : q.tenant ≡ p.tenant
  since : q.opened_at ≡ p.opened_at
  real : is_real q ≡ true

decided-IsDecided :
    (command : Command) (p q : Practice) (at : Instant)
    → is_real_command command ≡ true
    → decided command p at ≡ ok q
    → IsDecided p q
unfolding decided asked_to_publish publish refused_because hide
decided-IsDecided ask_to_publish p q at h e = record {
  same = ground (arith, e);
  since = ground (arith, e);
  real = ground (arith, e);
}
decided-IsDecided conceal p q at h e = record {
  same = ground (arith, e);
  since = ground (arith, e);
  real = ground (arith, e);
}
decided-IsDecided let_out p q at h e = record {
  same = ground (arith, e);
  since = ground (arith, e);
  real = ground (arith, e);
}
decided-IsDecided (turn_down reason) p q at h e = record {
  same = ground (arith, e);
  since = ground (arith, e);
  real = ground (arith, h, e);
}

settle-IsTold :
    (tenant : TenantId) (first : Bool) (state : Publishing) (p q : Practice) (later : Instant)
    → find_practice q.tenant state.rows ≡ there p
    → IsDecided p q
    → IsTold tenant first state
    → IsTold tenant first (settle (ok q) later state).1
unfolding settle announce
settle-IsTold tenant first state p q later there_p done told =
    elim (Bool-cases (same_id q.tenant tenant)) [
      | inl here ↦ record {
        practice = q;
        found =
            rw (← same_tenant q.tenant tenant here)
              (find_practice-save_practice q p state.rows there_p done.real (sym done.since));
        known = rw here refl;
      }
      | inr other ↦ record {
        practice = told.practice;
        found = find_practice-save_practice_other q tenant state.rows other ∙ told.found;
        known = rw other told.known;
      }
    ]

found_then-IsTold :
    (tenant : TenantId) (first : Bool) (state : Publishing) (about : TenantId) (found : Found)
    (command : Command) (at later : Instant)
    → find_practice about state.rows ≡ found
    → is_real_command command ≡ true
    → IsTold tenant first state
    → IsTold tenant first (found_then found command at later state).1
unfolding found_then
found_then-IsTold tenant first state about absent command at later h real told = told
found_then-IsTold tenant first state about broken command at later h real told = told
found_then-IsTold tenant first state about (there p) command at later h real told =
    elim (Result-cases (decided command p at)) [
      | inr (e, refusal) ↦ rw refusal (unfold settle in told)
      | inl (q, done) ↦
          let so = decided-IsDecided command p q at real done in
          rw done (
            settle-IsTold tenant first state p q later
              (subst (λ t. find_practice t state.rows ≡ there p)
                (sym (so.same ∙ find_practice-IsOf about state.rows h)) h)
              so told)
    ]

-- Whatever is asked, decided and hidden, of any practices and in any order, a practice that stood in
-- the table still stands there and can be read, and the last announcement of it says whether it is
-- found, if what was known of it at first was true and no refusal gives the reason that is none.
pub execute_all-IsTold :
    (orders : List Order) (tenant : TenantId) (first : Bool) (state : Publishing)
    → All (λ (order : Order). is_real_command order.command ≡ true) orders
    → IsTold tenant first state
    → IsTold tenant first (execute_all orders state)
unfolding execute_all execute
execute_all-IsTold [] tenant first state real told = told
execute_all-IsTold (order ∷ orders) tenant first state (real, rest) told =
    execute_all-IsTold orders tenant first
      (execute order.command order.tenant order.at order.later state).1 rest
      (found_then-IsTold tenant first state order.tenant (find_practice order.tenant state.rows)
        order.command order.at order.later refl real told)
