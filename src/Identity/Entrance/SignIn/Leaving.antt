-- ===== src/Identity/Entrance/SignIn/Leaving.antt =====
-- sign_out.cpp and authenticate_session.cpp: whom a session lets in, and until when.
use mathlib.Core.Option.{some-injective}
use pdr.Base.{
  ◌≡◌, refl, ap, ◌∙◌, true, false, List, [], ◌∷◌, some, has_value, arith, if◌then◌else◌, if_both,
  sym, Bool-cases, inl, inr,
}
use pdr.Core.Errors.{Error, ok, err, refuse, forbidden, Result-cases}
use pdr.Core.Time.{Instant}
use pdr.Identity.Sessions.{SessionId, Session, revoke}
use pdr.Identity.Sessions
use pdr.Identity.Entrance.SessionStore.{
  find, merged, same_session, same_session_sound, find-save, same_session_refl,
}
use pdr.Identity.Entrance.Tables.{Tables}
use pdr.Identity.Entrance.SignIn.{sign_out, authenticate, authenticate_found}

find_id : (id : SessionId) (rows : List Session) {s : Session} → find id rows ≡ some s → s.id ≡ id
unfolding find
find_id id [] h = absurd (ground arith)
find_id id (row ∷ rows) {s} h = elim (Bool-cases (same_session row.id id)) [
  | inl same ↦
      ap (λ (t : Session). t.id) (sym (some-injective row s (rw same at h)))
      ∙ same_session_sound row.id id same
  | inr other ↦ find_id id rows (rw other at h)
]

revoked_now :
    (now later : Instant) (row s : Session)
    → authenticate_found later (some (record row { revoked_at = (revoke s now).revoked_at }))
      ≡ refuse forbidden "session_revoked" "сессия отозвана"
unfolding authenticate_found revoke
revoked_now now later row s = ground arith

let_through :
    (s : Session) (moment : Instant)
    → Sessions.is_usable_at s moment ≡ true
    → authenticate_found moment (some s) ≡ ok s
unfolding authenticate_found Sessions.is_usable_at
let_through s moment usable = ground (arith, usable)

turned_away :
    (s : Session) (moment : Instant)
    → Sessions.is_usable_at s moment ≡ false
    → (e : Error) × (authenticate_found moment (some s) ≡ err e)
unfolding authenticate_found
turned_away s moment over = elim (Result-cases (authenticate_found moment (some s))) [
  | inl (t, made) ↦ absurd (ground (arith, over, made))
  | inr refusal ↦ refusal
]

revoke_id : (s : Session) (now : Instant) → (revoke s now).id ≡ s.id
unfolding revoke
revoke_id s now = if_both {A = Session} (λ t. t.id ≡ s.id) (has_value s.revoked_at) refl refl

signed_out :
    (now later : Instant) (id : SessionId) (s : Session) (tables : Tables)
    → s.id ≡ id
    → find id tables.sessions ≡ some s
    → authenticate_found later (
        if same_session (revoke s now).id id
        then some (merged (find (revoke s now).id tables.sessions) (revoke s now))
        else find id tables.sessions)
      ≡ refuse forbidden "session_revoked" "сессия отозвана"
signed_out now later id s tables its found =
    rw (revoke_id s now, its, same_session_refl id, found)
      (revoked_now now later s (record s { id = id }))

-- A session that the table has is answered with itself while it is usable, and refused at every other
-- moment. Once signed out it is refused at every later moment as revoked, and every other session is
-- answered as before.
pub sign_out_final :
    (id : SessionId) (s : Session) (now : Instant) (tables : Tables)
    → find id tables.sessions ≡ some s
    → ((moment : Instant)
        → Sessions.is_usable_at s moment ≡ true
        → authenticate moment id tables.sessions ≡ ok s)
      × ((moment : Instant)
          → Sessions.is_usable_at s moment ≡ false
          → (e : Error) × (authenticate moment id tables.sessions ≡ err e))
      × ((later : Instant)
          → authenticate later id (sign_out now id tables).sessions
            ≡ refuse forbidden "session_revoked" "сессия отозвана")
      × ((later : Instant) (other : SessionId)
          → same_session id other ≡ false
          → authenticate later other (sign_out now id tables).sessions
            ≡ authenticate later other tables.sessions)
unfolding authenticate sign_out
sign_out_final id s now tables found =
    let its = find_id id tables.sessions found in
    (
      λ moment usable. rw found (let_through s moment usable),
      λ moment over. rw found (turned_away s moment over),
      λ later. rw found (
          ap (authenticate_found later) (find-save (revoke s now) id tables.sessions)
          ∙ signed_out now later id s tables its found),
      λ later other apart. rw found (
          ap (authenticate_found later)
            (find-save (revoke s now) other tables.sessions ∙ rw (revoke_id s now, its, apart))),
    )
