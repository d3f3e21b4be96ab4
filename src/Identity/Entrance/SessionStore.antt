-- ===== src/Identity/Entrance/SessionStore.antt =====
-- identity/infrastructure/auth/postgres_session_store.cpp: the table of the sessions. Its key is the
-- pair of practice and secret, and a statement meets the rows of its own practice only. The CHECK of
-- db/migrations/V006 that a session is not revoked before it was created is not modelled.
use pdr.Base.{
  ◌≡◌, refl, ap, ◌∙◌, sym, Bool, true, not, ◌&&◌, List, [], ◌∷◌, Option, none, some, has_value,
  if◌then◌else◌, Bool-cases, if_both, if_idle, if_swap, inl, inr, arith, ==_refl,
}
use pdr.Core.Ids.{TenantId, PersonId, same_id}
use pdr.Core.Time.{Instant}
use pdr.Identity.Sessions.{SessionId, Session}

abbrev pub same_session : SessionId → SessionId → Bool
same_session a b = same_id a.tenant b.tenant && same_id a.secret b.secret

-- `kSave`: a new row, or a new moment of revocation in the row that stands.
unfoldable pub save : Session → List Session → List Session
save session [] = session ∷ []
save session (row ∷ rows) =
    if same_session row.id session.id
    then record row { revoked_at = session.revoked_at } ∷ rows
    else row ∷ save session rows

unfoldable pub find : SessionId → List Session → Option Session
find id [] = none
find id (row ∷ rows) = if same_session row.id id then some row else find id rows

-- `kRevokeAll`.
abbrev pub is_live_of : TenantId → PersonId → Session → Bool
is_live_of tenant person row =
    same_id row.id.tenant tenant && (same_id row.person person && not (has_value row.revoked_at))

unfoldable pub revoke_row : TenantId → PersonId → Instant → Session → Session
revoke_row tenant person at row =
    if is_live_of tenant person row then record row { revoked_at = some at } else row

unfoldable pub revoke_all : TenantId → PersonId → Instant → List Session → List Session
unfolding revoke_row
revoke_all tenant person at [] = []
revoke_all tenant person at (row ∷ rows) =
    revoke_row tenant person at row ∷ revoke_all tenant person at rows

-- What is stored for a session that is saved, beside what stood there.
abbrev pub merged : Option Session → Session → Session
merged none session = session
merged (some row) session = record row { revoked_at = session.revoked_at }

abbrev pub map_found : (Session → Session) → Option Session → Option Session
map_found f none = none
map_found f (some row) = some (f row)

pub same_session_sound : (a b : SessionId) → same_session a b ≡ true → a ≡ b
same_session_sound a b h =
    let tenants : a.tenant.value ≡ b.tenant.value = ground (arith, h) in
    let secrets : a.secret.value ≡ b.secret.value = ground (arith, h) in
    λ i. record { tenant = record { value = tenants i }; secret = record { value = secrets i } }

pub same_session_refl : (a : SessionId) → same_session a a ≡ true
same_session_refl a = rw (==_refl a.tenant.value, ==_refl a.secret.value)

-- After a save, the session that was saved is found as it was merged, and any other as before.
pub find-save :
    (session : Session) (id : SessionId) (rows : List Session)
    → find id (save session rows) ≡ (
        if same_session session.id id
        then some (merged (find session.id rows) session)
        else find id rows)
unfolding find save
find-save session id [] = refl
find-save session id (row ∷ rows) = elim (Bool-cases (same_session row.id session.id)) [
  | inl same ↦
      let one = ap (λ x. same_session x id) (same_session_sound row.id session.id same) in
      rw (same, one) (if_idle (same_session session.id id) _ (some row) _)
  | inr other ↦ rw other (
      ap (λ o. if same_session row.id id then some row else o) (find-save session id rows)
      ∙ if_swap (same_session row.id id) (same_session session.id id) _ _ _ (λ asked.
        ap (λ x. same_session row.id x) (sym (same_session_sound session.id id asked)) ∙ other))
]

revoke_row-id :
    (tenant : TenantId) (person : PersonId) (at : Instant) (row : Session)
    → (revoke_row tenant person at row).id ≡ row.id
unfolding revoke_row
revoke_row-id tenant person at row =
    if_both {A = Session} (λ s. s.id ≡ row.id) (is_live_of tenant person row) refl refl

-- After all sessions of a person are revoked, each session is found with its own row revoked.
pub find-revoke_all :
    (tenant : TenantId) (person : PersonId) (at : Instant) (id : SessionId) (rows : List Session)
    → find id (revoke_all tenant person at rows)
      ≡ map_found (revoke_row tenant person at) (find id rows)
unfolding find revoke_all
find-revoke_all tenant person at id [] = refl
find-revoke_all tenant person at id (row ∷ rows) =
    let whose = ap (λ x. same_session x id) (revoke_row-id tenant person at row) in
    elim (Bool-cases (same_session row.id id)) [
      | inl same ↦ rw (whose, same)
      | inr other ↦ rw (whose, other) (find-revoke_all tenant person at id rows)
    ]
