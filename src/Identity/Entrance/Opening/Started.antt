-- ===== src/Identity/Entrance/Opening/Started.antt =====
-- open_practice.cpp: how a practice starts.
use pdr.Base.{
  ◌≡◌, refl, ap, ◌∙◌, subst, true, List, none, some, arith, Bool-cases, inl, inr, ==_refl, is_blank,
  trimmed, String,
}
use pdr.Core.Errors.{Result, ok, err, Result-cases}
use pdr.Core.Ids.{TenantId, PersonId}
use pdr.Core.Time.{Instant}
use pdr.Core.Zones.{TimeZone}
use pdr.Identity.Sessions.{
  SessionId, Session, open_session, is_usable_at, open_session-is_usable_at,
}
use pdr.Identity.Accounts.{AuthLifetimes}
use pdr.Identity.Practices.{opened, visibility_name, parse_visibility}
use pdr.Identity.Practices.Store.{
  Tenant, compose_tenant, is_space, PracticeRow, there, open_row, has_row, find_practice, read_row,
  read_visibility, read_refusal, with_refusal,
}
use pdr.Identity.Entrance.Passwords.{PasswordRules, PasswordHash}
use pdr.Identity.Entrance.PeopleStore.{
  Enrolment, PersonRow, CredentialRow, RoleRow, Enrolled, enrolled, refused, enrol, knows,
  mail_is_known, has_person_row, is_blank_name, find_by_email, save_hash, grant_roles,
}
use pdr.Identity.Entrance.PeopleStore
use pdr.Identity.Entrance.SessionStore
use pdr.Identity.Entrance.Tables.{Services}
use pdr.Identity.Entrance.Resets.{new_hash}
use pdr.Identity.Entrance.Arrivals.{find_by_email-enrol, open_session-IsSaved}
use pdr.Identity.Entrance.Opening.{
  OpenPracticeRequest, OpenedPractice, Town, Opening, finished, broken, Drawn, owner_enrolment,
  opened_session, opened_people, opened_row, opened_tenant, opened_hash, opened_by, open_practice,
}

-- The identifier of the session that an opening draws.
abbrev pub drawn_session : Drawn → SessionId
drawn_session drawn = record { tenant = drawn.tenant; secret = drawn.secret }

-- What an opening leaves: a hidden practice, an owner who is found by the mail with the hash of the
-- password, and a session of the owner in the table, under the identifier that was drawn.
pub record IsOpened (now : Instant) (drawn : Drawn) (request : OpenPracticeRequest)
    (hash : PasswordHash) (r : OpenedPractice) (after : Town) : Type 0 where
  pub row : find_practice r.tenant after.practices ≡ there (opened r.tenant now)
  pub welcome :
      find_by_email r.tenant request.mail after.tables.people after.tables.credentials
      ≡ some (record { person = r.owner; hash = hash })
  pub here : r.tenant ≡ drawn.tenant
  pub whose : r.session.person ≡ r.owner
  pub own_id : r.session.id ≡ drawn_session drawn
  pub kept : SessionStore.find (drawn_session drawn) after.tables.sessions ≡ some r.session
  pub usable : is_usable_at r.session now ≡ true

opened_of : OpenedPractice → Opening → OpenedPractice
opened_of other (finished (ok r) town) = r
opened_of other (finished (err e) town) = other
opened_of other (broken accounts) = other

town_of : Town → Opening → Town
town_of other (finished result town) = town
town_of other (broken accounts) = other

rows_of : List PracticeRow → Result (List PracticeRow) → List PracticeRow
rows_of other (ok rows) = rows
rows_of other (err e) = other

find_practice-open_row :
    (tenant : Tenant) (zone : TimeZone) (now : Instant) (rows practices : List PracticeRow)
    → open_row tenant zone (opened tenant.id now) rows ≡ ok practices
    → find_practice tenant.id practices ≡ there (opened tenant.id now)
unfolding open_row opened find_practice read_row visibility_name parse_visibility read_visibility
    read_refusal with_refusal rows_of
find_practice-open_row tenant zone now rows practices h =
    elim (Bool-cases (has_row tenant.id rows)) [
      | inl there_already ↦ absurd (ground (arith, rw there_already at h))
      | inr free ↦ rw (← ap (rows_of rows) (rw free at h), ==_refl tenant.id.value) refl
    ]

compose_tenant-id :
    (id : TenantId) (name : String) (tenant : Tenant)
    → compose_tenant id name ≡ ok tenant
    → tenant.id ≡ id
unfolding compose_tenant
compose_tenant-id id name tenant h = elim (Bool-cases (is_blank (trimmed is_space name))) [
  | inl blank ↦ absurd (ground (arith, rw blank at h))
  | inr named ↦ ground (arith, rw named at h)
]

module _ (services : Services) (lifetimes : AuthLifetimes) (now : Instant) (drawn : Drawn)
    (request : OpenPracticeRequest) (hash : PasswordHash) (person : PersonId) (r : OpenedPractice)
    (after : Town) where
  opened_session-IsOpened :
      (town : Town) (result : Result Session)
      → find_practice drawn.tenant town.practices ≡ there (opened drawn.tenant now)
      → find_by_email drawn.tenant request.mail town.tables.people town.tables.credentials
        ≡ some (record { person = person; hash = hash })
      → open_session
          (record { tenant = drawn.tenant; secret = drawn.secret })
          person
          now
          lifetimes.session
          request.seen_as
        ≡ result
      → SessionStore.find (drawn_session drawn) town.tables.sessions ≡ none
      → opened_session services drawn.tenant person town result ≡ finished (ok r) after
      → IsOpened now drawn request hash r after
  unfolding opened_session opened_of town_of
  opened_session-IsOpened town (err e) row welcome made fresh h = absurd (ground (arith, h))
  opened_session-IsOpened town (ok session) row welcome made fresh h =
      let first = ap (opened_of r) h in
      let second = ap (town_of town) h in
      let usable =
        (open_session-is_usable_at _ person now lifetimes.session request.seen_as session made).0 in
      let saved =
        open_session-IsSaved (drawn_session drawn) person now lifetimes.session request.seen_as
          town.tables.sessions session fresh made in
      subst (λ x. IsOpened now drawn request hash x after) first
        (subst
          (λ y.
            IsOpened now drawn request hash
              (record { tenant = drawn.tenant; owner = person; session = session }) y)
          second
          (record {
            row = row;
            welcome = welcome;
            here = refl;
            whose = saved.same_person;
            own_id = saved.same_id;
            kept = saved.found;
            usable = usable;
          }))

  opened_people-IsOpened :
      (town : Town) (people : Enrolled)
      → find_practice drawn.tenant town.practices ≡ there (opened drawn.tenant now)
      → enrol drawn.tenant
          (owner_enrolment services request person)
          town.tables.people
          town.tables.roles
        ≡ people
      → SessionStore.find (drawn_session drawn) town.tables.sessions ≡ none
      → opened_people services lifetimes now drawn request hash person town people
        ≡ finished (ok r) after
      → IsOpened now drawn request hash r after
  unfolding opened_people owner_enrolment
  opened_people-IsOpened town (refused e) row made fresh h = absurd (ground (arith, h))
  opened_people-IsOpened town PeopleStore.failed row made fresh h = absurd (ground (arith, h))
  opened_people-IsOpened town (enrolled people roles) row made fresh h =
      opened_session-IsOpened _ _ row
        (find_by_email-enrol drawn.tenant (owner_enrolment services request person) request.mail
          hash town.tables.people people town.tables.roles roles town.tables.credentials refl made)
        refl fresh h

  opened_row-IsOpened :
      (town : Town) (tenant : Tenant) (rows : Result (List PracticeRow))
      → tenant.id ≡ drawn.tenant
      → open_row tenant request.zone (opened tenant.id now) town.practices ≡ rows
      → SessionStore.find (drawn_session drawn) town.tables.sessions ≡ none
      → opened_row services lifetimes now drawn request hash person town rows
        ≡ finished (ok r) after
      → IsOpened now drawn request hash r after
  unfolding opened_row
  opened_row-IsOpened town tenant (err e) same made fresh h = absurd (ground (arith, h))
  opened_row-IsOpened town tenant (ok practices) same made fresh h =
      opened_people-IsOpened (record town { practices = practices }) _
        (subst (λ t. find_practice t practices ≡ there (opened t now)) same
          (find_practice-open_row tenant request.zone now town.practices practices made))
        refl fresh h

  opened_tenant-IsOpened :
      (town : Town) (tenant : Result Tenant)
      → compose_tenant drawn.tenant request.practice_name ≡ tenant
      → SessionStore.find (drawn_session drawn) town.tables.sessions ≡ none
      → opened_tenant services lifetimes now drawn request hash person town tenant
        ≡ finished (ok r) after
      → IsOpened now drawn request hash r after
  unfolding opened_tenant
  opened_tenant-IsOpened town (err e) made fresh h = absurd (ground (arith, h))
  opened_tenant-IsOpened town (ok tenant) made fresh h =
      opened_row-IsOpened town tenant _
        (compose_tenant-id drawn.tenant request.practice_name tenant made) refl fresh h

-- The hash that the settings make of the password of a request.
abbrev pub hash_of : Services → OpenPracticeRequest → Result PasswordRules → Result PasswordHash
hash_of services request (ok rules) = new_hash services rules request.password
hash_of services request (err e) = err e

-- A practice that was opened, where no session stood under the identifier that was drawn for its session,
-- stands in its table hidden, as opened at the moment, under the identifier that was drawn for it. Its
-- owner is found there by the mail of the request, with the hash of the password of the request. The
-- session that is returned is theirs, has the drawn identifier, stands in the table of the sessions, and
-- is usable at once.
pub open_practice-IsOpened :
    (services : Services) (now : Instant) (drawn : Drawn) (request : OpenPracticeRequest)
    (town after : Town) (r : OpenedPractice)
    → SessionStore.find (drawn_session drawn) town.tables.sessions ≡ none
    → open_practice services now drawn request town ≡ finished (ok r) after
    → (hash : PasswordHash) × (hash_of services request services.passwords ≡ ok hash)
      × IsOpened now drawn request hash r after
unfolding open_practice opened_by opened_hash
open_practice-IsOpened services now drawn request town after r fresh h =
    elim (Result-cases services.passwords) [
      | inr (e, unset) ↦ absurd (ground (arith, rw unset at h))
      | inl (rules, set) ↦ elim (Result-cases services.lifetimes) [
        | inr (e, unset) ↦ absurd (ground (arith, rw (set, unset) at h))
        | inl (lifetimes, lives) ↦ elim (Result-cases (new_hash services rules request.password)) [
          | inr (e, bad) ↦ absurd (ground (arith, rw (set, lives, bad) at h))
          | inl (hash, fine) ↦ (
            hash,
            ap (hash_of services request) set ∙ fine,
            opened_tenant-IsOpened services lifetimes now drawn request hash _ r after _ _ refl
                fresh (rw (set, lives, fine) at h),
          )
        ]
      ]
    ]
