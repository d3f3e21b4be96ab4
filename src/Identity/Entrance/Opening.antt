-- ===== src/Identity/Entrance/Opening.antt =====
-- identity/application/open_practice.hpp and open_practice.cpp, enrol_child.hpp and enrol_child.cpp: a
-- practice that is opened with its owner, and a child who is enrolled without an account. No adapter of
-- the guardianships stands in the repository: those that are handed to its `Save` are listed.
pub mod Started
use pdr.Base.{ℕ, List, [], ◌∷◌, Option, none, some, String}
use pdr.Core.Errors.{Error, Result, ok, err}
use pdr.Core.Ids.{StrongId, session_tag, TenantId, PersonId}
use pdr.Core.Time.{Instant}
use pdr.Core.Zones.{TimeZone}
use pdr.Identity.Roles.{owner, tutor, student, roles_of}
use pdr.Identity.Ages.{BirthDate}
use pdr.Identity.Guardianship.{Guardianship, grant}
use pdr.Identity.Tokens.{Digest}
use pdr.Identity.Sessions.{Fingerprint, Session, open_session}
use pdr.Identity.Accounts.{Account, AuthLifetimes}
use pdr.Identity.Practices.{opened}
use pdr.Identity.Practices.Store.{Tenant, compose_tenant, PracticeRow, open_row}
use pdr.Identity.Entrance.Passwords.{Email, PasswordRules, PasswordHash}
use pdr.Identity.Entrance.SessionStore.{save}
use pdr.Identity.Entrance.PeopleStore.{
  Person, Enrolment, PersonRow, RoleRow, enrol, Enrolled, enrolled, refused, save_hash,
  find_by_mail,
}
use pdr.Identity.Entrance.PeopleStore
use pdr.Identity.Entrance.Tables.{Tables, Services}
use pdr.Identity.Entrance.Resets.{new_hash}
use pdr.Identity.Entrance.Joining.{account_for, accounts_with}

pub record OpenPracticeRequest : Type 0 where
  pub practice_name : String
  pub display_name : String
  pub mail : Email
  pub born_on : BirthDate
  pub zone : TimeZone
  pub password : List ℕ
  pub seen_as : Fingerprint

pub record OpenedPractice : Type 0 where
  pub tenant : TenantId
  pub owner : PersonId
  pub session : Session

-- The tables of the entrance and that of the practices.
pub record Town : Type 0 where
  pub tables : Tables
  pub practices : List PracticeRow

pub data Opening : Type 0 where
  finished : Result OpenedPractice → Town → Opening
  broken : List Account → Opening

-- What the generators give: an identifier of a person and of a practice, and the secret of a session.
pub record Drawn : Type 0 where
  pub person : PersonId
  pub tenant : TenantId
  pub secret : StrongId session_tag

module _ (services : Services) where
  unfoldable pub owner_enrolment : OpenPracticeRequest → PersonId → Enrolment
  unfolding roles_of
  owner_enrolment request person = record {
    person = record { id = person; mail = some request.mail; born_on = request.born_on };
    roles = roles_of (owner ∷ tutor ∷ []);
    display_name = request.display_name;
    zone = request.zone.name;
  }

  unfoldable pub opened_session : TenantId → PersonId → Town → Result Session → Opening
  opened_session tenant person town (err e) = finished (err e) town
  opened_session tenant person town (ok session) =
      finished (ok (record { tenant = tenant; owner = person; session = session })) (record town {
        tables = record town.tables { sessions = save session town.tables.sessions };
      })

  unfoldable pub opened_people :
      AuthLifetimes
      → Instant
      → Drawn
      → OpenPracticeRequest
      → PasswordHash
      → PersonId
      → Town
      → Enrolled
      → Opening
  unfolding opened_session
  opened_people lifetimes now drawn request hash person town (refused e) = finished (err e) town
  opened_people lifetimes now drawn request hash person town PeopleStore.failed =
      broken town.tables.accounts
  opened_people lifetimes now drawn request hash person town (enrolled people roles) =
      opened_session drawn.tenant person
        (record town {
          tables = record town.tables {
            people = people;
            roles = roles;
            credentials = save_hash drawn.tenant person hash town.tables.credentials;
          };
        })
        (open_session (record { tenant = drawn.tenant; secret = drawn.secret }) person now
          lifetimes.session request.seen_as)

  unfoldable pub opened_row :
      AuthLifetimes
      → Instant
      → Drawn
      → OpenPracticeRequest
      → PasswordHash
      → PersonId
      → Town
      → Result (List PracticeRow)
      → Opening
  unfolding opened_people owner_enrolment
  opened_row lifetimes now drawn request hash person town (err e) = finished (err e) town
  opened_row lifetimes now drawn request hash person town (ok practices) =
      opened_people lifetimes now drawn request hash person (record town { practices = practices })
        (enrol drawn.tenant (owner_enrolment request person) town.tables.people town.tables.roles)

  unfoldable pub opened_tenant :
      AuthLifetimes
      → Instant
      → Drawn
      → OpenPracticeRequest
      → PasswordHash
      → PersonId
      → Town
      → Result Tenant
      → Opening
  unfolding opened_row
  opened_tenant lifetimes now drawn request hash person town (err e) = finished (err e) town
  opened_tenant lifetimes now drawn request hash person town (ok tenant) =
      opened_row lifetimes now drawn request hash person town
        (open_row tenant request.zone (opened tenant.id now) town.practices)

  -- The account is saved before anything of the practice is looked at.
  unfoldable pub opened_hash :
      AuthLifetimes → Instant → Drawn → OpenPracticeRequest → Town → Result PasswordHash → Opening
  unfolding opened_tenant account_for accounts_with
  opened_hash lifetimes now drawn request town (err e) = finished (err e) town
  opened_hash lifetimes now drawn request town (ok hash) =
      let mail = services.digest_of request.mail.value in
      let found = find_by_mail mail town.tables.accounts in
      opened_tenant lifetimes now drawn request hash
        (account_for services drawn.person mail now found).id
        (record town {
          tables = record town.tables {
            accounts = accounts_with services drawn.person mail now found town.tables.accounts;
          };
        })
        (compose_tenant drawn.tenant request.practice_name)

  opened_by :
      Result PasswordRules
      → Result AuthLifetimes
      → Instant
      → Drawn
      → OpenPracticeRequest
      → Town
      → Opening
  unfolding opened_hash new_hash
  opened_by (err e) lifetimes now drawn request town = finished (err e) town
  opened_by (ok rules) (err e) now drawn request town = finished (err e) town
  opened_by (ok rules) (ok lifetimes) now drawn request town =
      opened_hash lifetimes now drawn request town (new_hash services rules request.password)

  -- `OpenPractice::Execute`.
  unfoldable pub open_practice : Instant → Drawn → OpenPracticeRequest → Town → Opening
  unfolding opened_by
  open_practice now drawn request town =
      opened_by services.passwords services.lifetimes now drawn request town

pub record EnrolChildRequest : Type 0 where
  pub tenant : TenantId
  pub guardian : PersonId
  pub display_name : String
  pub born_on : BirthDate
  pub zone : TimeZone

-- The people and the roles, and the guardianships that were handed to `Save`.
pub record Families : Type 0 where
  pub people : List PersonRow
  pub roles : List RoleRow
  pub saved : List Guardianship

pub data ChildEnrolled : Type 0 where
  finished : Result PersonId → Families → ChildEnrolled
  broken : ChildEnrolled

under_guardian : PersonId → Families → Result Guardianship → ChildEnrolled
under_guardian child families (err e) = ChildEnrolled.finished (err e) families
under_guardian child families (ok guardianship) =
    ChildEnrolled.finished (ok child) (record families { saved = guardianship ∷ families.saved })

child_enrolled : Instant → PersonId → EnrolChildRequest → Families → Enrolled → ChildEnrolled
unfolding under_guardian grant
child_enrolled now child request families (refused e) = ChildEnrolled.finished (err e) families
child_enrolled now child request families PeopleStore.failed = ChildEnrolled.broken
child_enrolled now child request families (enrolled people roles) =
    under_guardian child (record families { people = people; roles = roles })
      (grant request.tenant request.guardian child now)

-- `EnrolChild::Execute`, with the identifier that the generator gives.
unfoldable pub enrol_child : Instant → PersonId → EnrolChildRequest → Families → ChildEnrolled
unfolding child_enrolled roles_of enrol
enrol_child now child request families = child_enrolled now child request families (
    enrol request.tenant
      (record {
        person = record { id = child; mail = none; born_on = request.born_on };
        roles = roles_of (student ∷ []);
        display_name = request.display_name;
        zone = request.zone.name;
      })
      families.people families.roles)
