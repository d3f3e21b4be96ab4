-- ===== src/Identity/Entrance/PeopleStore.antt =====
-- identity/infrastructure/auth/postgres_credential_store.cpp, postgres_participant_directory.cpp and
-- infrastructure/onboarding/postgres_accounts.cpp: the tables of the people of the practices, of their
-- passwords and roles, and of the accounts. The keys of the tables are those of db/migrations; of the
-- CHECKs there is the one on the name of a person.
use pdr.Base.{
  ◌==◌, is_blank, trimmed, Bool, false, not, ◌&&◌, ◌||◌, List, [], ◌∷◌, Option, none, some, String,
  str_eq, if◌then◌else◌,
}
use pdr.Core.Errors.{Error, conflict}
use pdr.Core.Ids.{TenantId, PersonId, same_id}
use pdr.Identity.Roles.{Role, RoleSet, has_role, every_role}
use pdr.Identity.Ages.{BirthDate}
use pdr.Identity.Tokens.{Digest, same_digest}
use pdr.Identity.Accounts.{Account}
use pdr.Identity.Entrance.Passwords.{Email, PasswordHash}

-- `Person` of identity/core/person.hpp.
pub record Person : Type 0 where
  pub id : PersonId
  pub mail : Option Email
  pub born_on : BirthDate

-- `ports::Enrolment`; the name of a time zone is its text.
pub record Enrolment : Type 0 where
  pub person : Person
  pub roles : RoleSet
  pub display_name : String
  pub zone : String

pub record PersonRow : Type 0 where
  pub tenant : TenantId
  pub person : Person
  pub display_name : String
  pub zone : String

pub record CredentialRow : Type 0 where
  pub tenant : TenantId
  pub person : PersonId
  pub hash : PasswordHash

pub record RoleRow : Type 0 where
  pub tenant : TenantId
  pub person : PersonId
  pub role : Role

abbrev pub has_mail : Option Email → Email → Bool
has_mail none mail = false
has_mail (some own) mail = str_eq own.value mail.value

abbrev pub is_person_row : TenantId → PersonId → PersonRow → Bool
is_person_row tenant person row = same_id row.tenant tenant && same_id row.person.id person

abbrev pub is_mail_row : TenantId → Email → PersonRow → Bool
is_mail_row tenant mail row = same_id row.tenant tenant && has_mail row.person.mail mail

-- `kFindForPerson`.
unfoldable pub find_for : TenantId → PersonId → List CredentialRow → Option PasswordHash
find_for tenant person [] = none
find_for tenant person (row ∷ rows) =
    if same_id row.tenant tenant && same_id row.person person
    then some row.hash
    else find_for tenant person rows

-- `kSave` of the passwords.
unfoldable pub save_hash :
    TenantId → PersonId → PasswordHash → List CredentialRow → List CredentialRow
save_hash tenant person hash [] = record { tenant = tenant; person = person; hash = hash } ∷ []
save_hash tenant person hash (row ∷ rows) =
    let rest = save_hash tenant person hash rows in
    if same_id row.tenant tenant && same_id row.person person
    then record row { hash = hash } ∷ rows
    else row ∷ rest

-- `ports::Credential`.
pub record Credential : Type 0 where
  pub person : PersonId
  pub hash : PasswordHash

abbrev joined : PersonId → Option PasswordHash → Option Credential → Option Credential
joined person none rest = rest
joined person (some hash) rest = some (record { person = person; hash = hash })

-- `kFindByEmail`: the people of a practice joined with their passwords.
unfoldable pub find_by_email :
    TenantId → Email → List PersonRow → List CredentialRow → Option Credential
find_by_email tenant mail [] credentials = none
find_by_email tenant mail (row ∷ rows) credentials =
    let rest = find_by_email tenant mail rows credentials in
    if is_mail_row tenant mail row
    then joined row.person.id (find_for tenant row.person.id credentials) rest
    else rest

-- `Knows`.
unfoldable pub knows : TenantId → Email → List PersonRow → Bool
knows tenant mail [] = false
knows tenant mail (row ∷ rows) = is_mail_row tenant mail row || knows tenant mail rows

abbrev pub mail_is_known : TenantId → Option Email → List PersonRow → Bool
mail_is_known tenant none rows = false
mail_is_known tenant (some mail) rows = knows tenant mail rows

unfoldable pub has_person_row : TenantId → PersonId → List PersonRow → Bool
has_person_row tenant person [] = false
has_person_row tenant person (row ∷ rows) =
    is_person_row tenant person row || has_person_row tenant person rows

-- The loop over `kEveryRole`.
unfoldable pub grant_roles : TenantId → PersonId → RoleSet → List Role → List RoleRow → List RoleRow
grant_roles tenant person roles [] rows = rows
grant_roles tenant person roles (role ∷ rest) rows = grant_roles tenant person roles rest (
    if not (has_role roles role)
    then rows
    else record { tenant = tenant; person = person; role = role } ∷ rows)

-- `length(btrim(display_name)) > 0`, the CHECK on the name of a person.
abbrev pub is_blank_name : String → Bool
is_blank_name name = is_blank (trimmed (λ c. c == 32) name)

-- How `Enrol` ends: with the new rows, with a refusal, or by a fault, since the statement passes over a
-- mail that is taken, and not over a blank name or an identifier that is taken.
pub data Enrolled : Type 0 where
  enrolled : List PersonRow → List RoleRow → Enrolled
  refused : Error → Enrolled
  failed : Enrolled

unfoldable pub enrol : TenantId → Enrolment → List PersonRow → List RoleRow → Enrolled
unfolding has_person_row grant_roles knows trimmed
enrol tenant enrolment people roles =
    if is_blank_name enrolment.display_name
    then failed
    else if mail_is_known tenant enrolment.person.mail people
    then refused (record {
      kind = conflict;
      code = "participant_email_taken";
      detail = "эта почта в кабинете уже занята";
    })
    else if has_person_row tenant enrolment.person.id people
    then failed
    else enrolled
        (record {
          tenant = tenant;
          person = enrolment.person;
          display_name = enrolment.display_name;
          zone = enrolment.zone;
        }
          ∷ people)
        (grant_roles tenant enrolment.person.id enrolment.roles every_role roles)

-- `kByMail` and `kById` of the accounts.
unfoldable pub find_by_mail : Digest → List Account → Option Account
find_by_mail mail [] = none
find_by_mail mail (row ∷ rows) =
    if same_digest row.mail mail then some row else find_by_mail mail rows

unfoldable pub find_by_id : PersonId → List Account → Option Account
find_by_id id [] = none
find_by_id id (row ∷ rows) = if same_id row.id id then some row else find_by_id id rows

-- `kSave` of the accounts: the mail of a row that stands is not touched.
unfoldable pub save_account : Account → List Account → List Account
save_account account [] = account ∷ []
save_account account (row ∷ rows) =
    let rest = save_account account rows in
    if same_id row.id account.id
    then record row {
      confirmed_at = account.confirmed_at;
      confirmation = account.confirmation;
      confirmation_expires_at = account.confirmation_expires_at;
    }
      ∷ rows
    else row ∷ rest
