-- ===== src/Identity/Entrance/Arrivals.antt =====
-- What the use cases that let people in share, over postgres_participant_directory.cpp,
-- postgres_credential_store.cpp and postgres_session_store.cpp: somebody who was enrolled is found, and a
-- session that was opened and saved.
use pdr.Base.{
  ◌≡◌, refl, ap, ◌∙◌, false, List, none, some, arith, Bool-cases, inl, inr, ==_refl, str_eq_refl,
}
use pdr.Core.Errors.{ok}
use pdr.Core.Ids.{TenantId, PersonId}
use pdr.Core.Time.{Instant, Duration}
use pdr.Identity.Sessions.{SessionId, Fingerprint, Session, open_session}
use pdr.Identity.Entrance.Passwords.{Email, PasswordHash}
use pdr.Identity.Entrance.PeopleStore.{
  Enrolment, PersonRow, CredentialRow, RoleRow, Enrolled, enrolled, refused, enrol, knows,
  mail_is_known, has_person_row, is_blank_name, find_by_email, save_hash, grant_roles,
}
use pdr.Identity.Entrance.PeopleStore
use pdr.Identity.Entrance.SessionStore
use pdr.Identity.Entrance.Resets.Renewed.{find_for-save_hash}

-- A session that is opened and saved where none stood is found, and is the person's.
pub record IsSaved (id : SessionId) (person : PersonId) (sessions : List Session) (s : Session)
    : Type 0 where
  pub same_id : s.id ≡ id
  pub same_person : s.person ≡ person
  pub found : SessionStore.find id (SessionStore.save s sessions) ≡ some s

pub open_session-IsSaved :
    (id : SessionId) (person : PersonId) (at : Instant) (lifetime : Duration) (seen : Fingerprint)
    (sessions : List Session) (s : Session)
    → SessionStore.find id sessions ≡ none
    → open_session id person at lifetime seen ≡ ok s
    → IsSaved id person sessions s
unfolding open_session
open_session-IsSaved id person at lifetime seen sessions s fresh h =
    let same : s.id ≡ id = ground (arith, h) in
    record {
      same_id = same;
      same_person = ground (arith, h);
      found =
          SessionStore.find-save s id sessions
          ∙ rw (same, SessionStore.same_session_refl id, fresh) refl;
    }

people_of : List PersonRow → Enrolled → List PersonRow
people_of other (enrolled people roles) = people
people_of other (refused e) = other
people_of other PeopleStore.failed = other

-- Somebody who is enrolled with a mail, and whose password is stored, is found by that mail.
pub find_by_email-enrol :
    (tenant : TenantId) (enrolment : Enrolment) (mail : Email) (hash : PasswordHash)
    (people after : List PersonRow) (roles given : List RoleRow) (credentials : List CredentialRow)
    → enrolment.person.mail ≡ some mail
    → enrol tenant enrolment people roles ≡ enrolled after given
    → find_by_email tenant mail after (save_hash tenant enrolment.person.id hash credentials)
      ≡ some (record { person = enrolment.person.id; hash = hash })
unfolding enrol find_by_email people_of
find_by_email-enrol tenant enrolment mail hash people after roles given credentials has_mail made =
    elim (Bool-cases (is_blank_name enrolment.display_name)) [
      | inl blank ↦ absurd (ground (arith, rw blank at made))
      | inr named ↦ elim (Bool-cases (knows tenant mail people)) [
        | inl known ↦ absurd (ground (arith, rw (named, has_mail, known) at made))
        | inr unknown ↦ elim (Bool-cases (has_person_row tenant enrolment.person.id people)) [
          | inl there_already ↦
              absurd (ground (arith, rw (named, has_mail, unknown, there_already) at made))
          | inr free ↦
              let told : mail_is_known tenant enrolment.person.mail people ≡ false =
                rw has_mail unknown in
              rw
                (
                  ← ap (people_of people) (rw (named, told, free) at made),
                  has_mail,
                  ==_refl tenant.value,
                  str_eq_refl mail.value,
                  find_for-save_hash tenant enrolment.person.id hash credentials,
                )
                refl
        ]
      ]
    ]
