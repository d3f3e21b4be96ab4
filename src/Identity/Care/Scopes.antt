-- ===== src/Identity/Care/Scopes.antt =====
-- identity/infrastructure/access/postgres_guardian_consents.cpp, with identity/application/
-- grant_guardian_scope.cpp, revoke_guardian_scope.cpp and revoke_guardianship.cpp. The foreign keys of
-- db/migrations/V007 from a consent to the people of the practice are not modelled.
pub mod Granting
use pdr.Base.{
  Bool, true, false, not, ◌&&◌, List, [], ◌∷◌, Option, none, some, has_value, if◌then◌else◌,
}
use pdr.Core.Errors.{Error, Result, ok, err, refuse, not_found, forbidden, conflict}
use pdr.Core.Ids.{StrongId, TenantId, PersonId, same_id}
use pdr.Core.Time.{Instant, not_after}
use pdr.Identity.Scopes.{GuardianScope, same_scope}
use pdr.Identity.Guardianship.{Guardianship}
use pdr.Identity.Guardianship
use pdr.Identity.Consents.{
  GuardianConsent, ConsentId, ConsentBasis, guardianship, same_basis, grant, revoked,
}
use pdr.Identity.Access.{MaturityRule, threshold_years, ComesOfAge}
use pdr.Identity.Ages.{BirthDate, turns_at}

-- `kActiveFor`: the rows that are not revoked, whether they have ended or not.
abbrev pub is_active_row : TenantId → PersonId → PersonId → GuardianConsent → Bool
is_active_row tenant guardian student row =
    same_id row.tenant tenant
    && (same_id row.guardian_id guardian
        && (same_id row.student_id student && not (has_value row.revoked_at)))

unfoldable pub active_for :
    TenantId → PersonId → PersonId → List GuardianConsent → List GuardianConsent
active_for tenant guardian student [] = []
active_for tenant guardian student (row ∷ rows) =
    let rest = active_for tenant guardian student rows in
    if is_active_row tenant guardian student row then row ∷ rest else rest

of_scope : GuardianScope → List GuardianConsent → Option GuardianConsent
of_scope scope [] = none
of_scope scope (row ∷ rows) = if same_scope row.scope scope then some row else of_scope scope rows

-- `FindActive`.
unfoldable pub find_active :
    TenantId → PersonId → PersonId → GuardianScope → List GuardianConsent → Option GuardianConsent
unfolding active_for of_scope
find_active tenant guardian student scope rows =
    of_scope scope (active_for tenant guardian student rows)

-- `kSave`: of a row that stands, the revocation only.
unfoldable pub save : GuardianConsent → List GuardianConsent → List GuardianConsent
save consent [] = consent ∷ []
save consent (row ∷ rows) =
    let rest = save consent rows in
    if same_id row.tenant consent.tenant && same_id row.id consent.id
    then record row { revoked_at = consent.revoked_at; revoked_by = consent.revoked_by } ∷ rows
    else row ∷ rest

pub record GrantRequest : Type 0 where
  pub tenant : TenantId
  pub guardian : PersonId
  pub student : PersonId
  pub scope : GuardianScope
  pub basis : ConsentBasis
  pub granted_by : PersonId
  pub expires_at : Option Instant

-- What the request is weighed by: the guardianship in force, the date of birth, the rule of the ages.
pub record Standing : Type 0 where
  pub found : Option Guardianship
  pub born_on : Option BirthDate
  pub rule : Result MaturityRule

grown_by : Option BirthDate → MaturityRule → GuardianScope → Instant → Bool
grown_by none rule scope now = false
grown_by (some born) rule scope now = not_after (turns_at born (threshold_years rule scope)) now

-- `student_decides`.
unfoldable pub student_decides : GrantRequest → Standing → MaturityRule → Instant → Bool
unfolding grown_by
student_decides request standing rule now =
    same_basis request.basis guardianship && grown_by standing.born_on rule request.scope now

granted :
    List GuardianConsent → Result GuardianConsent → Result GuardianConsent × List GuardianConsent
unfolding save
granted rows (ok consent) = (ok consent, save consent rows)
granted rows (err e) = (err e, rows)

module _ (request : GrantRequest) (standing : Standing) (id : ConsentId) (now : Instant)
    (rows : List GuardianConsent) where
  -- After the check of the basis.
  grant_open : MaturityRule → Result GuardianConsent × List GuardianConsent
  unfolding granted student_decides find_active
  grant_open rule =
      if has_value (find_active request.tenant request.guardian request.student request.scope rows)
      then (refuse conflict "consent_already_granted" "этот уровень доступа уже открыт", rows)
      else if student_decides request standing rule now
          && not (same_id request.granted_by request.student)
      then (
        refuse forbidden "consent_needs_student_word"
            "ученик уже взрослый: этот уровень открывает только он сам",
        rows,
      )
      else granted rows (
          grant id request.tenant request.guardian request.student request.scope request.basis
            request.granted_by now request.expires_at)

  grant_by : Result MaturityRule → Result GuardianConsent × List GuardianConsent
  unfolding grant_open
  grant_by (err e) = (err e, rows)
  grant_by (ok rule) =
      if same_basis request.basis guardianship && not (has_value standing.found)
      then (
        refuse not_found "guardianship_not_found" "действующей опеки между этими людьми нет",
        rows,
      )
      else if not (same_basis request.basis guardianship)
          && not (same_id request.granted_by request.student)
      then (
        refuse forbidden "watcher_named_by_someone_else"
            "наблюдателя называет тот, за кем будут смотреть, и никто другой",
        rows,
      )
      else grant_open rule

  -- `GrantGuardianScope::Execute`.
  unfoldable pub grant_guardian_scope : Result GuardianConsent × List GuardianConsent
  unfolding grant_by
  grant_guardian_scope = grant_by standing.rule

revoke_with : List GuardianConsent → Result GuardianConsent → Result {0} Unit × List GuardianConsent
unfolding save
revoke_with rows (ok consent) = (ok tt, save consent rows)
revoke_with rows (err e) = (err e, rows)

revoke_found :
    Instant
    → PersonId
    → List GuardianConsent
    → Option GuardianConsent
    → Result {0} Unit × List GuardianConsent
unfolding revoke_with
revoke_found now by rows none =
    (refuse not_found "consent_not_found" "этот уровень доступа и так закрыт", rows)
revoke_found now by rows (some consent) = revoke_with rows (revoked consent now by)

-- `RevokeGuardianScope::Execute`.
unfoldable pub revoke_guardian_scope :
    TenantId
    → PersonId
    → PersonId
    → GuardianScope
    → PersonId
    → Instant
    → List GuardianConsent
    → Result {0} Unit × List GuardianConsent
unfolding revoke_found find_active
revoke_guardian_scope tenant guardian student scope by now rows =
    revoke_found now by rows (find_active tenant guardian student scope rows)

-- `GuardianshipRevoked`, with its envelope.
pub record GuardianshipRevoked : Type 0 where
  pub tenant : TenantId
  pub at : Instant
  pub guardian : PersonId
  pub student : PersonId

-- What `RevokeGuardianship` does: the answer, what is saved and what is published.
pub record RevocationDone : Type 0 where
  pub answer : Result {0} Unit
  pub saved : List Guardianship
  pub published : List GuardianshipRevoked

guardianship_ended : TenantId → PersonId → PersonId → Instant → Result Guardianship → RevocationDone
guardianship_ended tenant guardian student now (err e) = record {
  answer = err e;
  saved = [];
  published = [];
}
guardianship_ended tenant guardian student now (ok g) = record {
  answer = ok tt;
  saved = g ∷ [];
  published = record { tenant = tenant; at = now; guardian = guardian; student = student } ∷ [];
}

revoke_guardianship_found :
    TenantId → PersonId → PersonId → Instant → Option Guardianship → RevocationDone
unfolding guardianship_ended
revoke_guardianship_found tenant guardian student now none = record {
  answer = refuse not_found "guardianship_not_found" "действующей опеки между этими людьми нет";
  saved = [];
  published = [];
}
revoke_guardianship_found tenant guardian student now (some found) =
    guardianship_ended tenant guardian student now (Guardianship.revoked found now)

-- `RevokeGuardianship::Execute`, of what `FindActive` finds.
unfoldable pub revoke_guardianship :
    (TenantId → PersonId → PersonId → Option Guardianship)
    → TenantId
    → PersonId
    → PersonId
    → Instant
    → RevocationDone
unfolding revoke_guardianship_found
revoke_guardianship find tenant guardian student now =
    revoke_guardianship_found tenant guardian student now (find tenant guardian student)
