-- ===== src/Identity/Consents.antt =====
-- identity/core/guardian_consent.hpp and guardian_consent.cpp: one scope opened to one guardian.
pub mod Lifecycle
use pdr.Base.{
  ℕ, ◌≡◌, Bool, true, false, not, ◌&&◌, ◌||◌, List, [], ◌∷◌, Option, none, some, String, has_value,
  find_named, ◌==◌, if◌then◌else◌,
}
use pdr.Core.Errors.{Result, ok, err, refuse, validation, conflict, forbidden}
use pdr.Core.Ids.{StrongId, consent_tag, TenantId, PersonId, same_id}
use pdr.Core.Time.{Instant, before, not_after}
use pdr.Identity.Scopes.{GuardianScope, payments, same_scope}

abbrev pub ConsentId : Type 0
ConsentId = StrongId consent_tag

pub data ConsentBasis : Type 0 where
  guardianship named_by_student pays_for_lessons boundary : ConsentBasis

unfoldable pub basis_name : ConsentBasis → String
basis_name guardianship = "guardianship"
basis_name named_by_student = "named_by_student"
basis_name pays_for_lessons = "pays_for_lessons"
basis_name ConsentBasis.boundary = "boundary"

abbrev pub every_consent_basis : List ConsentBasis
every_consent_basis = guardianship ∷ named_by_student ∷ pays_for_lessons ∷ []

unfoldable pub parse_consent_basis : String → Option ConsentBasis
unfolding basis_name find_named
parse_consent_basis text = find_named basis_name every_consent_basis text

abbrev index : ConsentBasis → ℕ
index guardianship = 0
index named_by_student = 1
index pays_for_lessons = 2
index ConsentBasis.boundary = 3

abbrev pub same_basis : ConsentBasis → ConsentBasis → Bool
same_basis a b = index a == index b

abbrev pub may_carry : ConsentBasis → GuardianScope → Bool
may_carry basis scope = not (same_basis basis pays_for_lessons) || same_scope scope payments

abbrev pub named_by_the_student_himself : ConsentBasis → Bool
named_by_the_student_himself basis =
    same_basis basis named_by_student || same_basis basis pays_for_lessons

pub record GuardianConsent : Type 0 where
  pub id : ConsentId
  pub tenant : TenantId
  pub guardian_id : PersonId
  pub student_id : PersonId
  pub scope : GuardianScope
  pub basis : ConsentBasis
  pub granted_by : PersonId
  pub granted_at : Instant
  pub expires_at : Option Instant
  pub revoked_at : Option Instant
  pub revoked_by : Option PersonId

-- `moment >= *expires_at`, false where there is no such moment.
abbrev pub reached_by : Option Instant → Instant → Bool
reached_by none moment = false
reached_by (some end) moment = not_after end moment

unfoldable pub grant :
    ConsentId
    → TenantId
    → PersonId
    → PersonId
    → GuardianScope
    → ConsentBasis
    → PersonId
    → Instant
    → Option Instant
    → Result GuardianConsent
grant id tenant guardian_id student_id scope basis granted_by granted_at expires_at =
    if same_id guardian_id student_id
    then refuse validation "consent_self_guardianship" "ученик не бывает опекуном самому себе"
    else if same_scope scope GuardianScope.boundary
    then refuse validation "consent_scope_unknown" "такого уровня доступа нет"
    else if same_basis basis ConsentBasis.boundary
    then refuse validation "consent_basis_unknown" "такого основания для доступа нет"
    else if not (may_carry basis scope)
    then refuse forbidden "consent_basis_forbids_scope"
        "плательщик получает деньги и только деньги: смотреть занятия оплата не позволяет"
    else if reached_by expires_at granted_at
    then refuse validation "consent_expires_before_granted"
        "согласие, истёкшее в момент выдачи, ничего не открывает"
    else ok (record {
      id = id;
      tenant = tenant;
      guardian_id = guardian_id;
      student_id = student_id;
      scope = scope;
      basis = basis;
      granted_by = granted_by;
      granted_at = granted_at;
      expires_at = expires_at;
      revoked_at = none;
      revoked_by = none;
    })

unfoldable pub granted_by_student : GuardianConsent → Bool
granted_by_student c = same_id c.granted_by c.student_id

unfoldable pub rests_on_guardianship : GuardianConsent → Bool
rests_on_guardianship c = same_basis c.basis guardianship

unfoldable pub is_active_at : GuardianConsent → Instant → Bool
is_active_at c moment =
    if has_value c.revoked_at
    then false
    else if reached_by c.expires_at moment
    then false
    else not_after c.granted_at moment

unfoldable pub revoked : GuardianConsent → Instant → PersonId → Result GuardianConsent
revoked c at by =
    if has_value c.revoked_at
    then refuse conflict "consent_already_revoked" "этот уровень доступа уже отозван"
    else if before at c.granted_at
    then refuse validation "consent_revoked_before_granted" "отзыв стоит раньше выдачи"
    else ok (record c { revoked_at = some at; revoked_by = some by })
