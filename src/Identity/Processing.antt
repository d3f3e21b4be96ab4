-- ===== src/Identity/Processing.antt =====
-- identity/core/consent.hpp and consent.cpp: the consents to the processing of personal data, with
-- the version of the document that they were given to.
pub mod MyData
pub mod PersonalData
pub mod Withdrawal
use pdr.Base.{
  ◌≡◌, ℕ, Bool, true, false, not, ◌&&◌, ◌||◌, List, [], ◌∷◌, Option, none, some, has_value, String,
  find_named, str_eq, ℤ, pos, ltb_ℤ, ◌==◌, if◌then◌else◌,
}
use pdr.Core.Errors.{Result, ok, err, refuse, validation, conflict}
use pdr.Core.Ids.{StrongId, consent_record_tag, TenantId, PersonId, same_id}
use pdr.Core.Time.{Instant, before}

pub data ConsentKind : Type 0 where
  processing recordings boundary : ConsentKind

unfoldable pub kind_name : ConsentKind → String
kind_name processing = "processing"
kind_name recordings = "recordings"
kind_name ConsentKind.boundary = "processing"

abbrev pub every_consent_kind : List ConsentKind
every_consent_kind = processing ∷ recordings ∷ []

unfoldable pub parse_consent_kind : String → Option ConsentKind
unfolding kind_name find_named
parse_consent_kind text = find_named kind_name every_consent_kind text

abbrev kind_index : ConsentKind → ℕ
kind_index processing = 0
kind_index recordings = 1
kind_index ConsentKind.boundary = 2

abbrev pub same_kind : ConsentKind → ConsentKind → Bool
same_kind a b = kind_index a == kind_index b

pub data ConsentAction : Type 0 where
  sign_up_checkbox settings_checkbox version_accepted boundary : ConsentAction

unfoldable pub action_name : ConsentAction → String
action_name sign_up_checkbox = "sign_up_checkbox"
action_name settings_checkbox = "settings_checkbox"
action_name version_accepted = "version_accepted"
action_name ConsentAction.boundary = "sign_up_checkbox"

abbrev pub every_consent_action : List ConsentAction
every_consent_action = sign_up_checkbox ∷ settings_checkbox ∷ version_accepted ∷ []

unfoldable pub parse_consent_action : String → Option ConsentAction
unfolding action_name find_named
parse_consent_action text = find_named action_name every_consent_action text

abbrev action_index : ConsentAction → ℕ
action_index sign_up_checkbox = 0
action_index settings_checkbox = 1
action_index version_accepted = 2
action_index ConsentAction.boundary = 3

abbrev pub same_consent_action : ConsentAction → ConsentAction → Bool
same_consent_action a b = action_index a == action_index b

pub data VersionChange : Type 0 where
  substantial cosmetic boundary : VersionChange

unfoldable pub change_name : VersionChange → String
change_name substantial = "substantial"
change_name cosmetic = "cosmetic"
change_name VersionChange.boundary = "substantial"

unfoldable pub parse_version_change : String → Option VersionChange
unfolding change_name
parse_version_change text =
    if str_eq text (change_name substantial)
    then some substantial
    else if str_eq text (change_name cosmetic)
    then some cosmetic
    else none

pub record PolicyVersion : Type 0 where
  pub number : ℤ

unfoldable pub policy_version : ℤ → Result PolicyVersion
policy_version number =
    if ltb_ℤ number (pos 1)
    then refuse validation "policy_version_out_of_range" "версии перечня нумеруются с единицы"
    else ok (record { number = number })

pub record ConsentRecord : Type 0 where
  pub id : StrongId consent_record_tag
  pub tenant : TenantId
  pub subject : PersonId
  pub given_by : PersonId
  pub kind : ConsentKind
  pub version : PolicyVersion
  pub action : ConsentAction
  pub given_at : Instant
  pub withdrawn_at : Option Instant

unfoldable pub give :
    StrongId consent_record_tag
    → TenantId
    → PersonId
    → PersonId
    → ConsentKind
    → PolicyVersion
    → ConsentAction
    → Instant
    → Result ConsentRecord
give id tenant subject given_by kind version action given_at =
    if same_kind kind ConsentKind.boundary
    then refuse validation "consent_kind_unknown" "такого вида согласия нет"
    else if same_consent_action action ConsentAction.boundary
    then refuse validation "consent_action_unknown" "согласие без действия ничем не подтверждается"
    else ok (record {
      id = id;
      tenant = tenant;
      subject = subject;
      given_by = given_by;
      kind = kind;
      version = version;
      action = action;
      given_at = given_at;
      withdrawn_at = none;
    })

unfoldable pub withdraw : ConsentRecord → Instant → Result ConsentRecord
withdraw c at =
    if has_value c.withdrawn_at
    then refuse conflict "consent_already_withdrawn" "это согласие отозвали раньше"
    else if before at c.given_at
    then refuse validation "consent_withdrawn_before_given" "отзыв стоит раньше согласия"
    else ok (record c { withdrawn_at = some at })

unfoldable pub by_guardian : ConsentRecord → Bool
by_guardian c = not (same_id c.given_by c.subject)

-- `moment < *withdrawn_at_`, true where there is no such moment.
abbrev pub not_yet : Option Instant → Instant → Bool
not_yet none moment = true
not_yet (some end) moment = before moment end

unfoldable pub is_live_at : ConsentRecord → Instant → Bool
is_live_at c moment = not (has_value c.withdrawn_at) || not_yet c.withdrawn_at moment

unfoldable pub needs_reacceptance : PolicyVersion → PolicyVersion → Bool → Bool
needs_reacceptance accepted current substantial_between =
    ltb_ℤ accepted.number current.number && substantial_between
