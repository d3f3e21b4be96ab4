-- ===== src/Identity/Practices/Store.antt =====
-- identity/core/tenant.cpp and identity/infrastructure/onboarding/postgres_practices.cpp: the table of
-- the practices. A row keeps the texts of its columns, and an identifier as it is.
pub mod Saving
use pdr.Base.{
  ℕ, Bool, false, ◌||◌, List, [], ◌∷◌, Option, none, some, String, if◌then◌else◌, ◌==◌, is_blank,
  trimmed,
}
use pdr.Core.Errors.{Result, ok, refuse, validation, conflict}
use pdr.Core.Ids.{TenantId, same_id}
use pdr.Core.Time.{Instant}
use pdr.Core.Zones.{TimeZone}
use pdr.Identity.Practices.{
  Visibility, visibility_name, parse_visibility, RefusalReason, refusal_name, parse_refusal_reason,
  Practice,
}

pub record Tenant : Type 0 where
  pub id : TenantId
  pub name : String

abbrev pub is_space : ℕ → Bool
is_space symbol = symbol == b' ' || (symbol == 9 || (symbol == 10 || symbol == 13))

unfoldable pub compose_tenant : TenantId → String → Result Tenant
unfolding trimmed
compose_tenant id name =
    let text = trimmed is_space name in
    if is_blank text
    then refuse validation "tenant_name_blank" "у арендатора должно быть имя"
    else ok (record { id = id; name = text })

pub record PracticeRow : Type 0 where
  pub tenant_id : TenantId
  pub name : String
  pub zone : String
  pub visibility : String
  pub created_at : Instant
  pub asked_at : Option Instant
  pub decided_at : Option Instant
  pub refusal : Option String

-- What `Find` ends in: no row, a row that cannot be read, for which it throws, or a practice.
pub data Found : Type 0 where
  absent broken : Found
  there : Practice → Found

unfoldable pub with_refusal : PracticeRow → Visibility → Option RefusalReason → Practice
with_refusal row visibility refusal = record {
  tenant = row.tenant_id;
  visibility = visibility;
  opened_at = row.created_at;
  asked_at = row.asked_at;
  decided_at = row.decided_at;
  refusal = refusal;
}

read_reason : PracticeRow → Visibility → Option RefusalReason → Found
unfolding with_refusal
read_reason row visibility none = broken
read_reason row visibility (some reason) = there (with_refusal row visibility (some reason))

unfoldable pub read_refusal : PracticeRow → Visibility → Option String → Found
unfolding read_reason with_refusal parse_refusal_reason
read_refusal row visibility none = there (with_refusal row visibility none)
read_refusal row visibility (some text) = read_reason row visibility (parse_refusal_reason text)

unfoldable pub read_visibility : PracticeRow → Option Visibility → Found
unfolding read_refusal
read_visibility row none = broken
read_visibility row (some visibility) = read_refusal row visibility row.refusal

-- `Parse`.
unfoldable pub read_row : PracticeRow → Found
unfolding read_visibility parse_visibility
read_row row = read_visibility row (parse_visibility row.visibility)

unfoldable pub find_practice : TenantId → List PracticeRow → Found
unfolding read_row
find_practice tenant [] = absent
find_practice tenant (row ∷ rows) =
    if same_id row.tenant_id tenant then read_row row else find_practice tenant rows

unfoldable pub has_row : TenantId → List PracticeRow → Bool
has_row tenant [] = false
has_row tenant (row ∷ rows) = same_id row.tenant_id tenant || has_row tenant rows

-- `Open`: an insertion that a row with the same key stops.
unfoldable pub open_row :
    Tenant → TimeZone → Practice → List PracticeRow → Result (List PracticeRow)
unfolding has_row visibility_name
open_row tenant zone practice rows =
    if has_row tenant.id rows
    then refuse conflict "practice_already_open" "практика с таким идентификатором уже есть"
    else ok (
        record {
          tenant_id = tenant.id;
          name = tenant.name;
          zone = zone.name;
          visibility = visibility_name practice.visibility;
          created_at = practice.opened_at;
          asked_at = none;
          decided_at = none;
          refusal = none;
        }
        ∷ rows)

unfoldable pub reason_text : Option RefusalReason → Option String
unfolding refusal_name
reason_text none = none
reason_text (some reason) = some (refusal_name reason)

unfoldable pub updated : Practice → PracticeRow → PracticeRow
unfolding visibility_name reason_text
updated practice row = record row {
  visibility = visibility_name practice.visibility;
  asked_at = practice.asked_at;
  decided_at = practice.decided_at;
  refusal = reason_text practice.refusal;
}

-- `Save`: an update of the row with the key of the practice.
unfoldable pub save_practice : Practice → List PracticeRow → List PracticeRow
unfolding updated
save_practice practice [] = []
save_practice practice (row ∷ rows) =
    let rest = save_practice practice rows in
    if same_id row.tenant_id practice.tenant then updated practice row ∷ rest else row ∷ rest
