-- ===== src/Core/Secrets.antt =====
-- libs/pdr-core/src/core/secrets.hpp and secrets.cpp, application/verify_secrets.cpp: the secrets that
-- the service needs at its start. A `SecretString` is its text; the source of the secrets is a parameter.
pub mod Inspection
use Prim.Native.String.{◌++◌ as ◌++s◌}
use pdr.Base.{
  ℕ, Bool, true, false, List, [], ◌∷◌, ◌++◌, not, Option, none, some, String, str_eq, find_named,
  ◌==◌, if◌then◌else◌,
}
use pdr.Core.Errors.{Result, ok, refuse, validation}

pub data SecretPurpose : Type 0 where
  database payment_provider webhook_signing video_provider boundary : SecretPurpose

unfoldable pub purpose_name : SecretPurpose → String
purpose_name database = "database"
purpose_name payment_provider = "payment_provider"
purpose_name webhook_signing = "webhook_signing"
purpose_name video_provider = "video_provider"
purpose_name boundary = "database"

abbrev pub every_purpose : List SecretPurpose
every_purpose = database ∷ payment_provider ∷ webhook_signing ∷ video_provider ∷ []

-- `ParseSecretPurpose`: the scan over the purposes below the border.
unfoldable pub parse_secret_purpose : String → Option SecretPurpose
unfolding purpose_name find_named
parse_secret_purpose text = find_named purpose_name every_purpose text

abbrev index : SecretPurpose → ℕ
index database = 0
index payment_provider = 1
index webhook_signing = 2
index video_provider = 3
index boundary = 4

abbrev pub same_purpose : SecretPurpose → SecretPurpose → Bool
same_purpose a b = index a == index b

pub record SecretSpec : Type 0 where
  pub name : String
  pub purpose : SecretPurpose
  pub awaits : String

abbrev pub required_now : SecretSpec → Bool
required_now spec = str_eq spec.awaits ""

-- `kEverySecret`.
abbrev pub every_secret : List SecretSpec
every_secret =
    record { name = "postgres_dsn"; purpose = database; awaits = "" }
    ∷ record { name = "yookassa_shop_id"; purpose = payment_provider; awaits = "BILL" }
    ∷ record { name = "yookassa_secret_key"; purpose = payment_provider; awaits = "BILL" }
    ∷ record { name = "yookassa_webhook_secret"; purpose = webhook_signing; awaits = "BILL" }
    ∷ record { name = "livekit_api_key"; purpose = video_provider; awaits = "VIDEO" }
    ∷ record { name = "livekit_api_secret"; purpose = video_provider; awaits = "VIDEO" }
    ∷ []

pub record SecretComplaint : Type 0 where
  pub name : String
  pub reason : String

missing : String → String
missing name =
    "секрета «"
    ++s (name
        ++s "» нет вовсе. Значений по умолчанию у секретов не существует: умолчание доживает до прода и работает")

blank : String → String
blank name = "секрет «" ++s (name ++s "» пуст. Пустая строка — не значение, а забытая переменная")

shared : String → String → Bool → String
shared name other same =
    "секрет «"
    ++s (name
        ++s ("» совпадает с «"
            ++s (other
                ++s ("»"
                    ++s (if same
                        then ". Два разных секрета с одним значением — это вставленное дважды из буфера обмена"
                        else ", а назначения у них разные. Утечка одного тогда равна утечке обоих: ключ, которым ходим мы, и ключ, которым подписывают нам, обязаны различаться")))))

-- A secret that was accepted, with its value.
pub record Taken : Type 0 where
  pub spec : SecretSpec
  pub value : String

-- The first accepted secret with a value.
unfoldable pub sharing : String → List Taken → Option Taken
sharing value [] = none
sharing value (t ∷ taken) = if str_eq t.value value then some t else sharing value taken

module _ (find : String → Option String) where
  -- What is taken already, and the reason of the complaint about one more secret.
  weigh_value : List Taken → SecretSpec → String → Option Taken → Option String × List Taken
  unfolding blank shared
  weigh_value taken spec value earlier =
      if str_eq value "" then (some (blank spec.name), taken) else elim earlier [
        | some t ↦
            (some (shared spec.name t.spec.name (same_purpose t.spec.purpose spec.purpose)), taken)
        | none ↦ (none, taken ++ record { spec = spec; value = value } ∷ [])
      ]

  weigh_found : List Taken → SecretSpec → Option String → Option String × List Taken
  unfolding missing weigh_value sharing
  weigh_found taken spec none = (some (missing spec.name), taken)
  weigh_found taken spec (some value) = weigh_value taken spec value (sharing value taken)

  -- One round of the loop.
  unfoldable pub weigh : List Taken → SecretSpec → Option String × List Taken
  unfolding weigh_found
  weigh taken spec =
      if not (required_now spec) then (none, taken) else weigh_found taken spec (find spec.name)

  abbrev with_complaint : String → Option String → List SecretComplaint → List SecretComplaint
  with_complaint name none complaints = complaints
  with_complaint name (some reason) complaints =
      record { name = name; reason = reason } ∷ complaints

  -- The loop of `InspectSecrets` from what it has taken; the complaints are in the order of the registry.
  unfoldable pub inspect_from : List Taken → List SecretSpec → List SecretComplaint
  unfolding weigh
  inspect_from taken [] = []
  inspect_from taken (spec ∷ rest) =
      let found = weigh taken spec in with_complaint spec.name found.0 (inspect_from found.1 rest)

  unfoldable pub inspect_secrets : List SecretSpec → List SecretComplaint
  unfolding inspect_from
  inspect_secrets registry = inspect_from [] registry

  -- `detail` of `VerifySecrets`, from what it holds.
  unfoldable pub detail_of : String → List SecretComplaint → String
  detail_of detail [] = detail
  detail_of detail (complaint ∷ rest) =
      detail_of ((if str_eq detail "" then detail else detail ++s "; ") ++s complaint.reason) rest

  verified : List SecretComplaint → Result (Unit {0})
  unfolding detail_of
  verified [] = ok tt
  verified (complaint ∷ rest) =
      refuse validation "secrets_incomplete" (detail_of "" (complaint ∷ rest))

  unfoldable pub verify_secrets : List SecretSpec → Result (Unit {0})
  unfolding verified inspect_secrets
  verify_secrets registry = verified (inspect_secrets registry)
