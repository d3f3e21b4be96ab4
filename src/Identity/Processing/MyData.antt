-- ===== src/Identity/Processing/MyData.antt =====
-- identity/application/give_consent.hpp and give_consent.cpp, show_my_data.hpp and show_my_data.cpp, over
-- the ports of ports/consents.hpp: a consent to the processing of personal data, and what a person is
-- shown of the data that is kept. No adapter of the two ports stands in the repository: they are an
-- interface here.
pub mod Accepted
use pdr.Base.{
  Bool, true, false, not, ◌&&◌, ◌||◌, List, [], ◌∷◌, Option, none, some, has_value, if◌then◌else◌,
  ltb_ℤ, map, ◌≡◌,
}
use mathlib.Core.List.{Memᴰ}
use pdr.Core.Errors.{Result, ok, err, refuse, forbidden}
use pdr.Core.Ids.{StrongId, consent_record_tag, TenantId, PersonId, same_id}
use pdr.Core.Time.{Instant, before}
use pdr.Identity.Ages.{BirthDate, turns_at}
use pdr.Identity.Abilities.{slots_and_reviews, years_of}
use pdr.Identity.Access.{MaturityRule}
use pdr.Identity.Subjects.{Ports}
use pdr.Identity.Processing.{
  ConsentKind, processing, same_kind, ConsentAction, PolicyVersion, ConsentRecord, give,
  by_guardian, is_live_at, needs_reacceptance,
}
use pdr.Identity.Processing.PersonalData.{
  PersonalDataCategory, every_personal_data_category, Recipient, every_recipient,
}

-- `Consents`: what it answers, `Save`, and that a record that was saved is answered.
pub record Consents (Stored : Type 0) : Type 1 where
  pub of_person : TenantId → PersonId → Stored → List ConsentRecord
  pub save : ConsentRecord → Stored → Stored
  pub saved : (r : ConsentRecord) (s : Stored) → Memᴰ r (of_person r.tenant r.subject (save r s))

-- `PolicyVersions`.
pub record PolicyVersions : Type 0 where
  pub current : PolicyVersion
  pub substantial_after : PolicyVersion → Bool

pub record GiveConsentRequest : Type 0 where
  pub tenant : TenantId
  pub subject : PersonId
  pub given_by : PersonId
  pub kind : ConsentKind
  pub action : ConsentAction

unfoldable pub grown_of : Option BirthDate → MaturityRule → Instant → Bool
grown_of none rule now = true
grown_of (some born) rule now =
    not (before now (turns_at born (years_of rule.thresholds slots_and_reviews)))

unfoldable pub own_consent : Option BirthDate → Result MaturityRule → Instant → Result Bool
unfolding grown_of
own_consent born (err e) now = err e
own_consent born (ok rule) now =
    if not (grown_of born rule now)
    then refuse forbidden "consent_needs_guardian"
        "за ребёнка соглашается опекун: сам он этого сделать пока не может"
    else ok true

-- Whether the one who consents may do so.
unfoldable pub entitled : Ports → GiveConsentRequest → Instant → Result Bool
unfolding own_consent
entitled ports request now =
    if not (same_id request.given_by request.subject)
    then (if not (has_value (ports.find_active request.tenant request.given_by request.subject))
        then refuse forbidden "consent_not_yours_to_give"
            "за ученика соглашается его опекун, и никто другой"
        else ok true)
    else own_consent (ports.birth_date_of request.tenant request.subject) ports.rule now

pub record ConsentShown : Type 0 where
  pub kind : ConsentKind
  pub version : PolicyVersion
  pub action : ConsentAction
  pub given_at : Instant
  pub by_guardian : Bool
  pub live : Bool

pub record MyData : Type 0 where
  pub categories : List PersonalDataCategory
  pub recipients : List Recipient
  pub consents : List ConsentShown
  pub asks_to_accept_again : Bool
  pub current_version : PolicyVersion

unfoldable pub shown_of : Instant → ConsentRecord → ConsentShown
unfolding by_guardian is_live_at
shown_of now r = record {
  kind = r.kind;
  version = r.version;
  action = r.action;
  given_at = r.given_at;
  by_guardian = by_guardian r;
  live = is_live_at r now;
}

unfoldable pub later_of : Option PolicyVersion → PolicyVersion → PolicyVersion
later_of none version = version
later_of (some accepted) version =
    if ltb_ℤ accepted.number version.number then version else accepted

-- One round of the loop, as it changes the version accepted so far.
unfoldable pub accept_one : Instant → Option PolicyVersion → ConsentRecord → Option PolicyVersion
unfolding later_of is_live_at
accept_one now accepted r =
    if not (same_kind r.kind processing) || not (is_live_at r now)
    then accepted
    else some (later_of accepted r.version)

unfoldable pub accepted_from :
    Instant → Option PolicyVersion → List ConsentRecord → Option PolicyVersion
unfolding accept_one
accepted_from now accepted [] = accepted
accepted_from now accepted (r ∷ records) = accepted_from now (accept_one now accepted r) records

unfoldable pub asks_again : PolicyVersions → Option PolicyVersion → Bool
unfolding needs_reacceptance
asks_again versions none = true
asks_again versions (some accepted) =
    needs_reacceptance accepted versions.current (versions.substantial_after accepted)

module _ {Stored : Type 0} (consents : Consents Stored) (versions : PolicyVersions) where
  unfoldable pub save_given : Result ConsentRecord → Stored → Result ConsentRecord × Stored
  save_given (err e) stored = (err e, stored)
  save_given (ok r) stored = (ok r, consents.save r stored)

  unfoldable pub give_entitled :
      Result Bool
      → StrongId consent_record_tag
      → GiveConsentRequest
      → Instant
      → Stored
      → Result ConsentRecord × Stored
  unfolding save_given give
  give_entitled (err e) id request now stored = (err e, stored)
  give_entitled (ok entitled) id request now stored =
      save_given
        (give id request.tenant request.subject request.given_by request.kind versions.current
          request.action now)
        stored

  -- `GiveConsent::Execute`.
  unfoldable pub give_consent :
      Ports
      → StrongId consent_record_tag
      → GiveConsentRequest
      → Instant
      → Stored
      → Result ConsentRecord × Stored
  unfolding give_entitled entitled
  give_consent ports id request now stored =
      give_entitled (entitled ports request now) id request now stored

  -- `ShowMyData::Execute`.
  unfoldable pub show_my_data : TenantId → PersonId → Instant → Stored → MyData
  unfolding shown_of accepted_from asks_again
  show_my_data tenant subject now stored =
      let records = consents.of_person tenant subject stored in
      record {
        categories = every_personal_data_category;
        recipients = every_recipient;
        consents = map (shown_of now) records;
        asks_to_accept_again = asks_again versions (accepted_from now none records);
        current_version = versions.current;
      }
