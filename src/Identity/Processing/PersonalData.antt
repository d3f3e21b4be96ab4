-- ===== src/Identity/Processing/PersonalData.antt =====
-- identity/core/personal_data.hpp and personal_data.cpp: the kinds of personal data, and whom they go to.
use pdr.Base.{◌≡◌, refl, List, [], ◌∷◌, Option, some, String, find_named, All}

pub data PersonalDataCategory : Type 0 where
  account child_and_guardian schedule_and_attendance payments_and_receipts messages
        recordings_and_transcripts learning_results technical_records boundary :
      PersonalDataCategory

unfoldable pub category_name : PersonalDataCategory → String
category_name account = "account"
category_name child_and_guardian = "child_and_guardian"
category_name schedule_and_attendance = "schedule_and_attendance"
category_name payments_and_receipts = "payments_and_receipts"
category_name messages = "messages"
category_name recordings_and_transcripts = "recordings_and_transcripts"
category_name learning_results = "learning_results"
category_name technical_records = "technical_records"
category_name PersonalDataCategory.boundary = "account"

abbrev pub every_personal_data_category : List PersonalDataCategory
every_personal_data_category =
    account ∷ child_and_guardian ∷ schedule_and_attendance ∷ payments_and_receipts ∷ messages
    ∷ recordings_and_transcripts ∷ learning_results ∷ technical_records ∷ []

unfoldable pub parse_personal_data_category : String → Option PersonalDataCategory
unfolding category_name find_named
parse_personal_data_category text = find_named category_name every_personal_data_category text

pub data Recipient : Type 0 where
  payment_provider receipt_service model_provider handwriting hosting boundary : Recipient

unfoldable pub recipient_name : Recipient → String
recipient_name payment_provider = "payment_provider"
recipient_name receipt_service = "receipt_service"
recipient_name model_provider = "model_provider"
recipient_name handwriting = "handwriting"
recipient_name hosting = "hosting"
recipient_name Recipient.boundary = "hosting"

abbrev pub every_recipient : List Recipient
every_recipient = payment_provider ∷ receipt_service ∷ model_provider ∷ handwriting ∷ hosting ∷ []

unfoldable pub parse_recipient : String → Option Recipient
unfolding recipient_name find_named
parse_recipient text = find_named recipient_name every_recipient text

-- Each kind of data and each recipient of a list is read from its name.
names_kept :
    (All
      (λ c. parse_personal_data_category (category_name c) ≡ some c)
      every_personal_data_category)
    × (All (λ r. parse_recipient (recipient_name r) ≡ some r) every_recipient)
unfolding parse_personal_data_category category_name parse_recipient recipient_name
names_kept = (
  (refl, (refl, (refl, (refl, (refl, (refl, (refl, (refl, tt)))))))),
  (refl, (refl, (refl, (refl, (refl, tt))))),
)
