-- ===== src/Identity/Processing/MyData/Accepted.antt =====
-- give_consent.cpp and show_my_data.cpp: who may consent, and that a person who has accepted the current
-- version is not asked to accept it again.
use mathlib.Core.List.{Memᴰ}
use pdr.Base.{
  ◌≡◌, refl, ap, sym, ◌∙◌, Bool, true, false, not, ◌||◌, List, [], ◌∷◌, Option, none, some,
  has_value, arith, if◌then◌else◌, if_both, Bool-cases, inl, inr, leb_ℤ, subst,
}
use pdr.Core.Errors.{Result, ok, err, Result-cases}
use pdr.Core.Ids.{StrongId, consent_record_tag, same_id}
use pdr.Core.Time.{Instant}
use pdr.Identity.Subjects.{Ports}
use pdr.Identity.Processing.{
  processing, same_kind, PolicyVersion, ConsentRecord, give, is_live_at, needs_reacceptance,
}
use pdr.Identity.Processing.MyData.{
  Consents, PolicyVersions, GiveConsentRequest, entitled, grown_of, own_consent, later_of,
  accept_one, accepted_from, asks_again, save_given, give_entitled, give_consent, show_my_data,
}

abbrev is_at_least : PolicyVersion → Option PolicyVersion → Bool
is_at_least version none = false
is_at_least version (some accepted) = leb_ℤ version.number accepted.number

later_of_first :
    (version first : PolicyVersion) (next : PolicyVersion)
    → is_at_least version (some first) ≡ true
    → is_at_least version (some (later_of (some first) next)) ≡ true
unfolding later_of
later_of_first version first next h = ground (arith, h)

later_of_next :
    (accepted : Option PolicyVersion) (next : PolicyVersion)
    → is_at_least next (some (later_of accepted next)) ≡ true
unfolding later_of
later_of_next none next = ground arith
later_of_next (some accepted) next = ground arith

accept_one_kept :
    (now : Instant) (version : PolicyVersion) (accepted : Option PolicyVersion) (r : ConsentRecord)
    → is_at_least version accepted ≡ true
    → is_at_least version (accept_one now accepted r) ≡ true
unfolding accept_one
accept_one_kept now version none r h = absurd (ground (arith, h))
accept_one_kept now version (some accepted) r h =
    if_both (λ o. is_at_least version o ≡ true)
      (not (same_kind r.kind processing) || not (is_live_at r now)) h
      (later_of_first version accepted r.version h)

accepted_from_kept :
    (now : Instant) (version : PolicyVersion) (accepted : Option PolicyVersion)
    (records : List ConsentRecord)
    → is_at_least version accepted ≡ true
    → is_at_least version (accepted_from now accepted records) ≡ true
unfolding accepted_from
accepted_from_kept now version accepted [] h = h
accepted_from_kept now version accepted (r ∷ records) h =
    accepted_from_kept now version (accept_one now accepted r) records
      (accept_one_kept now version accepted r h)

accept_one-live :
    (now : Instant) (r : ConsentRecord) (accepted : Option PolicyVersion)
    → same_kind r.kind processing ≡ true
    → is_live_at r now ≡ true
    → is_at_least r.version (accept_one now accepted r) ≡ true
unfolding accept_one
accept_one-live now r accepted kind live = rw (kind, live) (later_of_next accepted r.version)

-- A live consent to processing counts, wherever it stands.
accepted_from-Memᴰ :
    (now : Instant) (r : ConsentRecord) (accepted : Option PolicyVersion)
    (records : List ConsentRecord)
    → Memᴰ r records
    → same_kind r.kind processing ≡ true
    → is_live_at r now ≡ true
    → is_at_least r.version (accepted_from now accepted records) ≡ true
unfolding accepted_from
accepted_from-Memᴰ now r accepted [] none_there kind live = elim none_there [ ]
accepted_from-Memᴰ now r accepted (q ∷ records) (Memᴰ.head e) kind live =
    accepted_from_kept now r.version (accept_one now accepted q) records (
      subst (λ x. is_at_least r.version (accept_one now accepted x) ≡ true) e
        (accept_one-live now r accepted kind live))
accepted_from-Memᴰ now r accepted (q ∷ records) (Memᴰ.tail later) kind live =
    accepted_from-Memᴰ now r (accept_one now accepted q) records later kind live

asks_again-current :
    (versions : PolicyVersions) (accepted : Option PolicyVersion)
    → is_at_least versions.current accepted ≡ true
    → asks_again versions accepted ≡ false
unfolding asks_again needs_reacceptance
asks_again-current versions none h = absurd (ground (arith, h))
asks_again-current versions (some accepted) h = ground (arith, h)

-- Whether the one who consents is a guardian of the student, or the student who is old enough for it
-- or whose date of birth is not known.
abbrev pub may_consent : Ports → GiveConsentRequest → Instant → Bool
may_consent ports request now =
    if same_id request.given_by request.subject
    then (elim ports.rule [
      | ok rule ↦ grown_of (ports.birth_date_of request.tenant request.subject) rule now
      | err e ↦ false
    ])
    else has_value (ports.find_active request.tenant request.given_by request.subject)

entitled-may_consent :
    (ports : Ports) (request : GiveConsentRequest) (now : Instant) {right : Bool}
    → entitled ports request now ≡ ok right
    → may_consent ports request now ≡ true
unfolding entitled own_consent
entitled-may_consent ports request now h =
    elim (Bool-cases (same_id request.given_by request.subject)) [
      | inl own ↦ elim (Result-cases ports.rule) [
        | inl (rule, known) ↦ ground (arith, own, known, rw (own, known) at h)
        | inr (e, unknown) ↦ absurd (ground (arith, rw (own, unknown) at h))
      ]
      | inr other ↦ ground (arith, other, h)
    ]

record IsMade (request : GiveConsentRequest) (version : PolicyVersion) (r : ConsentRecord)
    : Type 0 where
  tenant : r.tenant ≡ request.tenant
  subject : r.subject ≡ request.subject
  kind : r.kind ≡ request.kind
  version_now : r.version ≡ version
  lives : r.withdrawn_at ≡ none

give-IsMade :
    (id : StrongId consent_record_tag) (request : GiveConsentRequest) (version : PolicyVersion)
    (now : Instant) (r : ConsentRecord)
    → give id request.tenant request.subject request.given_by request.kind version request.action
        now
      ≡ ok r
    → IsMade request version r
unfolding give
give-IsMade id request version now r h = record {
  tenant = ground (arith, h);
  subject = ground (arith, h);
  kind = ground (arith, h);
  version_now = ground (arith, h);
  lives = ground (arith, h);
}

record_of : ConsentRecord → Result ConsentRecord → ConsentRecord
record_of other (ok r) = r
record_of other (err e) = other

module _ {Stored : Type 0} (consents : Consents Stored) (versions : PolicyVersions) where
  record IsGiven (ports : Ports) (id : StrongId consent_record_tag) (request : GiveConsentRequest)
      (now : Instant) (stored : Stored) (r : ConsentRecord) (after : Stored) : Type 0 where
    right : may_consent ports request now ≡ true
    given :
        give id request.tenant request.subject request.given_by request.kind versions.current
          request.action now
        ≡ ok r
    saved : after ≡ consents.save r stored

  save_given-IsGiven :
      (ports : Ports) (id : StrongId consent_record_tag) (request : GiveConsentRequest)
      (now : Instant) (stored : Stored) (r : ConsentRecord) (after : Stored)
      (result : Result ConsentRecord)
      → may_consent ports request now ≡ true
      → give id request.tenant request.subject request.given_by request.kind versions.current
          request.action now
        ≡ result
      → save_given consents versions result stored ≡ (ok r, after)
      → IsGiven ports id request now stored r after
  unfolding save_given record_of
  save_given-IsGiven ports id request now stored r after (err e) right e_given h =
      absurd (ground (arith, h))
  save_given-IsGiven ports id request now stored r after (ok q) right e_given h =
      let e = ap (λ (p : Result ConsentRecord × Stored). p.0) h in
      record {
        right = right;
        given = e_given ∙ e;
        saved =
            sym (ap (λ (p : Result ConsentRecord × Stored). p.1) h)
            ∙ ap (λ x. consents.save x stored) (ap (record_of q) e);
      }

  give_entitled-IsGiven :
      (ports : Ports) (id : StrongId consent_record_tag) (request : GiveConsentRequest)
      (now : Instant) (stored : Stored) (r : ConsentRecord) (after : Stored)
      → give_consent consents versions ports id request now stored ≡ (ok r, after)
      → IsGiven ports id request now stored r after
  unfolding give_consent give_entitled
  give_entitled-IsGiven ports id request now stored r after h =
      elim (Result-cases (entitled ports request now)) [
        | inr (e, refused) ↦ absurd (ground (arith, rw refused at h))
        | inl (right, may) ↦
            save_given-IsGiven ports id request now stored r after
              (give id request.tenant request.subject request.given_by request.kind versions.current
                request.action now)
              (entitled-may_consent ports request now may) refl (rw may at h)
      ]

  -- A consent of any kind that is taken was given by a guardian of the student, or by the student who is
  -- old enough or whose date of birth is not known; the record that is returned has the kind that was
  -- asked for and is what was saved. If it is a consent to processing, the student is at no moment
  -- asked to accept the current version again, while that version is current and the stored consents
  -- are those that the consent left.
  pub give_consent-show_my_data :
      (ports : Ports) (id : StrongId consent_record_tag) (request : GiveConsentRequest)
      (now later : Instant) (stored : Stored) (r : ConsentRecord) (after : Stored)
      → give_consent consents versions ports id request now stored ≡ (ok r, after)
      → (may_consent ports request now ≡ true)
        × (r.kind ≡ request.kind)
        × (after ≡ consents.save r stored)
        × (request.kind ≡ processing
            → (show_my_data consents versions request.tenant request.subject later
                after).asks_to_accept_again
              ≡ false)
  unfolding show_my_data give is_live_at
  give_consent-show_my_data ports id request now later stored r after h =
      let done = give_entitled-IsGiven ports id request now stored r after h in
      let made = give-IsMade id request versions.current now r done.given in
      let there : Memᴰ r (consents.of_person request.tenant request.subject after) =
        rw (done.saved, ← made.tenant, ← made.subject) (consents.saved r stored) in
      (
        done.right,
        made.kind,
        done.saved,
        λ kind.
            asks_again-current versions
              (accepted_from later none (consents.of_person request.tenant request.subject after))
              (rw (← made.version_now) (
                accepted_from-Memᴰ later r none
                  (consents.of_person request.tenant request.subject after) there
                  (rw (made.kind, kind) refl) (rw made.lives refl))),
      )
