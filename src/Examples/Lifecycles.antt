-- ===== src/Examples/Lifecycles.antt =====
-- A guardianship, a consent and a practice on their way.
use pdr.Base.{◌≡◌, refl, true, false, none, some, pos}
use pdr.Core.Errors.{ok}
use pdr.Identity.Scopes.{recordings, same_scope}
use pdr.Identity.Consents.{GuardianConsent, named_by_student, reached_by, is_active_at}
use pdr.Identity.Consents
use pdr.Identity.Consents.Lifecycle.{revoked_final}
use pdr.Identity.Guardianship.{is_active}
use pdr.Identity.Practices.{Practice, opened, asked_to_publish, pending}
use pdr.Identity.Practices.Publication.{at_start, after, asks, IsCoherent, reached-IsCoherent}
use pdr.Identity.Processing.{ConsentRecord, processing, sign_up_checkbox, give}
use pdr.Examples.People.{practice, parent, pupil, new_year, moment, to_recordings, tie}

granted :
    Consents.grant to_recordings.id practice parent pupil recordings named_by_student pupil
      (moment (pos 0))
      to_recordings.expires_at
    ≡ ok to_recordings
unfolding Consents.grant same_scope
granted = refl

abbrev taken_back : GuardianConsent
taken_back = record to_recordings { revoked_at = some new_year; revoked_by = some pupil }

taken : Consents.revoked to_recordings new_year pupil ≡ ok taken_back
unfolding Consents.revoked
taken = refl

revoked_final_example : is_active_at taken_back new_year ≡ false
revoked_final_example = (revoked_final to_recordings taken_back new_year pupil taken).0 new_year

tie_active : is_active tie ≡ true
unfolding is_active
tie_active = refl

abbrev asked : Practice
asked = record {
  tenant = practice;
  visibility = pending;
  opened_at = new_year;
  asked_at = some new_year;
  decided_at = none;
  refusal = none;
}

asks_to : asked_to_publish (opened practice new_year) new_year ≡ ok asked
unfolding asked_to_publish opened
asks_to = refl

reached-IsCoherent_example : IsCoherent asked × (asked.tenant ≡ practice)
reached-IsCoherent_example =
    reached-IsCoherent practice asked (after (at_start new_year) (asks new_year asks_to))

abbrev to_process : ConsentRecord
to_process = record {
  id = record { value = 20 };
  tenant = practice;
  subject = pupil;
  given_by = parent;
  kind = processing;
  version = record { number = pos 1 };
  action = sign_up_checkbox;
  given_at = moment (pos 0);
  withdrawn_at = none;
}

given :
    give to_process.id practice pupil parent processing to_process.version sign_up_checkbox
      (moment (pos 0))
    ≡ ok to_process
unfolding give
given = refl
