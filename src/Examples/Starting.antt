-- ===== src/Examples/Starting.antt =====
-- A practice that is opened, an account that is registered, contacts that are invited, and a consent.
use mathlib.Core.List.{Memᴰ}
use pdr.Base.{◌≡◌, refl, ◌≤◌, ℕ, pos, ◌+ℤ◌, true, false, List, [], ◌∷◌, none, some, arith, String}
use pdr.Base.Bits.{has_bit, with_bit}
use pdr.Core.Errors.{ok}
use pdr.Identity.Roles.{student, owner, tutor, has_role, with_role}
use pdr.Identity.Tokens.{invitation, parse_secret, invite}
use pdr.Identity.Processing.{ConsentRecord, processing, sign_up_checkbox}
use pdr.Identity.Processing.MyData.{
  Consents, PolicyVersions, GiveConsentRequest, give_consent, show_my_data,
}
use pdr.Identity.Processing.MyData.Accepted.{may_consent, give_consent-show_my_data}
use pdr.Identity.Subjects.{Ports}
use pdr.Identity.Practices.{opened}
use pdr.Identity.Accounts.{SignupLimits, Account, invite_account}
use pdr.Identity.Contacts.{Contact, ready}
use pdr.Identity.Contacts.Mails.{ready_mails}
use pdr.Identity.Entrance.Passwords.{PasswordHash}
use pdr.Identity.Entrance.Passwords.{chosen}
use pdr.Identity.Practices.Store.{compose_tenant, open_row}
use pdr.Identity.Entrance.PeopleStore.{enrol, find_by_mail, save_hash, save_account, knows}
use pdr.Identity.Entrance.TokenStore.{live_invitation_to, issue, has_clash}
use pdr.Identity.Entrance.SessionStore
use pdr.Identity.Entrance.Joining.{invite_participant}
use pdr.Identity.Sessions.{open_session}
use pdr.Identity.Entrance.Tables.{Tables, returned}
use pdr.Identity.Entrance.Signup.{window_of}
use pdr.Identity.Entrance.Signup.Limit.{Attempt, registrations, registrations_limit}
use pdr.Identity.Entrance.Opening.{
  OpenPracticeRequest, OpenedPractice, Town, Drawn, finished, open_practice,
}
use pdr.Identity.Entrance.Opening.Started.{IsOpened, hash_of, open_practice-IsOpened}
use pdr.Identity.Entrance.Inviting.{Supply, InvitationRun, judge, send}
use pdr.Identity.Entrance.Inviting.Issued.{sent_mails, AllEarly}
use pdr.Identity.Entrance.Inviting.Repeated.{send-twice}
use pdr.Examples.People.{
  practice, parent, pupil, teacher, moment, new_year, born, tie, to_schedule, ports_of,
}
use pdr.Examples.Signing.{
  services, lifetimes, home, tables, text_secret, long_password, stored, standing,
}

abbrev request : OpenPracticeRequest
request = record {
  practice_name = " Algebra ";
  display_name = "Anna";
  mail = record { value = "anna@example.org" };
  born_on = born;
  zone = record { name = "Europe/Moscow" };
  password = long_password;
  seen_as = home;
}

abbrev drawn : Drawn
drawn = record { person = teacher; tenant = practice; secret = record { value = 200 } }

abbrev town : Town
town = record { tables = tables; practices = [] }

abbrev limits : SignupLimits
limits = record { window = pos 3600000000; per_address = 3 }

abbrev attempt : ℕ → Attempt
attempt n = record {
  at = new_year;
  id = record { value = n };
  text = text_secret.value;
  mail = record { value = "anna@example.org" };
}

registrations_limit_example :
    registrations services
      (record { value = "office" })
      (attempt 1 ∷ attempt 2 ∷ attempt 3 ∷ attempt 4 ∷ [])
      (record { accounts = []; windows = [] })
    ≤ 3
unfolding ◌+ℤ◌
registrations_limit_example =
    registrations_limit services limits lifetimes refl refl (record { value = "office" })
      (attempt 1) (attempt 2 ∷ attempt 3 ∷ attempt 4 ∷ []) (record { accounts = []; windows = [] })
      (unfold window_of in refl) (refl, (refl, (refl, tt))) (omega arith) (omega arith)

abbrev opened_here : OpenedPractice
opened_here = record {
  tenant = practice;
  owner = teacher;
  session = record {
    id = record { tenant = practice; secret = record { value = 200 } };
    person = teacher;
    created_at = new_year;
    expires_at = moment (pos 1738281600000000);
    revoked_at = none;
    seen = home;
  };
}

abbrev anna : Account
anna = record {
  id = teacher;
  mail = record { value = "anna@example.org" };
  confirmed_at = some new_year;
  confirmation = none;
  confirmation_expires_at = none;
  created_at = new_year;
}

abbrev opened_town : Town
opened_town = record {
  tables = record tables {
    sessions = standing ∷ opened_here.session ∷ [];
    people =
        record {
          tenant = practice;
          person = record { id = teacher; mail = some request.mail; born_on = born };
          display_name = "Anna";
          zone = "Europe/Moscow";
        }
        ∷ [];
    credentials = record { tenant = practice; person = teacher; hash = stored } ∷ [];
    roles =
        record { tenant = practice; person = teacher; role = tutor }
        ∷ record { tenant = practice; person = teacher; role = owner }
        ∷ [];
    accounts = anna ∷ [];
  };
  practices =
      record {
        tenant_id = practice;
        name = "Algebra";
        zone = "Europe/Moscow";
        visibility = "hidden";
        created_at = new_year;
        asked_at = none;
        decided_at = none;
        refusal = none;
      }
      ∷ [];
}

opens : open_practice services new_year drawn request town ≡ finished (ok opened_here) opened_town
unfolding open_practice ◌+ℤ◌ opened chosen compose_tenant open_row enrol open_session find_by_mail
    SessionStore.save save_hash has_role invite_account has_bit save_account with_role with_bit
opens = refl

open_practice-IsOpened_example :
    (hash : PasswordHash) × (hash_of services request services.passwords ≡ ok hash)
    × IsOpened new_year drawn request hash opened_here opened_town
open_practice-IsOpened_example =
    open_practice-IsOpened services new_year drawn request town opened_town opened_here
      (unfold SessionStore.find in refl) opens

abbrev link_text : String
link_text = "BBBBBBBBBBBBBBBBBBBBBBBBBBBBBBBBBBBBBBBBBBB"

abbrev supply : Supply
supply = record {
  asked_at = λ count. moment (pos 1735689599999999);
  now_at = λ count. new_year;
  id_at = λ count. record { value = count };
  text_at = λ count. link_text;
}

abbrev line : Contact
line = record {
  raw = "boris@example.org";
  mail = some (record { value = "boris@example.org" });
  verdict = ready;
}

abbrev run : InvitationRun
run = record {
  judged = line ∷ [];
  sent =
      record {
        mail = record { value = "boris@example.org" };
        secret = record { value = link_text };
      }
      ∷ [];
}

abbrev invited_tables : Tables
invited_tables = record tables {
  tokens =
      record {
        id = record { value = 0 };
        tenant = practice;
        secret = record { value = link_text };
        purpose = invitation;
        role = some student;
        person = none;
        invited = some (record { value = "boris@example.org" });
        created_at = new_year;
        expires_at = moment (pos 1736294400000000);
        used_at = none;
      }
      ∷ tables.tokens;
}

sends :
    send services supply new_year practice student (line ∷ []) tables
    ≡ returned (ok run) invited_tables
unfolding send ◌+ℤ◌ knows live_invitation_to invite_participant parse_secret invite issue has_clash
sends = refl

early : AllEarly lifetimes supply new_year
unfolding ◌+ℤ◌
early count = refl

send-twice_example :
    (sent_mails run.sent ≡ ready_mails run.judged)
    × (send services supply new_year practice student run.judged invited_tables
        ≡ returned
            (ok (record {
              judged = judge services practice new_year invited_tables run.judged;
              sent = [];
            }))
            invited_tables)
send-twice_example =
    send-twice services lifetimes refl supply supply new_year new_year practice student (line ∷ [])
      tables invited_tables run sends early

-- A store of the consents of one person.
abbrev consents : Consents (List ConsentRecord)
consents = record {
  of_person = λ tenant subject stored. stored;
  save = λ r stored. r ∷ stored;
  saved = λ r stored. Memᴰ.head refl;
}

abbrev versions : PolicyVersions
versions = record { current = record { number = pos 2 }; substantial_after = λ accepted. true }

abbrev for_pupil : GiveConsentRequest
for_pupil = record {
  tenant = practice;
  subject = pupil;
  given_by = parent;
  kind = processing;
  action = sign_up_checkbox;
}

abbrev ports : Ports
ports = ports_of (some tie) (to_schedule ∷ [])

abbrev taken : ConsentRecord
taken = record {
  id = record { value = 50 };
  tenant = practice;
  subject = pupil;
  given_by = parent;
  kind = processing;
  version = record { number = pos 2 };
  action = sign_up_checkbox;
  given_at = new_year;
  withdrawn_at = none;
}

gives :
    give_consent consents versions ports (record { value = 50 }) for_pupil new_year []
    ≡ (ok taken, taken ∷ [])
unfolding give_consent
gives = refl

give_consent-show_my_data_example :
    (may_consent ports for_pupil new_year ≡ true)
    × (taken.kind ≡ for_pupil.kind)
    × ((taken ∷ []) ≡ consents.save taken [])
    × (processing ≡ processing
        → (show_my_data consents versions practice pupil new_year (taken ∷ [])).asks_to_accept_again
          ≡ false)
give_consent-show_my_data_example =
    give_consent-show_my_data consents versions ports (record { value = 50 }) for_pupil new_year
      new_year [] taken (taken ∷ []) gives
