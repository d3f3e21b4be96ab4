-- ===== src/Examples/Texts.antt =====
-- Secrets, time zones, lists of contacts and identifiers of sessions as texts.
use pdr.Base.{
  ◌≡◌, ◌≤◌, true, not, ◌&&◌, ◌↔◌, List, Option, none, some, String, str_eq, if◌then◌else◌, leb,
  length, pieces, is_blank, All, arith,
}
use Prim.Native.String.{len}
use pdr.Core.Errors.{Error, ok, err, validation}
use pdr.Core.Secrets.{every_secret, verify_secrets}
use pdr.Core.Secrets.Inspection.{all_given, pairwise_apart, verify_secrets_lem}
use pdr.Core.Zones.{parse_zone, k_max_name_length, k_max_segments, is_slash}
use pdr.Core.Zones.Parsing.{all_segments, parse_zone_total}
use pdr.Identity.Contacts.{Contact, parse_contacts, k_most_lines, has_text}
use pdr.Identity.Contacts.Mails.{ready_mails, all_mails, distinct}
use pdr.Identity.Contacts.Pasting.{IsRight, parse_contacts_total}
use pdr.Identity.Sessions.{SessionId}
use pdr.Identity.Sessions.Texts.{parse_session_id, session_id_text}
use pdr.Identity.Sessions.Texts.RoundTrip.{parse_session_id-session_id_text}

-- A source that knows the address of the database only.
abbrev known_secret : String → Option String
known_secret name = if str_eq name "postgres_dsn" then some "postgres" else none

verify_secrets_lem_example :
    ((verify_secrets known_secret every_secret ≡ ok tt)
      ↔ (all_given known_secret every_secret && pairwise_apart known_secret every_secret ≡ true))
    × ((e : Error)
        → verify_secrets known_secret every_secret ≡ err e
        → (e.code ≡ "secrets_incomplete") × (e.kind ≡ validation))
verify_secrets_lem_example = verify_secrets_lem known_secret every_secret

parse_zone_total_example : parse_zone "Europe/Moscow" ≡ (
    if not (is_blank "Europe/Moscow")
      && (leb (len "Europe/Moscow") k_max_name_length
          && (all_segments (pieces is_slash "Europe/Moscow")
              && leb (length (pieces is_slash "Europe/Moscow")) k_max_segments))
    then some (record { name = "Europe/Moscow" })
    else none)
parse_zone_total_example = parse_zone_total "Europe/Moscow"

abbrev pasted : String
pasted = "Ivan <ivan@example.org>, ivan@example.org; anna"

parse_contacts_total_example :
    (lines : List Contact) × (parse_contacts pasted ≡ some lines)
    × (length lines ≤ k_most_lines)
    × All IsRight lines
    × (distinct (ready_mails lines) ≡ true)
    × ((mail : String)
        → has_text mail (all_mails lines) ≡ true
        → has_text mail (ready_mails lines) ≡ true)
parse_contacts_total_example = parse_contacts_total pasted

abbrev session_id : SessionId
session_id = record { tenant = record { value = 255 }; secret = record { value = 4096 } }

parse_session_id-session_id_text_example :
    parse_session_id (session_id_text session_id) ≡ ok session_id
parse_session_id-session_id_text_example =
    parse_session_id-session_id_text session_id (omega arith) (omega arith)
