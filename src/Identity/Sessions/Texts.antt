-- ===== src/Identity/Sessions/Texts.antt =====
-- identity/core/session.cpp: the identifier of a session as a text, the list of its bytes.
pub mod RoundTrip
use pdr.Base.{ℕ, Bool, List, [], ◌∷◌, ◌++◌, Option, none, some, ◌==◌, if◌then◌else◌}
use pdr.Core.Errors.{Result, ok, refuse, validation}
use pdr.Core.Ids.{StrongId, session_tag, TenantId}
use pdr.Core.Uuid.{parse_id, id_text}
use pdr.Identity.Sessions.{SessionId}

abbrev pub k_separator : ℕ
k_separator = b'.'

-- `text.find(kSeparator)` with the two `substr` beside it.
unfoldable pub split : List ℕ → List ℕ × Option (List ℕ)
split [] = ([], none)
split (symbol ∷ text) =
    let rest = split text in
    if symbol == k_separator then ([], some text) else (symbol ∷ rest.0, rest.1)

unfoldable pub both_parts : Option TenantId → Option (StrongId session_tag) → Result SessionId
both_parts (some tenant) (some secret) = ok (record { tenant = tenant; secret = secret })
both_parts (some tenant) none =
    refuse validation "session_id_malformed" "обе части идентификатора сессии — идентификаторы"
both_parts none secret =
    refuse validation "session_id_malformed" "обе части идентификатора сессии — идентификаторы"

unfoldable pub parts_of : List ℕ × Option (List ℕ) → Result SessionId
unfolding both_parts parse_id
parts_of (tenant, none) =
    refuse validation "session_id_malformed"
      "идентификатор сессии записывается как «арендатор.секрет»"
parts_of (tenant, some secret) = both_parts (parse_id tenant) (parse_id secret)

unfoldable pub parse_session_id : List ℕ → Result SessionId
unfolding split parts_of
parse_session_id text = parts_of (split text)

unfoldable pub session_id_text : SessionId → List ℕ
unfolding id_text
session_id_text id = id_text id.tenant ++ k_separator ∷ id_text id.secret
