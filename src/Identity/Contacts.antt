-- ===== src/Identity/Contacts.antt =====
-- identity/core/email.cpp, contact_list.hpp and contact_list.cpp: mail addresses, and the list of
-- contacts that somebody pastes. Each symbol that is looked for has one byte, so that the bytes of a text
-- and its characters are cut alike; `std::tolower` is that of the locale "C".
pub mod Mails
pub mod Pasting
use Prim.Native.Char.{Char, code}
use Prim.Native.String.{len, char_at}
use pdr.Base.{
  ℕ, zero, suc, ◌-◌, Bool, true, false, not, ◌&&◌, ◌||◌, List, [], ◌∷◌, ◌++◌, Option, none, some,
  String, str_eq, leb, ltb, ◌==◌, length, cut, size, is_blank, trimmed, find_named, if◌then◌else◌,
}
use pdr.Core.Errors.{Result, ok, err, refuse, validation}
use pdr.Identity.Entrance.Passwords.{Email}

abbrev pub k_max_email_length : ℕ
k_max_email_length = 254

lower_char : Char → Char
lower_char c =
    if leb b'A' (code c) && leb (code c) b'Z'
    then char_at "abcdefghijklmnopqrstuvwxyz" (code c - b'A')
    else c

unfoldable pub lowered : String → String
unfolding lower_char
lowered String.[] = String.[]
lowered (String.◌∷◌ c s) = String.◌∷◌ (lower_char c) (lowered s)

abbrev pub any_char : (ℕ → Bool) → String → Bool
any_char test String.[] = false
any_char test (String.◌∷◌ c s) = test (code c) || any_char test s

abbrev pub is_at : ℕ → Bool
is_at symbol = symbol == b'@'

abbrev pub is_dot : ℕ → Bool
is_dot symbol = symbol == b'.'

-- The parts round the dot of the domain.
abbrev has_ends : String × Option String → Bool
has_ends (before, none) = false
has_ends (before, some after) = not (is_blank before) && not (is_blank after)

shaped_parts : String → String × Option String → Bool
shaped_parts text (name, none) = false
shaped_parts text (name, some domain) =
    if is_blank name || is_blank domain
    then false
    else if any_char is_at domain
    then false
    else if not (has_ends (cut is_dot domain))
    then false
    else not (any_char (λ symbol. symbol == b' ') text)

unfoldable pub shaped : String → Bool
unfolding shaped_parts
shaped text = shaped_parts text (cut is_at text)

unfoldable pub parse_email : String → Result Email
unfolding shaped lowered
parse_email text =
    if is_blank text || (ltb k_max_email_length (len text) || not (shaped text))
    then refuse validation "email_malformed" "адрес почты не похож на адрес почты"
    else ok (record { value = lowered text })

pub data ContactVerdict : Type 0 where
  ready malformed repeated_in_list already_invited already_enrolled boundary : ContactVerdict

unfoldable pub verdict_name : ContactVerdict → String
verdict_name ready = "ready"
verdict_name malformed = "malformed"
verdict_name repeated_in_list = "repeated_in_list"
verdict_name already_invited = "already_invited"
verdict_name already_enrolled = "already_enrolled"
verdict_name boundary = "boundary"

abbrev pub every_contact_verdict : List ContactVerdict
every_contact_verdict =
    ready ∷ malformed ∷ repeated_in_list ∷ already_invited ∷ already_enrolled ∷ []

unfoldable pub parse_contact_verdict : String → Option ContactVerdict
unfolding verdict_name find_named
parse_contact_verdict text = find_named verdict_name every_contact_verdict text

abbrev pub is_ready : ContactVerdict → Bool
is_ready ready = true
is_ready malformed = false
is_ready repeated_in_list = false
is_ready already_invited = false
is_ready already_enrolled = false
is_ready boundary = false

pub record Contact : Type 0 where
  pub raw : String
  pub mail : Option Email
  pub verdict : ContactVerdict

abbrev pub is_separator : ℕ → Bool
is_separator symbol =
    symbol == 10 || (symbol == 13 || (symbol == b',' || (symbol == b';' || symbol == 9)))

abbrev pub is_space : ℕ → Bool
is_space symbol = symbol == b' ' || (symbol == 9 || (symbol == 11 || symbol == 12))

unfoldable pub trim : String → String
unfolding trimmed
trim text = trimmed is_space text

closed_at : String → String × Option String → String
closed_at line (inside, none) = line
closed_at line (inside, some after) = trim inside

opened_at : String → String × Option String → String
unfolding closed_at
opened_at line (before, none) = line
opened_at line (before, some after) = closed_at line (cut (λ symbol. symbol == b'>') after)

-- The address between the brackets, or the whole line.
unfoldable pub addressed : String → String
unfolding opened_at trim
addressed line = opened_at line (cut (λ symbol. symbol == b'<') line)

abbrev pub k_most_lines : ℕ
k_most_lines = 500

-- The lines so far, and the mails that were seen.
pub record Pasted : Type 0 where
  pub lines : List Contact
  pub seen : List String

abbrev pub has_text : String → List String → Bool
has_text text [] = false
has_text text (x ∷ xs) = str_eq x text || has_text text xs

line_of : Pasted → String → Result Email → Pasted
line_of pasted piece (err e) = record pasted {
  lines = pasted.lines ++ record { raw = piece; mail = none; verdict = malformed } ∷ [];
}
line_of pasted piece (ok mail) =
    if has_text mail.value pasted.seen
    then record pasted {
      lines =
          pasted.lines ++ record { raw = piece; mail = some mail; verdict = repeated_in_list } ∷ [];
    }
    else record {
      lines = pasted.lines ++ record { raw = piece; mail = some mail; verdict = ready } ∷ [];
      seen = mail.value ∷ pasted.seen;
    }

-- What one piece between separators adds.
unfoldable pub add_piece : Pasted → String → Pasted
unfolding line_of parse_email addressed trim
add_piece pasted piece =
    let line = trim piece in
    if is_blank line then pasted else line_of pasted line (parse_email (addressed line))

-- The loop of `ContactList::Parse` from the rest of the text. Without fuel there is no answer.
unfoldable pub lines_from : ℕ → String → Pasted → Option (List Contact)
unfolding add_piece
lines_from zero rest pasted = none
lines_from (suc fuel) rest pasted =
    if not (ltb (length pasted.lines) k_most_lines)
    then some pasted.lines
    else let found = cut is_separator rest in
      elim found.1 [
        | none ↦ some (add_piece pasted found.0).lines
        | some later ↦ lines_from fuel later (add_piece pasted found.0)
      ]

-- Each round of the loop passes a separator, so that the characters of the text are enough fuel.
unfoldable pub parse_contacts : String → Option (List Contact)
unfolding lines_from
parse_contacts pasted = lines_from (suc (size pasted)) pasted (record { lines = []; seen = [] })

unfoldable pub ready_lines : List Contact → ℕ
ready_lines [] = 0
ready_lines (line ∷ lines) =
    let rest = ready_lines lines in if is_ready line.verdict then suc rest else rest
