-- ===== src/Identity/Sessions/Texts/RoundTrip.antt =====
-- session.cpp: the identifier of a session is read back from its text.
use pdr.Base.{
  ℕ, suc, ◌/◌, ◌<◌, ◌≡◌, refl, true, false, not, List, [], ◌∷◌, ◌++◌, some, ◌==◌, All, arith,
  Bool-cases, inl, inr,
}
use Prim.Native.Nat.{bit_and}
use pdr.Core.Errors.{ok}
use pdr.Core.Ids.{Tag, StrongId}
use pdr.Core.Uuid.{digit_of, opens_group, format_from, format_uuid, bytes_from, id_text}
use pdr.Core.Uuid.Digits.{passes_under, passes_under_lem, halves}
use pdr.Core.Uuid.RoundTrip.{
  format_opens, format_inside, limit, bytes_from-IsBytes, parse_id-id_text,
}
use pdr.Identity.Sessions.{SessionId}
use pdr.Identity.Sessions.Texts.{
  k_separator, split, both_parts, parts_of, parse_session_id, session_id_text,
}

IsPart : List ℕ → Type 0
IsPart text = All (λ symbol. (symbol == k_separator) ≡ false) text

split-join :
    (text rest : List ℕ) → IsPart text → split (text ++ k_separator ∷ rest) ≡ (text, some rest)
unfolding split IsPart
split-join [] rest h = refl
split-join (symbol ∷ text) rest (here, later) = rw (here, split-join text rest later) refl

digits_apart : passes_under (λ d. not (digit_of d == k_separator)) 16 ≡ true
unfolding passes_under digit_of
digits_apart = refl

digit_apart : (d : ℕ) → d < 16 → (digit_of d == k_separator) ≡ false
digit_apart d h =
    ground (arith, passes_under_lem (λ d. not (digit_of d == k_separator)) 16 digits_apart d h)

format_from-IsPart :
    (index : ℕ) (bytes : List ℕ) → All (λ byte. byte < 256) bytes → IsPart (format_from index bytes)
unfolding IsPart
format_from-IsPart index [] h = unfold format_from in tt
format_from-IsPart index (byte ∷ bytes) (small, rest) =
    let (joined, low) = halves byte small in
    let first = digit_apart (byte / 16) (omega arith) in
    let second = digit_apart (bit_and byte 15) (omega (arith, low)) in
    let others = format_from-IsPart (suc index) bytes rest in
    elim (Bool-cases (opens_group index)) [
      | inl opens ↦ rw (format_opens index byte bytes opens) (refl, (first, (second, others)))
      | inr inside ↦ rw (format_inside index byte bytes inside) (first, (second, others))
    ]

id_text-IsPart : {tag : Tag} (id : StrongId tag) → IsPart (id_text id)
unfolding id_text format_uuid
id_text-IsPart id =
    format_from-IsPart 0 (bytes_from 16 id.value []) (bytes_from-IsBytes 16 id.value [] tt).0

-- The identifier of a session whose two parts have 128 bits is read back from its text.
pub parse_session_id-session_id_text :
    (id : SessionId)
    → id.tenant.value < limit 16
    → id.secret.value < limit 16
    → parse_session_id (session_id_text id) ≡ ok id
unfolding parse_session_id session_id_text parts_of both_parts
parse_session_id-session_id_text id tenant secret =
    rw
      (
        split-join (id_text id.tenant) (id_text id.secret) (id_text-IsPart id.tenant),
        parse_id-id_text id.tenant tenant,
        parse_id-id_text id.secret secret,
      )
      refl
