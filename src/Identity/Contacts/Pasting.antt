-- ===== src/Identity/Contacts/Pasting.antt =====
-- contact_list.cpp: the loop over a pasted list ends, and each mail of it is ready exactly once.
use mathlib.Core.List.{append-nil}
use pdr.Base.{
  ◌≡◌, refl, ap, ◌∙◌, ℕ, zero, suc, ◌+◌, ◌<◌, ◌≤◌, true, false, not, List, [], ◌∷◌, ◌++◌, none,
  some, String, str_eq_refl, ltb, length, length-append, All, cut, size, is_blank, pieces,
  pieces-cut, cut_smaller, arith, Bool-cases, Option-cases, inl, inr, if◌then◌else◌, if_both,
}
use pdr.Core.Errors.{Error, ok, err, Result-cases}
use pdr.Identity.Entrance.Passwords.{Email}
use pdr.Identity.Contacts.{
  Contact, Pasted, ready, malformed, repeated_in_list, is_ready, has_text, is_separator, trim,
  addressed, parse_email, line_of, add_piece, lines_from, parse_contacts, k_most_lines,
}
use pdr.Identity.Contacts.Mails.{
  ready_mails, all_mails, within, distinct, has_text-append, within-has_text, within-cons,
  within-snoc, within-append, distinct-append,
}

-- The pieces of a text, judged one by one until the list is full.
scan : List String → Pasted → Pasted
scan [] pasted = pasted
scan (piece ∷ rest) pasted =
    if not (ltb (length pasted.lines) k_most_lines)
    then pasted
    else scan rest (add_piece pasted piece)

lines_from-scan :
    (fuel : ℕ) (rest : String) (pasted : Pasted)
    → size rest < fuel
    → lines_from fuel rest pasted ≡ some (scan (pieces is_separator rest) pasted).lines
unfolding lines_from scan
lines_from-scan zero rest pasted enough = absurd (omega arith)
lines_from-scan (suc fuel) rest pasted enough =
    let split = pieces-cut is_separator rest in
    elim (Option-cases (cut is_separator rest).1) [
      | inl last ↦ rw (split, last) (ground arith)
      | inr (later, more) ↦
          rw (split, more)
            (ground (
              arith,
              lines_from-scan fuel later (add_piece pasted (cut is_separator rest).0)
                  (omega (arith, cut_smaller is_separator rest {rest = later} more)),
            ))
    ]

-- What a line says of itself: a line without a mail is malformed and its text is no address; any other
-- has the mail that its text reads as.
abbrev pub IsRight : Contact → Type 0
IsRight line = elim line.mail [
  | none ↦ (line.verdict ≡ malformed) × ((e : Error) × (parse_email (addressed line.raw) ≡ err e))
  | some mail ↦ parse_email (addressed line.raw) ≡ ok mail
]

record IsFair (pasted : Pasted) : Type 0 where
  right : All IsRight pasted.lines
  once : distinct (ready_mails pasted.lines) ≡ true
  seen_ready : within (ready_mails pasted.lines) pasted.seen ≡ true
  ready_seen : within pasted.seen (ready_mails pasted.lines) ≡ true
  read : within (all_mails pasted.lines) pasted.seen ≡ true

All-append :
    (lines : List Contact) (line : Contact)
    → All IsRight lines
    → IsRight line
    → All IsRight (lines ++ line ∷ [])
All-append [] line h right = (right, tt)
All-append (first ∷ lines) line h right = (h.0, All-append lines line h.1 right)

ready_mails-append :
    (lines : List Contact) (line : Contact)
    → ready_mails (lines ++ line ∷ []) ≡ ready_mails lines ++ ready_mails (line ∷ [])
ready_mails-append [] line = refl
ready_mails-append (first ∷ lines) line = elim (Option-cases first.mail) [
  | inl none_there ↦ rw none_there (ready_mails-append lines line)
  | inr (mail, there) ↦ elim (Bool-cases (is_ready first.verdict)) [
    | inl sends ↦ rw (there, sends) (ap (◌∷◌ mail.value) (ready_mails-append lines line))
    | inr not_sent ↦ rw (there, not_sent) (ready_mails-append lines line)
  ]
]

all_mails-append :
    (lines : List Contact) (line : Contact)
    → all_mails (lines ++ line ∷ []) ≡ all_mails lines ++ all_mails (line ∷ [])
all_mails-append [] line = refl
all_mails-append (first ∷ lines) line = elim (Option-cases first.mail) [
  | inl none_there ↦ rw none_there (all_mails-append lines line)
  | inr (mail, there) ↦ rw there (ap (◌∷◌ mail.value) (all_mails-append lines line))
]

IsFair-ready :
    (pasted : Pasted) (piece : String) (mail : Email)
    → IsFair pasted
    → parse_email (addressed piece) ≡ ok mail
    → has_text mail.value pasted.seen ≡ false
    → IsFair (record {
      lines = pasted.lines ++ record { raw = piece; mail = some mail; verdict = ready } ∷ [];
      seen = mail.value ∷ pasted.seen;
    })
IsFair-ready pasted piece mail fair reads new =
    let line : Contact = record { raw = piece; mail = some mail; verdict = ready } in
    let unready : has_text mail.value (ready_mails pasted.lines) ≡ false = ground (
      arith,
      new,
      within-has_text mail.value (ready_mails pasted.lines) pasted.seen fair.seen_ready,
    ) in
    let here : has_text mail.value (mail.value ∷ pasted.seen) ≡ true =
      ground (arith, str_eq_refl mail.value) in
    let stands : has_text mail.value (ready_mails pasted.lines ++ mail.value ∷ []) ≡ true = ground (
      arith,
      has_text-append mail.value (ready_mails pasted.lines) mail.value,
      str_eq_refl mail.value,
    ) in
    record {
      right = All-append pasted.lines line fair.right reads;
      once =
          rw (ready_mails-append pasted.lines line)
            (distinct-append mail.value (ready_mails pasted.lines) fair.once unready);
      seen_ready = rw (ready_mails-append pasted.lines line) (
          within-append mail.value (ready_mails pasted.lines) (mail.value ∷ pasted.seen)
            (within-cons mail.value (ready_mails pasted.lines) pasted.seen fair.seen_ready) here);
      ready_seen = rw (ready_mails-append pasted.lines line) (
          ground (
            arith,
            stands,
            within-snoc mail.value pasted.seen (ready_mails pasted.lines) fair.ready_seen,
          ));
      read = rw (all_mails-append pasted.lines line) (
          within-append mail.value (all_mails pasted.lines) (mail.value ∷ pasted.seen)
            (within-cons mail.value (all_mails pasted.lines) pasted.seen fair.read) here);
    }

aside_ready_mails : (line : Contact) → is_ready line.verdict ≡ false → ready_mails (line ∷ []) ≡ []
aside_ready_mails line aside = elim (Option-cases line.mail) [
  | inl none_there ↦ rw none_there refl
  | inr (mail, there) ↦ rw (there, aside) refl
]

all_mails-within :
    (lines : List Contact) (line : Contact) (seen : List String)
    → within (all_mails lines) seen ≡ true
    → within (all_mails (line ∷ [])) seen ≡ true
    → within (all_mails (lines ++ line ∷ [])) seen ≡ true
all_mails-within lines line seen h known = elim (Option-cases line.mail) [
  | inl none_there ↦ rw (all_mails-append lines line, none_there) (rw append-nil h)
  | inr (mail, there) ↦
      rw (all_mails-append lines line, there)
        (within-append mail.value (all_mails lines) seen h (ground (arith, rw there at known)))
]

-- A line that is not ready.
IsFair-set_aside :
    (pasted : Pasted) (line : Contact)
    → IsFair pasted
    → IsRight line
    → is_ready line.verdict ≡ false
    → within (all_mails (line ∷ [])) pasted.seen ≡ true
    → IsFair (record pasted { lines = pasted.lines ++ line ∷ [] })
IsFair-set_aside pasted line fair right aside known =
    let same : ready_mails (pasted.lines ++ line ∷ []) ≡ ready_mails pasted.lines =
      ready_mails-append pasted.lines line
      ∙ ap (◌++◌ (ready_mails pasted.lines)) (aside_ready_mails line aside)
      ∙ append-nil (ready_mails pasted.lines) in
    record {
      right = All-append pasted.lines line fair.right right;
      once = rw same fair.once;
      seen_ready = rw same fair.seen_ready;
      ready_seen = rw same fair.ready_seen;
      read = all_mails-within pasted.lines line pasted.seen fair.read known;
    }

add_piece-IsFair :
    (pasted : Pasted) (piece : String) → IsFair pasted → IsFair (add_piece pasted piece)
unfolding add_piece line_of
add_piece-IsFair pasted piece fair = elim (Bool-cases (is_blank (trim piece))) [
  | inl empty ↦ rw empty fair
  | inr full ↦ elim (Result-cases (parse_email (addressed (trim piece)))) [
    | inr (e, bad) ↦
        rw (full, bad)
          (IsFair-set_aside pasted (record { raw = trim piece; mail = none; verdict = malformed })
            fair (refl, (e, bad)) refl refl)
    | inl (mail, fine) ↦ elim (Bool-cases (has_text mail.value pasted.seen)) [
      | inl old ↦
          rw (full, fine, old)
            (IsFair-set_aside pasted
              (record { raw = trim piece; mail = some mail; verdict = repeated_in_list }) fair fine
              refl (ground (arith, old)))
      | inr new ↦ rw (full, fine, new) (IsFair-ready pasted (trim piece) mail fair fine new)
    ]
  ]
]

scan-IsFair : (texts : List String) (pasted : Pasted) → IsFair pasted → IsFair (scan texts pasted)
unfolding scan
scan-IsFair [] pasted fair = fair
scan-IsFair (piece ∷ rest) pasted fair =
    if_both IsFair (not (ltb (length pasted.lines) k_most_lines)) fair
      (scan-IsFair rest (add_piece pasted piece) (add_piece-IsFair pasted piece fair))

add_piece_grows :
    (pasted : Pasted) (piece : String)
    → length (add_piece pasted piece).lines ≤ length pasted.lines + 1
unfolding add_piece line_of
add_piece_grows pasted piece = elim (Bool-cases (is_blank (trim piece))) [
  | inl empty ↦ rw empty (omega arith)
  | inr full ↦ elim (Result-cases (parse_email (addressed (trim piece)))) [
    | inr (e, bad) ↦ rw (full, bad) (omega (arith, length-append {0}))
    | inl (mail, fine) ↦ elim (Bool-cases (has_text mail.value pasted.seen)) [
      | inl old ↦ rw (full, fine, old) (omega (arith, length-append {0}))
      | inr new ↦ rw (full, fine, new) (omega (arith, length-append {0}))
    ]
  ]
]

scan_bounded :
    (texts : List String) (pasted : Pasted)
    → length pasted.lines ≤ k_most_lines
    → length (scan texts pasted).lines ≤ k_most_lines
unfolding scan
scan_bounded [] pasted few = few
scan_bounded (piece ∷ rest) pasted few =
    ground (arith, few, add_piece_grows pasted piece, scan_bounded rest (add_piece pasted piece))

-- Whatever is pasted, it is read to an end: into at most 500 lines, of which each has the mail that its
-- own text reads as, or is malformed where that is no address; the mails of the ready lines are distinct,
-- and each mail that was read is one of theirs.
pub parse_contacts_total :
    (text : String)
    → (lines : List Contact) × (parse_contacts text ≡ some lines)
      × (length lines ≤ k_most_lines)
      × All IsRight lines
      × (distinct (ready_mails lines) ≡ true)
      × ((mail : String)
          → has_text mail (all_mails lines) ≡ true
          → has_text mail (ready_mails lines) ≡ true)
unfolding parse_contacts
parse_contacts_total text =
    let start : Pasted = record { lines = []; seen = [] } in
    let start_fair : IsFair start = record {
      right = tt;
      once = refl;
      seen_ready = refl;
      ready_seen = refl;
      read = refl;
    } in
    let last = scan (pieces is_separator text) start in
    let fair = scan-IsFair (pieces is_separator text) start start_fair in
    (
      last.lines,
      lines_from-scan (suc (size text)) text start (omega arith),
      scan_bounded (pieces is_separator text) start (omega arith),
      fair.right,
      fair.once,
      λ mail at.
          within-has_text mail last.seen (ready_mails last.lines) fair.ready_seen
            (within-has_text mail (all_mails last.lines) last.seen fair.read at),
    )
