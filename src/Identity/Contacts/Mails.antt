-- ===== src/Identity/Contacts/Mails.antt =====
-- contact_list.cpp: lists of mails, and which mails of a list are ready.
use pdr.Base.{
  ◌≡◌, refl, ap, Bool, true, false, not, ◌&&◌, ◌||◌, List, [], ◌∷◌, ◌++◌, none, some, String,
  str_eq, str_eq_iff, arith, Bool-cases, inl, inr, if◌then◌else◌,
}
use pdr.Identity.Contacts.{Contact, is_ready, has_text}

-- The mails of the lines that would be sent to, and all the mails that were read.
abbrev pub ready_mails : List Contact → List String
ready_mails [] = []
ready_mails (line ∷ lines) = elim line.mail [
  | none ↦ ready_mails lines
  | some mail ↦ if is_ready line.verdict then mail.value ∷ ready_mails lines else ready_mails lines
]

abbrev pub all_mails : List Contact → List String
all_mails [] = []
all_mails (line ∷ lines) = elim line.mail [
  | none ↦ all_mails lines
  | some mail ↦ mail.value ∷ all_mails lines
]

abbrev pub within : List String → List String → Bool
within [] ys = true
within (x ∷ xs) ys = has_text x ys && within xs ys

abbrev pub distinct : List String → Bool
distinct [] = true
distinct (x ∷ xs) = not (has_text x xs) && distinct xs

pub has_text-append :
    (t : String) (xs : List String) (m : String)
    → has_text t (xs ++ m ∷ []) ≡ has_text t xs || str_eq m t
has_text-append t [] m = ground arith
has_text-append t (x ∷ xs) m = ground (arith, has_text-append t xs m)

has_text_same :
    (a b : String) (xs : List String) → str_eq a b ≡ true → has_text a xs ≡ has_text b xs
has_text_same a b xs h = ap (λ t. has_text t xs) ((str_eq_iff a b).0 h)

pub within-has_text :
    (t : String) (xs ys : List String)
    → within xs ys ≡ true
    → has_text t xs ≡ true
    → has_text t ys ≡ true
within-has_text t [] ys h at = absurd (ground (arith, at))
within-has_text t (x ∷ xs) ys h at = elim (Bool-cases (str_eq x t)) [
  | inl here ↦ ground (arith, h, has_text_same x t ys here)
  | inr there ↦ within-has_text t xs ys (ground (arith, h)) (ground (arith, at, there))
]

pub within-cons :
    (m : String) (xs ys : List String) → within xs ys ≡ true → within xs (m ∷ ys) ≡ true
within-cons m [] ys h = refl
within-cons m (x ∷ xs) ys h = ground (arith, h, within-cons m xs ys)

pub within-snoc :
    (m : String) (xs ys : List String) → within xs ys ≡ true → within xs (ys ++ m ∷ []) ≡ true
within-snoc m [] ys h = refl
within-snoc m (x ∷ xs) ys h = ground (arith, h, within-snoc m xs ys, has_text-append x ys m)

pub within-append :
    (m : String) (xs ys : List String)
    → within xs ys ≡ true
    → has_text m ys ≡ true
    → within (xs ++ m ∷ []) ys ≡ true
within-append m [] ys h at = ground (arith, at)
within-append m (x ∷ xs) ys h at = ground (arith, h, within-append m xs ys)

pub distinct-append :
    (m : String) (xs : List String)
    → distinct xs ≡ true
    → has_text m xs ≡ false
    → distinct (xs ++ m ∷ []) ≡ true
distinct-append m [] h new = refl
distinct-append m (x ∷ xs) h new =
    ground
      (arith, h, new, distinct-append m xs, has_text-append x xs m, str_eq_iff m x, str_eq_iff x m)
