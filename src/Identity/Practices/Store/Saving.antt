-- ===== src/Identity/Practices/Store/Saving.antt =====
-- postgres_practices.cpp: a practice that is saved is found as it was saved, and the others as before.
use pdr.Base.{
  ◌≡◌, refl, ap, sym, ◌∙◌, Bool, true, false, ◌&&◌, List, [], ◌∷◌, Option, none, some, String,
  arith, if◌then◌else◌, Bool-cases, Option-cases, inl, inr, subst, ==_iff,
}
use pdr.Core.Ids.{TenantId, same_id}
use pdr.Identity.Practices.{
  Visibility, hidden, pending, published, refused, visibility_name, parse_visibility, RefusalReason,
  nothing_to_show, looks_borrowed, calls_away, refusal_name, parse_refusal_reason, Practice,
}
use pdr.Identity.Practices.Store.{
  PracticeRow, Found, absent, broken, there, with_refusal, read_refusal, read_visibility, read_row,
  find_practice, reason_text, updated, save_practice,
}

abbrev pub is_real_reason : RefusalReason → Bool
is_real_reason RefusalReason.boundary = false
is_real_reason _ = true

abbrev is_real_refusal : Option RefusalReason → Bool
is_real_refusal none = true
is_real_refusal (some reason) = is_real_reason reason

abbrev is_real_visibility : Visibility → Bool
is_real_visibility Visibility.boundary = false
is_real_visibility _ = true

abbrev pub is_real : Practice → Bool
is_real p = is_real_visibility p.visibility && is_real_refusal p.refusal

visibility_kept :
    (v : Visibility) → is_real_visibility v ≡ true → parse_visibility (visibility_name v) ≡ some v
unfolding parse_visibility visibility_name
visibility_kept hidden h = refl
visibility_kept pending h = refl
visibility_kept published h = refl
visibility_kept refused h = refl
visibility_kept Visibility.boundary h = absurd (ground (arith, h))

reason_kept :
    (r : RefusalReason) → is_real_reason r ≡ true → parse_refusal_reason (refusal_name r) ≡ some r
unfolding parse_refusal_reason refusal_name
reason_kept nothing_to_show h = refl
reason_kept looks_borrowed h = refl
reason_kept calls_away h = refl
reason_kept RefusalReason.boundary h = absurd (ground (arith, h))

refusal_kept :
    (row : PracticeRow) (v : Visibility) (refusal : Option RefusalReason)
    → is_real_refusal refusal ≡ true
    → read_refusal row v (reason_text refusal) ≡ there (with_refusal row v refusal)
unfolding read_refusal reason_text
refusal_kept row v none h = refl
refusal_kept row v (some reason) h = rw (reason_kept reason h) refl

read_row-updated :
    (p : Practice) (row : PracticeRow)
    → is_real p ≡ true
    → row.tenant_id ≡ p.tenant
    → row.created_at ≡ p.opened_at
    → read_row (updated p row) ≡ there p
unfolding read_row updated read_visibility with_refusal
read_row-updated p row real same since = rw (visibility_kept p.visibility (ground (arith, real))) (
    refusal_kept (updated p row) p.visibility p.refusal (ground (arith, real)) ∙ λ i.
    there (record p { tenant = same i; opened_at = since i }))

-- The key of what is read from a row, and its opening, are those of the row.
abbrev IsOf : PracticeRow → Found → Type 0
IsOf row (there q) = (row.tenant_id ≡ q.tenant) × (row.created_at ≡ q.opened_at)
IsOf row absent = true ≡ true
IsOf row broken = true ≡ true

read_refusal-IsOf :
    (row : PracticeRow) (v : Visibility) (text : Option String) → IsOf row (read_refusal row v text)
unfolding read_refusal with_refusal
read_refusal-IsOf row v none = (refl, refl)
read_refusal-IsOf row v (some text) = elim (Option-cases (parse_refusal_reason text)) [
  | inl missing ↦ rw missing refl
  | inr (reason, given) ↦ rw given (refl, refl)
]

read_row-IsOf : (row : PracticeRow) → IsOf row (read_row row)
unfolding read_row read_visibility
read_row-IsOf row = elim (Option-cases (parse_visibility row.visibility)) [
  | inl missing ↦ rw missing refl
  | inr (v, given) ↦ rw given (read_refusal-IsOf row v row.refusal)
]

row_of :
    (row : PracticeRow) {q : Practice}
    → read_row row ≡ there q
    → (row.tenant_id ≡ q.tenant) × (row.created_at ≡ q.opened_at)
row_of row h = subst (λ f. IsOf row f) h (read_row-IsOf row)

pub same_tenant : (a b : TenantId) → same_id a b ≡ true → a ≡ b
same_tenant a b h = ap (λ n. record { value = n }) (ground (arith, ==_iff a.value b.value, h))

pub find_practice-IsOf :
    (tenant : TenantId) (rows : List PracticeRow) {q : Practice}
    → find_practice tenant rows ≡ there q
    → q.tenant ≡ tenant
unfolding find_practice
find_practice-IsOf tenant [] h = absurd (ground (arith, h))
find_practice-IsOf tenant (row ∷ rows) {q} h = elim (Bool-cases (same_id row.tenant_id tenant)) [
  | inl here ↦ sym (row_of row (rw here at h)).0 ∙ same_tenant row.tenant_id tenant here
  | inr on ↦ find_practice-IsOf tenant rows (rw on at h)
]

pub find_practice-save_practice :
    (p q : Practice) (rows : List PracticeRow)
    → find_practice p.tenant rows ≡ there q
    → is_real p ≡ true
    → q.opened_at ≡ p.opened_at
    → find_practice p.tenant (save_practice p rows) ≡ there p
unfolding find_practice save_practice updated
find_practice-save_practice p q [] h real since = absurd (ground (arith, h))
find_practice-save_practice p q (row ∷ rows) h real since =
    elim (Bool-cases (same_id row.tenant_id p.tenant)) [
      | inl here ↦
          rw (here, here)
            (read_row-updated p row real (same_tenant row.tenant_id p.tenant here)
              ((row_of row (rw here at h)).1 ∙ since))
      | inr on ↦ rw (on, on) (find_practice-save_practice p q rows (rw on at h) real since)
    ]

pub find_practice-save_practice_other :
    (p : Practice) (tenant : TenantId) (rows : List PracticeRow)
    → same_id p.tenant tenant ≡ false
    → find_practice tenant (save_practice p rows) ≡ find_practice tenant rows
unfolding find_practice save_practice updated
find_practice-save_practice_other p tenant [] h = refl
find_practice-save_practice_other p tenant (row ∷ rows) h =
    let later = find_practice-save_practice_other p tenant rows h in
    elim (Bool-cases (same_id row.tenant_id p.tenant)) [
      | inl here ↦
          let apart : same_id row.tenant_id tenant ≡ false =
            rw (same_tenant row.tenant_id p.tenant here) h in
          rw (here, apart) later
      | inr on ↦ rw on (ap (λ f. if same_id row.tenant_id tenant then read_row row else f) later)
    ]
