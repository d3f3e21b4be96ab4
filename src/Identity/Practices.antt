-- ===== src/Identity/Practices.antt =====
-- identity/core/practice.hpp and practice.cpp: the publication of a practice.
pub mod Publication
pub mod Reviews
pub mod Store
use pdr.Base.{
  ◌≡◌, ℕ, Bool, not, List, [], ◌∷◌, Option, none, some, String, find_named, ◌==◌, if◌then◌else◌,
}
use pdr.Core.Errors.{Result, ok, err, refuse, conflict}
use pdr.Core.Ids.{TenantId}
use pdr.Core.Time.{Instant}

pub data Visibility : Type 0 where
  hidden pending published refused boundary : Visibility

unfoldable pub visibility_name : Visibility → String
visibility_name hidden = "hidden"
visibility_name pending = "pending"
visibility_name published = "published"
visibility_name refused = "refused"
visibility_name Visibility.boundary = "boundary"

abbrev pub every_visibility : List Visibility
every_visibility = hidden ∷ pending ∷ published ∷ refused ∷ []

unfoldable pub parse_visibility : String → Option Visibility
unfolding visibility_name find_named
parse_visibility text = find_named visibility_name every_visibility text

abbrev index : Visibility → ℕ
index hidden = 0
index pending = 1
index published = 2
index refused = 3
index Visibility.boundary = 4

abbrev pub same_visibility : Visibility → Visibility → Bool
same_visibility a b = index a == index b

pub data RefusalReason : Type 0 where
  nothing_to_show looks_borrowed calls_away boundary : RefusalReason

unfoldable pub refusal_name : RefusalReason → String
refusal_name nothing_to_show = "nothing_to_show"
refusal_name looks_borrowed = "looks_borrowed"
refusal_name calls_away = "calls_away"
refusal_name RefusalReason.boundary = "boundary"

abbrev pub every_refusal_reason : List RefusalReason
every_refusal_reason = nothing_to_show ∷ looks_borrowed ∷ calls_away ∷ []

unfoldable pub parse_refusal_reason : String → Option RefusalReason
unfolding refusal_name find_named
parse_refusal_reason text = find_named refusal_name every_refusal_reason text

pub record Practice : Type 0 where
  pub tenant : TenantId
  pub visibility : Visibility
  pub opened_at : Instant
  pub asked_at : Option Instant
  pub decided_at : Option Instant
  pub refusal : Option RefusalReason

unfoldable pub opened : TenantId → Instant → Practice
opened tenant at = record {
  tenant = tenant;
  visibility = hidden;
  opened_at = at;
  asked_at = none;
  decided_at = none;
  refusal = none;
}

unfoldable pub is_discoverable : Practice → Bool
is_discoverable p = same_visibility p.visibility published

unfoldable pub asked_to_publish : Practice → Instant → Result Practice
asked_to_publish p at =
    if same_visibility p.visibility pending
    then refuse conflict "practice_already_awaits_review" "заявка на публикацию уже в очереди"
    else if same_visibility p.visibility published
    then refuse conflict "practice_already_published" "практика уже опубликована"
    else ok
        (record p { visibility = pending; asked_at = some at; decided_at = none; refusal = none })

unfoldable pub publish : Practice → Instant → Result Practice
publish p at =
    if not (same_visibility p.visibility pending)
    then refuse conflict "practice_decision_without_request"
        "решение о публикации принято по практике, которая о ней не просила"
    else ok (record p { visibility = published; decided_at = some at; refusal = none })

unfoldable pub refused_because : Practice → RefusalReason → Instant → Result Practice
refused_because p reason at =
    if not (same_visibility p.visibility pending)
    then refuse conflict "practice_decision_without_request"
        "решение о публикации принято по практике, которая о ней не просила"
    else ok (record p { visibility = refused; decided_at = some at; refusal = some reason })

unfoldable pub hide : Practice → Instant → Practice
hide p at = record p { visibility = hidden; decided_at = some at; refusal = none }
