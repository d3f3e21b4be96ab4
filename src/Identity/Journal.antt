-- ===== src/Identity/Journal.antt =====
-- identity/core/access_record.cpp, identity/application/note_sensitive_access.cpp and
-- contract_service.cpp: the contract with the other contexts, and the journal of the views of
-- recordings. The journal is a port; here it is the list of the records written, the last one first.
pub mod Rows
pub mod Traces
use pdr.Base.{
  ◌≡◌, Bool, true, false, not, ◌&&◌, ◌||◌, List, [], ◌∷◌, Option, none, some, String, str_eq,
  if◌then◌else◌,
}
use pdr.Core.Errors.{Result, ok, err, refuse, validation}
use pdr.Core.Ids.{TenantId, PersonId, same_id}
use pdr.Core.Time.{Instant}
use pdr.Identity.Actions.{
  Action, view_lesson_recording, view_lesson_transcript, PolicyDecision, Resource,
}
use pdr.Identity.Policies.{Tie, about_me, in_my_care, same_tie}
use pdr.Identity.Policies.Table.{Table, decide}
use pdr.Identity.Subjects.{Ports, tie_for, subject_for}

pub data ResourceKind : Type 0 where
  recording transcript chat : ResourceKind

unfoldable pub kind_name : ResourceKind → String
kind_name recording = "recording"
kind_name transcript = "transcript"
kind_name chat = "chat"

unfoldable pub parse_resource_kind : String → Option ResourceKind
parse_resource_kind text =
    if str_eq text "recording"
    then some recording
    else if str_eq text "transcript"
    then some transcript
    else if str_eq text "chat"
    then some chat
    else none

pub data AccessOutcome : Type 0 where
  shown refused : AccessOutcome

unfoldable pub outcome_name : AccessOutcome → String
outcome_name shown = "shown"
outcome_name refused = "refused"

unfoldable pub parse_access_outcome : String → Option AccessOutcome
parse_access_outcome text =
    if str_eq text "shown" then some shown else if str_eq text "refused" then some refused else none

unfoldable pub journalled_kind : Action → Option ResourceKind
journalled_kind view_lesson_recording = some recording
journalled_kind view_lesson_transcript = some transcript
journalled_kind _ = none

pub record AccessRecord : Type 0 where
  pub tenant : TenantId
  pub actor : PersonId
  pub subject : PersonId
  pub kind : ResourceKind
  pub outcome : AccessOutcome
  pub at : Instant

unfoldable pub access_record :
    TenantId → PersonId → PersonId → ResourceKind → AccessOutcome → Instant → Result AccessRecord
access_record tenant actor subject kind outcome at =
    if same_id actor subject
    then refuse validation "access_log_self_view" "человек смотрит своё: следа тут не остаётся"
    else ok (record {
      tenant = tenant;
      actor = actor;
      subject = subject;
      kind = kind;
      outcome = outcome;
      at = at;
    })

abbrev pub Journal : Type 0
Journal = List AccessRecord

-- `log_.Record` where there is a record.
note : Result AccessRecord → Journal → Journal
note (ok r) journal = r ∷ journal
note (err e) journal = journal

-- `NoteSensitiveAccess::Execute`, less its result, which its caller drops.
unfoldable pub note_sensitive_access :
    TenantId → PersonId → PersonId → ResourceKind → AccessOutcome → Instant → Journal → Journal
unfolding access_record note
note_sensitive_access tenant actor subject kind outcome at journal =
    note (access_record tenant actor subject kind outcome at) journal

abbrev pub outcome_of : PolicyDecision → AccessOutcome
outcome_of decision = if decision.is_allowed then shown else refused

-- The journalling of `ContractService::Decide`.
journal_decision :
    Option ResourceKind
    → Option PersonId
    → TenantId
    → PersonId
    → AccessOutcome
    → Instant
    → Journal
    → Journal
unfolding note_sensitive_access
journal_decision (some kind) (some subject) tenant actor outcome at journal =
    if not (same_id subject actor)
    then note_sensitive_access tenant actor subject kind outcome at journal
    else journal
journal_decision _ _ tenant actor outcome at journal = journal

module _ (ports : Ports) (tenant : TenantId) where
  -- `ContractService::MayActFor`.
  unfoldable pub may_act_for : PersonId → PersonId → Bool
  may_act_for actor student =
      let tie =
        tie_for ports tenant actor
          (record { tenant = tenant; owner = none; subject = some student }) in
      same_tie tie about_me || same_tie tie in_my_care

  -- `ContractService::Decide`, with the faults that `PolicySet::Decide` reports. The moment is what
  -- the clock of `NoteSensitiveAccess` reads.
  unfoldable pub decide_for :
      Table
      → PersonId
      → Action
      → Resource
      → Instant
      → Journal
      → PolicyDecision × List Action × Journal
  unfolding journalled_kind journal_decision
  decide_for permissions actor action resource at journal =
      let answer = decide permissions (subject_for ports tenant actor resource) action resource in
      (
        answer.0,
        answer.1,
        journal_decision (journalled_kind action) resource.subject tenant actor
            (outcome_of answer.0) at journal,
      )
