-- ===== src/Identity/Journal/Traces.antt =====
-- contract_service.cpp: which decisions leave a trace, and for whom somebody may act.
use pdr.Base.{◌≡◌, refl, false, ◌&&◌, ◌||◌, List, [], ◌∷◌, Option, has_value, All, arith}
use pdr.Core.Ids.{TenantId, PersonId, same_id}
use pdr.Core.Time.{Instant}
use pdr.Identity.Consents.{GuardianConsent, named_by_the_student_himself, is_active_at}
use pdr.Identity.Access.Weigh.{some_consent}
use pdr.Identity.Policies.{tie_between}
use pdr.Identity.Policies.Table.{Table}
use pdr.Identity.Subjects.{Ports, tie_for, looks_after, watches}
use pdr.Identity.Journal.{
  ResourceKind, AccessRecord, Journal, journal_decision, AccessOutcome, may_act_for,
}

-- No record of the journal is about a view of one's own.
abbrev pub AreOfOthers : Journal → Type 0
AreOfOthers journal = All (λ r. same_id r.actor r.subject ≡ false) journal

module _ (tenant : TenantId) (actor : PersonId) (outcome : AccessOutcome) (at : Instant)
    (journal : Journal) where
  -- The journal after a decision with this kind of view and this student.
  abbrev after : Option ResourceKind → Option PersonId → Journal
  after kind subject = journal_decision kind subject tenant actor outcome at journal

  -- The record that a view leaves.
  abbrev trace : ResourceKind → PersonId → AccessRecord
  trace kind subject = record {
    tenant = tenant;
    actor = actor;
    subject = subject;
    kind = kind;
    outcome = outcome;
    at = at;
  }

watches-some_consent :
    (now : Instant) (cs : List GuardianConsent)
    → watches now cs
      ≡ some_consent (λ c. named_by_the_student_himself c.basis && is_active_at c now) cs
unfolding watches
watches-some_consent now [] = refl
watches-some_consent now (c ∷ cs) = ground (arith, watches-some_consent now cs)

-- Somebody may act for a student exactly when he is the student, his guardian by a guardianship in
-- force, or holds a consent that the student named him in and that is in force.
pub may_act_for_lem :
    (ports : Ports) (tenant : TenantId) (actor student : PersonId)
    → may_act_for ports tenant actor student
      ≡ same_id student actor
        || (has_value (ports.find_active tenant actor student)
            || some_consent
                (λ c. named_by_the_student_himself c.basis && is_active_at c ports.now_looking)
                (ports.active_for tenant actor student))
unfolding may_act_for tie_for looks_after tie_between
may_act_for_lem ports tenant actor student =
    ground (arith, watches-some_consent ports.now_looking (ports.active_for tenant actor student))
