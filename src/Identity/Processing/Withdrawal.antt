-- ===== src/Identity/Processing/Withdrawal.antt =====
-- consent.cpp: a consent to processing, from the day it is given to its withdrawal.
use pdr.Base.{◌≡◌, refl, true, false, some, arith}
use pdr.Core.Errors.{ok, refuse, conflict}
use pdr.Core.Ids.{StrongId, consent_record_tag, TenantId, PersonId}
use pdr.Core.Time.{Instant, before}
use pdr.Identity.Processing.{
  ConsentKind, ConsentAction, PolicyVersion, ConsentRecord, give, withdraw, is_live_at,
}

-- A consent that was given is live until it is withdrawn. The withdrawal, at any moment not before
-- the consent, ends it exactly from that moment on, leaves the time before as it was, and is not
-- repeated.
pub withdraw-is_live_at :
    (id : StrongId consent_record_tag) (tenant : TenantId) (subject given_by : PersonId)
    (kind : ConsentKind) (version : PolicyVersion) (action : ConsentAction) (given_at at : Instant)
    (c : ConsentRecord)
    → give id tenant subject given_by kind version action given_at ≡ ok c
    → before at given_at ≡ false
    → ((moment : Instant) → is_live_at c moment ≡ true)
      × ((d : ConsentRecord) × (withdraw c at ≡ ok d)
          × ((moment : Instant) → is_live_at d moment ≡ before moment at)
          × (d.kind ≡ kind)
          × (d.version ≡ version)
          × ((again : Instant)
              → withdraw d again
                ≡ refuse conflict "consent_already_withdrawn" "это согласие отозвали раньше"))
unfolding give withdraw is_live_at
withdraw-is_live_at id tenant subject given_by kind version action given_at at c given ordered = (
  λ moment. ground arith,
  (
    record c { withdrawn_at = some at },
    ground arith,
    λ moment. ground arith,
    ground arith,
    ground arith,
    λ again. refl,
  ),
)
