-- ===== src/Core/Ids.antt =====
-- libs/pdr-core/src/core/types/ids.hpp: identifiers of a person, a practice and so on. The sixteen
-- bytes of an identifier are read as one number in base 256, the first byte the highest.
use pdr.Base.{ℕ, Bool, ◌==◌}

-- The tags that keep the identifiers apart.
pub data Tag : Type 0 where
  tenant_tag person_tag consent_tag token_tag session_tag consent_record_tag : Tag

pub record StrongId (tag : Tag) : Type 0 where
  pub value : ℕ

abbrev pub TenantId : Type 0
TenantId = StrongId tenant_tag

abbrev pub PersonId : Type 0
PersonId = StrongId person_tag

abbrev pub same_id : {tag : Tag} → StrongId tag → StrongId tag → Bool
same_id a b = a.value == b.value
