-- ===== src/Core.antt =====
-- libs/pdr-core/src/core: errors, money, identifiers, time.
pub mod Errors
pub mod Money
pub mod Ids
pub mod Time
pub mod Secrets
pub mod Uuid
pub mod Zones
