-- ===== src/Identity.antt =====
-- libs/pdr-identity: who may do what, and from what the right follows.
pub mod Roles
pub mod Scopes
pub mod Abilities
pub mod Actions
pub mod Guardianship
pub mod Consents
pub mod Access
pub mod Calendar
pub mod Ages
pub mod Policies
pub mod Subjects
pub mod Practices
pub mod Throttle
pub mod Tokens
pub mod Sessions
pub mod Accounts
pub mod Journal
pub mod Processing
pub mod Entrance
pub mod Contacts
pub mod Care
