-- ===== src/Identity/Entrance.antt =====
-- How people sign in, change their passwords and come into a practice: the settings, the tables that
-- the adapters of identity/infrastructure/auth keep, and the use cases over them.
pub mod Arrivals
pub mod Passwords
pub mod Settings
pub mod SessionStore
pub mod TokenStore
pub mod AttemptStore
pub mod PeopleStore
pub mod Tables
pub mod SignIn
pub mod Resets
pub mod Joining
pub mod Inviting
pub mod Opening
pub mod Signup
