-- ===== src/Examples.antt =====
-- The theorems applied to concrete people, consents, jobs and amounts.
pub mod People
mod Policies
mod Guardians
mod Ages
mod Lifecycles
mod Entrance
mod Jobs
mod Money
mod Http
mod Care
mod Signing
mod Texts
mod Starting
mod Telling
