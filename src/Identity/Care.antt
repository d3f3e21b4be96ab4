-- ===== src/Identity/Care.antt =====
-- How the access of the guardians is given, taken and announced: the table of the consents, the use
-- cases over it, and the events that they publish.
pub mod Scopes
pub mod Notices
