-- ===== src/Http.antt =====
-- libs/pdr-http: how a request comes to a use case and how its answer goes back.
pub mod Keys
pub mod Problems
pub mod Store
pub mod Handler
