-- ===== src/Identities.antt =====
-- The identities of clients (internals/overlord/identities/identities.go).
pub mod Data
pub mod Manager
pub mod Lookup
pub mod Keeping
pub mod Requests
pub mod Matching
pub mod Tests
