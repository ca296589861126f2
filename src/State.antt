-- ===== src/State.antt =====
-- Changes and their tasks (internals/overlord/state).
pub mod Status
pub mod Data
pub mod Waiting
pub mod Aggregate
pub mod Readiness
pub mod Searching
pub mod Totality
pub mod Store
pub mod Abort
pub mod Settled
pub mod Sound
pub mod Building
mod Tests
