-- ===== src/Runner.antt =====
-- The runner of tasks (internals/overlord/state/taskrunner.go).
pub mod Data
pub mod Finish
pub mod Ensure
pub mod Standing
pub mod Failing
pub mod Outcome
pub mod Order
pub mod Safety
pub mod Passes
mod Tests
