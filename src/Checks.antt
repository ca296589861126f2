-- ===== src/Checks.antt =====
-- Health checks (internals/overlord/checkstate/handlers.go, manager.go and request.go).
pub mod Data
pub mod Runs
pub mod History
pub mod Tests
