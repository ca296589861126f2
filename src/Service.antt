-- ===== src/Service.antt =====
-- One supervised service and the manager that owns it (internals/overlord/servstate/handlers.go and
-- manager.go).
pub mod Data
pub mod Machine
pub mod Methods
pub mod Event
pub mod Diagram
pub mod Invariant
pub mod Backoff
pub mod Crashes
pub mod Stopping
mod Tests
