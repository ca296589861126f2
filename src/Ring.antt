-- ===== src/Ring.antt =====
-- The ring buffer that holds a service's output (internals/servicelog/ringbuffer.go and iterator.go).
pub mod Data
pub mod Slices
pub mod Window
pub mod Writing
pub mod Reading
pub mod Lines
pub mod Replay
pub mod Iterator
pub mod Following
mod Tests
