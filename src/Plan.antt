-- ===== src/Plan.antt =====
-- The plan: layers of configuration and the order of services (internals/plan).
pub mod Data
pub mod Merge
pub mod Grouping
pub mod Combine
pub mod Overlay
pub mod Layers
pub mod Refusals
pub mod Order
pub mod Chosen
pub mod Pulled
pub mod Gathered
pub mod Links
pub mod Sorting
pub mod Sequence
pub mod Lanes
pub mod Rows
pub mod Placing
pub mod Tests
pub mod LayerTests
pub mod Command
pub mod Groups
pub mod CommandTests
pub mod Validate
pub mod Checked
pub mod Runnable
pub mod Logs
pub mod ValidateTests
