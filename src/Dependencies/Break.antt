-- ===== src/Dependencies/Break.antt =====
-- How an error of a dependency spreads to the packages above it (backend/src/dependencies.rs).
mod Defs
pub mod Recorded
pub mod Ends
pub mod Visits
pub mod Spreads
unfoldable pub use Defs.*
