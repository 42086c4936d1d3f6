-- ===== src/Dependencies/HealAll.antt =====
-- How a healed dependency clears the errors of the packages above it (backend/src/dependencies.rs).
mod Defs
pub mod Cleared
mod Fails
pub mod Ends
pub mod Keeps
unfoldable pub use Defs.*
