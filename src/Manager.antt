-- ===== src/Manager.antt =====
-- The manager of the running services (backend/src/manager).
pub mod Health
pub mod Sync
pub mod Consistent
pub mod Preserved
pub mod Recorded
pub mod DirectErrors
pub mod Updates
pub mod Reported
mod Samples
