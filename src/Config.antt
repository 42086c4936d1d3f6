-- ===== src/Config.antt =====
-- Configuration values and their checks (backend/src/config).
pub mod Json
pub mod Spec
pub mod CharSet
pub mod NumRange
pub mod UniqueBy
pub mod Merge
