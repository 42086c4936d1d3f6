-- ===== src/Dependencies.antt =====
-- Dependencies between packages (backend/src/dependencies.rs).
pub mod Errors
pub mod Store
pub mod Heal
pub mod Break
pub mod HealAll
pub mod Agrees
pub mod Preserved
pub mod SameButErrors
pub mod Samples
