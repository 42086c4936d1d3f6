-- ===== src/Version.antt =====
-- The versions of the server and the migrations between them (backend/src/version).
pub mod Store
pub mod Chain
pub mod Migrate
pub mod Init
pub mod Later
pub mod Reaches
pub mod Rollback
pub mod Current
mod Samples
