-- ===== src/S9pk.antt =====
-- The s9pk package format (backend/src/s9pk): the fixed-size header with its table of contents, the
-- packer that writes a package, and the reader that opens it and hands out its sections.
pub mod Bytes
pub mod Crypto
pub mod Header
pub mod Pack
pub mod Reader
mod Samples
