-- ===== src/Config/Spec.antt =====
-- The specifications of configuration values (backend/src/config/spec.rs).
pub mod Syntax
pub mod Errors
pub mod Eq
pub mod Matches
pub mod Validate
pub mod Pointers
pub mod Targets
pub mod Fold
pub mod Live
pub mod Lists
pub mod Text
pub mod Patterns
pub mod Gen
pub mod Fill
pub mod Made
pub mod MadeLists
pub mod MadeStrings
pub mod Agree
pub mod Defaults
pub mod DefaultTexts
pub mod Tagged
pub mod Generates
pub mod Samples
mod GenSamples
