-- ===== src/Rules.antt =====
-- The rules of src/config of system-images/compat: conditions on configurations in a language of
-- their own, and what a suggestion changes where a rule fails. A rule is modelled from the tree that
-- the parser pest gives for it.
pub mod Returns
pub mod VarRes
pub mod Syntax
pub mod Elements
pub mod Text
pub mod Eval
pub mod Samples
pub mod ChangeSamples
pub mod CommandSamples
pub mod Assign
pub mod Actions
pub mod Suggest
pub mod Configure
