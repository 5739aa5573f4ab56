-- ===== src/Policy.antt =====
-- nopal.policy/v1 (crates/nopal-core/src/policy.rs): the vocabulary and its safety lattices, the
-- document, the evaluation of one action, and the report of a policy command.
pub mod Vocabulary
pub mod Doc
pub mod Classes
pub mod Evaluate
pub mod Floors
pub mod Verdicts
pub mod Rules
pub mod Membership
pub mod Explained
pub mod Sameness
pub mod Monotone
mod Samples
