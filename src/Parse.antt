-- ===== src/Parse.antt =====
-- The validator of policy documents in crates/nopal-core/src/policy.rs.
pub mod Lists
pub mod Rules
pub mod Modes
pub mod Distinct
pub mod Keys
pub mod Reported
pub mod Effective
pub mod Useful
pub mod Sound
mod Samples
