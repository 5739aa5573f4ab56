-- ===== src/PolicyReport.antt =====
-- The policy commands of crates/nopal-core/src/policy.rs, from the module's text to the report.
pub mod Run
pub mod Closed
mod Samples
