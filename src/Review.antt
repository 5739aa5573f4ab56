-- ===== src/Review.antt =====
-- The review policy of crates/nopal-core/src/review_policy.rs.
pub mod Types
pub mod Evaluate
pub mod Risk
pub mod FastPath
mod Samples
