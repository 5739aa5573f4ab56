-- ===== src/Enforcement.antt =====
-- Enforcement planning and evidence (crates/nopal-core/src/enforcement.rs).
pub mod Intent
pub mod Isolation
pub mod Profiles
pub mod Isolated
pub mod Unique
pub mod Usable
pub mod Durable
pub mod Required
pub mod Added
pub mod Complete
pub mod Same
pub mod Asked
pub mod World
pub mod Signature
pub mod Constant
pub mod Frames
pub mod Receipts
pub mod Plan
pub mod Evidence
pub mod Applied
pub mod Pending
pub mod Gated
pub mod Approved
pub mod Contract
pub mod Sources
pub mod Hashed
pub mod Secured
pub mod Executors
pub mod Closed
pub mod Denied
pub mod Outcomes
mod Samples
mod EvidenceSamples
mod DeniedSamples
pub mod Authorized
pub mod Strictest
