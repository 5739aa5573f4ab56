-- ===== src/Gates/Document.antt =====
-- The validator of gates documents in crates/nopal-core/src/gates.rs.
pub mod Fields
pub mod Placeholders
pub mod Entries
pub mod Sets
pub mod Scaffold
pub mod Validate
pub mod Unique
pub mod Closed
pub mod Detected
mod Samples
