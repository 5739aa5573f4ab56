-- ===== src/Selection.antt =====
-- Gate selection (crates/nopal-core/src/selection.rs).
pub mod Types
pub mod Globs
pub mod Pull
pub mod Select
pub mod Pulled
pub mod Scanned
pub mod Partition
pub mod Cover
pub mod Chosen
pub mod Validated
pub mod Samples
