-- ===== src/Diagnostics.antt =====
-- Diagnostics of crates/nopal-core/src/diagnostics.rs: codes, records and their report order.
pub mod Codes
pub mod Distinct
pub mod Report
pub mod Order
pub mod Sorted
pub mod Errors
pub mod Said
mod Samples
