-- ===== src/LedgerJson.antt =====
-- The values of the run ledger: crates/nopal-ledger-json/src/lib.rs reads them, and the writer in
-- crates/nopal-core/src/run_ledger.rs prints them.
pub mod Value
pub mod Scan
pub mod Parser
pub mod Writer
pub mod Lexemes
pub mod Literals
pub mod Escapes
pub mod Order
pub mod Layout
pub mod Reads
pub mod Weights
pub mod RoundTrip
pub mod Lengths
pub mod Settles
pub mod Fuel
pub mod Cut
pub mod Scalars
pub mod Sorted
pub mod Stable
mod Samples
