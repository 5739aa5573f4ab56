-- ===== src/Ledger.antt =====
-- The run ledger of crates/nopal-core/src/run_ledger.rs, and how run_ledger_store.rs replays it.
pub mod Lifecycle
pub mod Replay
pub mod Histories
pub mod Journals
pub mod Names
pub mod Slugs
pub mod Dates
mod Samples
