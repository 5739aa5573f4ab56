-- ===== src/Config.antt =====
-- Manifests and their dialect of JSON (crates/nopal-core/src/config.rs).
pub mod Commas
pub mod Trees
pub mod Strict
pub mod Modules
pub mod Manifest
pub mod Required
mod Samples
