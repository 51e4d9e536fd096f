-- ===== src/FrontierLab.antt =====
-- labs/20260923.1.the-gang-builds-the-rust-frontier-engine: the frontier engine in memory.
pub mod Types
pub mod Storage
pub mod Journal
pub mod Step
pub mod Maps
pub mod Source
pub mod Propagate
pub mod Apply
pub mod Scopes
pub mod Install
pub mod Snapshot
pub mod Tests
