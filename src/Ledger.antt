-- ===== src/Ledger.antt =====
-- The package `ledger` (python/core/src/goderash_core/ledger): the hash chain, the append-only
-- store, and the upcaster registry.
pub mod Chain
pub mod Store
pub mod Upcast
