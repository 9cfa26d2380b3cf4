-- ===== src/Local.antt =====
-- crates/pegastore-cuda/src/local.rs: the single-node backend over pinned pools and GPUs.
pub mod Copy
pub mod State
pub mod Engines
pub mod Evict
pub mod Targets
pub mod Put
pub mod Get
pub mod Access
pub mod Sound
pub mod Writes
pub mod Claims
