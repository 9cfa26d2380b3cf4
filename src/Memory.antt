-- ===== src/Memory.antt =====
-- crates/pegastore/src/services/memory.rs: the in-process reference backend.
pub mod State
pub mod Evict
pub mod Place
pub mod Put
pub mod Get
pub mod Lifecycle
pub mod Build
pub mod Measure
pub mod Sound
pub mod Eviction
pub mod Room
