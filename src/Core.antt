-- ===== src/Core.antt =====
-- crates/pegastore/src: errors, the vocabulary, registered memory, operation arguments.
pub mod Error
pub mod Types
pub mod Region
pub mod Ops
