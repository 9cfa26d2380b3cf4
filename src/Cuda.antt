-- ===== src/Cuda.antt =====
-- crates/pegastore-cuda: the pinned host pools and the topology.
pub mod Pinned
pub mod Topology
