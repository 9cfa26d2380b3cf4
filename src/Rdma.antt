-- ===== src/Rdma.antt =====
-- crates/pegastore-rdma: registered memory, descriptors, pending sessions, batches, the choice of NICs and the
-- resolution of transfers, NUMA nodes.
pub mod Regions
pub mod Engine
pub mod Sessions
pub mod Numa
pub mod Batch
pub mod Nics
pub mod Transfers
