-- ===== src/Lib.antt =====
-- pegastore: an object store over device pools, with the part of it that decides what is stored where.
--
-- A client talks to a `Store`, which checks each request against the capability of a backend and
-- hands it on. A backend keeps objects of write-once slots; each slot has replicas, whose bytes are
-- counted in the pool of their device. A put gathers bytes from registered memory and places them,
-- evicting cached objects first in first out; a get scatters the bytes of the nearest replica.
--
-- The files, and the code that they model (paths from the root of the repository):
--   Prelude          tests, lists, runs that may panic, orders, and maps as ascending lists
--   Core/Types       crates/pegastore/src/types.rs: keys, devices, specs, capabilities
--   Core/Error       crates/pegastore/src/error.rs
--   Core/Region      crates/pegastore/src/region.rs: regions, segments, bounds
--   Core/Ops         crates/pegastore/src/ops.rs: arguments, replies, validation
--   Memory/State     crates/pegastore/src/services/memory.rs: the records, distance, charge, release
--   Memory/Evict     the same file: State::make_room
--   Memory/Place     the same file: the candidate loop of put, gather
--   Memory/Put       the same file: put
--   Memory/Get       the same file: get, scatter, ReplicaData::read
--   Memory/Lifecycle the same file: register, publish, stat, remove, remove_prefix, RegionGuard
--   Memory/Build     the same file: MemoryBuilder
--   Store            crates/pegastore/src/store.rs and the traits of access.rs
--   Cuda/Pinned      crates/pegastore-cuda/src/pinned.rs: the free list of a pinned pool
--   Cuda/Topology    crates/pegastore-cuda/src/topology.rs: the distance
--   Local/State      crates/pegastore-cuda/src/local.rs: the data, and references to pinned bytes
--   Local/Copy       the same file: Seg, iov_segs, zip_copy
--   Local/Engines    the same file: Inner::copy, Inner::gpu
--   Local/Evict      the same file: Inner::alloc_or_evict
--   Local/Targets    the same file: phase 1 of put, which claims slots, and the targets of put_slot
--   Local/Put        the same file: put, put_slot
--   Local/Get        the same file: get
--   Local/Access     the same file: register, publish, stat, remove, remove_prefix, pool_stats
--   Rdma/Regions     crates/pegastore-rdma/src/rc_backend/state.rs: LocalMemoryMap
--   Rdma/Engine      crates/pegastore-rdma/src/engine.rs: descriptors and their wire form
--   Rdma/Sessions    the rest of rc_backend/state.rs: pending sessions, connections
--   Rdma/Batch       rc_backend/session.rs: RcSession::execute_batch, post_rdma_wr_chain
--   Rdma/Nics        rc_backend/mod.rs and runtime.rs: NicGroup, NumaRoundRobin
--   Rdma/Transfers   rc_backend/mod.rs: the loop over the descriptors in batch_transfer_async
--   Rdma/Numa        crates/pegastore-rdma/src/numa.rs: nodes, and queries of a topology
--   Tests            small backends, and the theorems applied to them: Backend and Parts, Local for
--                    the CUDA backend, Batches for the window of the RDMA sessions
-- Memory/Measure, Sound, Eviction and Room, and the children of Put, Get, Lifecycle and Build hold
-- the proofs; so do Core/Ops/Validation, Store/Checks, and the children of Pinned, Regions, Engine,
-- Batch, Nics, Transfers and Numa. For local.rs, Local/Sound has the invariant, Local/Writes what an object written
-- back needs, Local/Claims the phases of puts as steps, and the children of Copy, Evict, Put, Get
-- and Claims the proofs. The copy theorems (Copy/Transfer) carry those of get and put; those of
-- alloc_or_evict (Evict/Until) and of the steps (Claims/Steps) carry those of put (Put/Whole).
--
-- How the code is read. A call of the memory backend holds its mutex from its first read of the state to
-- its last write, so a call is one step; a future runs to its end. A `BTreeMap` is a list by
-- ascending key and a `HashMap` a function into `Option`; keys are byte lists. The memory of the
-- process is a function from addresses to bytes. `Run` has a value or is a panic: an `unwrap` of
-- `None`, an index or a slice out of range, an underflow of `used`. Loops are recursions on the list
-- that they go through, the eviction loop of the memory backend on its queue.
--
-- Four loops are on fuel. `zip_copy` has one unit for each segment of both lists and one more: each
-- turn ends a segment. `alloc_or_evict` has one more than the queue has entries: each turn but the
-- last takes an entry away. The chain of a batch has one unit for each operation left. The outer
-- loop of a batch waits for the hardware, so its fuel is an argument, and `none` is a loop that is
-- still waiting.
--
-- The single-node backend of local.rs gives up its lock between the phases of a put and during the
-- copy of a get. Claim, placement with its evictions, store and unclaim are therefore steps, and
-- the steps of several puts interleave. Its `Arc` is a list of readers: a buffer goes back to its
-- pool when no slot and no reader holds it. A CUDA call acts on a world and may fail; a verbs call
-- likewise. What a queue pair does to serve its requests is a hypothesis, in Rdma/Batch/Serving.
-- So is what the codec of the wire form does with bytes that follow a value, in Rdma/Engine/Wire.
--
-- `checked_add` and `saturating_add` are those of 64 bits; additions to `used` are exact, since they
-- count bytes that are in memory. Pointers wrap at 64 bits. A context value of an error is kept unrendered.
--
-- The invariant `IsSound` of Memory/Sound: keys ascend; slots go with their specs and every replica
-- has the length of its slot; `used` of each pool is exactly the owned bytes on its device; and a
-- queue entry whose key is present names one of its slots. The last part can fail in the code after
-- a remove and a put of the same key with fewer slots, since a remove leaves queue entries behind;
-- `CanReserve` of Memory/Put/Total rules that out.
--
-- `IsSound` of Local/Sound is the like for local.rs, without the counts, and `CanHold` of
-- Local/Writes rules the stale queue entries out.
--
-- Not modelled: text of Display and Debug, logging, sysfs, the CUDA driver, the verbs library,
-- threads, get_many, LocalBuilder, the worker and the connection of an RDMA session, the rest of
-- rc_backend/mod.rs, with the handshake, and rdma_topo.rs. Of local.rs, a removal or a
-- get that runs between the phases of a put is not among the steps.
pub mod Prelude
pub mod Core
pub mod Memory
pub mod Store
pub mod Cuda
pub mod Local
pub mod Rdma
pub mod Tests
