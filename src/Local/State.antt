-- ===== src/Local/State.antt =====
-- The data of local.rs, and how references to pinned bytes are dropped. The pools, each behind a
-- mutex of its own in the source, stand in the state, and so do the pinned buffers that reads in
-- flight keep alive: the source holds them in an `Arc`, which a slot and the readers share.
use pegastore.Prelude.{
  ℕ, ◌+◌, ◌%◌, Bool, true, false, not, Option, none, some, List, [], ◌∷◌, map, if◌then◌else◌, ite,
  update, u64_mod, ◌==◌, ℕ_discrete,
}
use pegastore.Core.Types.{Key, Device, Tier, Location, ObjectSpec, AccessInfo}
use pegastore.Cuda.Pinned.{PinnedPool, PinnedBuf, drop_buf}
use pegastore.Cuda.Topology.{Topology}
use pegastore.Local.Copy.{Seg}

-- A buffer with its pool: the node of the pool and the address of its mapping.
pub record PoolBuf : Type 0 where
  pub numa : ℕ
  pub base : ℕ
  pub buf : PinnedBuf

unfoldable pub dec_buf : Discrete PoolBuf
dec_buf = hlevel ℕ_discrete

pub data ReplicaData : Type 0 where
  pinned : PoolBuf → ReplicaData
  external : List Seg → ℕ → ReplicaData

-- `ReplicaData::segs`.
unfoldable pub segs : ReplicaData → List Seg
segs (pinned b) = record { addr = (b.base + b.buf.off) % u64_mod; len = b.buf.len } ∷ []
segs (external ss region_id) = ss

-- `shared` is the source's field `data`.
pub record ReplicaEntry : Type 0 where
  pub device : Device
  pub tier : Tier
  pub misplaced : Bool
  pub shared : ReplicaData

pub record Slot : Type 0 where
  pub replicas : List ReplicaEntry
  pub writing : Bool

pub record Object : Type 0 where
  pub spec : ObjectSpec
  pub slots : List Slot

pub record State : Type 0 where
  pub objects : List (Key × Object)
  pub fifo : Device → Option (List (Key × ℕ))
  pub pools : ℕ → Option PinnedPool
  pub readers : List PoolBuf

-- The part of `Inner` that never changes: `gpus` holds the indices of the open GPUs, and
-- `pool_order` the keys of `pools`, ascending.
pub record Inner : Type 0 where
  pub info : AccessInfo
  pub topo : Topology
  pub gpus : List ℕ
  pub pool_order : List ℕ

unfoldable pub location : Inner → Device → Tier → Location
location inner device tier = record { node = inner.info.node; device = device; tier = tier }

unfoldable pub retain : (ReplicaEntry → Bool) → List ReplicaEntry → List ReplicaEntry
retain keep [] = []
retain keep (r ∷ rs) = let rest = retain keep rs in if keep r then r ∷ rest else rest

unfoldable pub is_from : ℕ → ReplicaEntry → Bool
is_from region_id r = elim r.shared [ pinned b ↦ false | external ss id ↦ id == region_id ]

unfoldable pub retire_slot : ℕ → Slot → Slot
retire_slot region_id s = record s { replicas = retain (λ r. not (is_from region_id r)) s.replicas }

unfoldable pub retire_objects : ℕ → List (Key × Object) → List (Key × Object)
retire_objects region_id [] = []
retire_objects region_id ((k, obj) ∷ m) =
    (k, record obj { slots = map (retire_slot region_id) obj.slots }) ∷ retire_objects region_id m

-- `Inner::retire_region`, which the drop of `RegionGuard` calls while the backend is alive.
unfoldable pub retire_region : ℕ → State → State
retire_region region_id st = record st { objects = retire_objects region_id st.objects }

unfoldable pub is_read : PoolBuf → List PoolBuf → Bool
is_read b [] = false
is_read b (c ∷ cs) = ite (dec_buf b c) true (is_read b cs)

-- The drop of a buffer gives its range back to its pool.
unfoldable pub release_buf : PoolBuf → State → State
release_buf b st = elim (st.pools b.numa) [
  | none ↦ st
  | some pool ↦ record st { pools = update ℕ_discrete st.pools b.numa (some (drop_buf b.buf pool)) }
]

-- A slot drops its reference; the last reference drops the buffer.
unfoldable pub drop_replica : ReplicaEntry → State → State
drop_replica r st = elim r.shared [
  | pinned b ↦ if is_read b st.readers then st else release_buf b st
  | external ss region_id ↦ st
]

unfoldable pub drop_replicas : List ReplicaEntry → State → State
drop_replicas [] st = st
drop_replicas (r ∷ rs) st = drop_replicas rs (drop_replica r st)

unfoldable pub drop_slots : List Slot → State → State
drop_slots [] st = st
drop_slots (s ∷ ss) st = drop_slots ss (drop_replicas s.replicas st)
