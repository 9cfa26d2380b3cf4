-- ===== src/Tests/Local.antt =====
-- A single-node backend with one pool of one 2 MiB range, all of it taken by an object of two bytes.
pub mod Checks
use pegastore.Prelude.{
  ℕ, ◌≡◌, ◌<◌, refl, none, some, List, [], ◌∷◌, false, true, update, arith, update_cases, inl, inr,
  All, ap, sym, ◌∙◌, subst, Option, ℕ_discrete, length,
}
use pegastore.Prelude.Order.{bytes_ord, cmp_bytes}
use pegastore.Prelude.Ordered.{lookup}
use pegastore.Core.Types.{Key, dec_device, dram, Placement, cache, ObjectSpec, all_capabilities}
use pegastore.Cuda.Pinned.{PinnedPool, PinnedBuf, align}
use pegastore.Local.State.{PoolBuf, pinned, segs, ReplicaEntry, Slot, Object, State, Inner}
use pegastore.Local.Copy.{Seg}
use pegastore.Local.Copy.Pairs.{addresses, seg_addresses}
use pegastore.Local.Sound.{IsSound, IsInRange, has_pool, replica_len}
use pegastore.Local.Writes.{CanHold}
use pegastore.Tests.{host, old_key, new_key, spec_of}

abbrev pub source : List Seg
source = record { addr = 100; len = 3 } ∷ record { addr = 200; len = 2 } ∷ []

abbrev pub target : List Seg
target = record { addr = 10; len = 4 } ∷ []

abbrev pub node : Inner
node = record {
  info = record { name = "local"; node = 0; devices = host ∷ []; capability = all_capabilities };
  topo = record { numa_nodes = 0 ∷ []; cpus_by_numa = λ _. none; gpu_numa = λ _. none };
  gpus = [];
  pool_order = 0 ∷ [];
}

abbrev pub full_pool : PinnedPool
full_pool = record { numa = 0; base = align; len = align; registered = true; free = [] }

abbrev pub held : PoolBuf
held = record { numa = 0; base = align; buf = record { off = 0; reserved = align; len = 2 } }

abbrev pub stored_replica : ReplicaEntry
stored_replica = record { device = host; tier = dram; misplaced = false; shared = pinned held }

abbrev pub stored : Object
stored = record {
  spec = record { retention = cache; slots = spec_of 2 Placement.anywhere ∷ [] };
  slots = record { replicas = stored_replica ∷ []; writing = false } ∷ [];
}

abbrev pub queue : List (Key × ℕ)
queue = (old_key, 0) ∷ []

abbrev pub full : State
full = record {
  objects = (old_key, stored) ∷ [];
  fifo = update dec_device (λ _. none) host (some queue);
  pools = update ℕ_discrete (λ _. none) 0 (some full_pool);
  readers = [];
}

stored_len : replica_len stored_replica ≡ 2
unfolding replica_len segs seg_addresses addresses
stored_len = refl

full_range : (o : Object) → lookup old_key full.objects ≡ some o → 0 < length o.slots
unfolding lookup cmp_bytes
full_range o h =
    let q : stored ≡ o = cc in subst (λ (x : Object). 0 < length x.slots) q (omega arith)

pub full-IsSound : IsSound full
unfolding has_pool update
full-IsSound = record {
  sorted = (tt, tt);
  fit = (((stored_len, tt), tt), tt);
  queues = λ n h. (queue, ground arith);
  queued = λ d q h. elim (update_cases dec_device (λ _. none) host d queue h) [
    | inl (same, is) ↦ subst (All (IsInRange full.objects)) is (full_range, tt)
    | inr (ne, old) ↦ absurd (ground arith)
  ];
}

abbrev pub fresh_spec : ObjectSpec
fresh_spec = record { retention = cache; slots = spec_of 3 Placement.anywhere ∷ [] }

pub full-CanHold : CanHold new_key 1 full
full-CanHold d q h = elim (update_cases dec_device (λ _. none) host d queue h) [
  | inl (same, is) ↦ subst (All (λ e. e.0 ≡ new_key → e.1 < 1)) is ((λ k. omega arith), tt)
  | inr (ne, old) ↦ absurd (ground arith)
]
