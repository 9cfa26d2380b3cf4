-- ===== src/Tests.antt =====
-- A small backend, and the theorems applied to it.
pub mod Backend
pub mod Parts
pub mod Local
pub mod Batches
use pegastore.Prelude.{
  ℕ, ◌≡◌, ◌≢◌, ◌<◌, ◌≤◌, refl, none, some, List, [], ◌∷◌, false, true, update, arith, update_cases,
  inl, inr, All, ap, sym, ◌∙◌, subst, Option,
}
use pegastore.Core.Types.{
  Key, Device, cpu, dec_device, dram, Placement, strict, cache, SlotSpec, ObjectSpec, AccessInfo,
  all_capabilities,
}
use pegastore.Core.Region.{MemoryRegion, Iov, with_id, iov}
use pegastore.Core.Ops.{PutSlot, OpPut, OpGet, new_put, new_get}
use pegastore.Memory.State.{
  ReplicaEntry, Slot, Object, Pool, State, Inner, owned, data_len, used_on,
}
use pegastore.Memory.Evict.{freed, replica_bytes}
use pegastore.Memory.Measure.{owned_on, slots_bytes}
use pegastore.Prelude.Ordered.{total}
use pegastore.Memory.Sound.{IsSound, IsInRange}
use pegastore.Memory.Place.{Ram}
use pegastore.Memory.Room.{capacity_at}
use pegastore.Memory.Put.Distinct.{IsBounded}
use pegastore.Memory.Put.Total.{CanReserve}

abbrev pub host : Device
host = cpu 0

abbrev pub inner : Inner
inner = record {
  info = record { name = "memory"; node = 0; devices = host ∷ []; capability = all_capabilities };
  device_order = host ∷ [];
  gpu_numa = λ _. none;
}

-- Every address holds its own number, up to a byte.
abbrev pub ram : Ram
ram = λ a. a

abbrev pub buffer : MemoryRegion
buffer = record { id = 1; addr = 100; len = 10; device = host }

abbrev pub segment : ℕ → ℕ → Iov
segment offset len = record { region = buffer; offset = offset; len = len }

abbrev pub spec_of : ℕ → Placement → SlotSpec
spec_of len placement = record { len = len; placement = placement }

-- One object of one slot, whose two bytes are on the host.
abbrev pub old_key : Key
old_key = 97 ∷ []

abbrev pub new_key : Key
new_key = 98 ∷ []

abbrev pub replica : ReplicaEntry
replica = record { device = host; tier = dram; misplaced = false; bytes = owned (7 ∷ 8 ∷ []) }

abbrev pub slot : Slot
slot = record { replicas = replica ∷ [] }

abbrev pub object : Object
object = record {
  spec = record { retention = cache; slots = spec_of 2 Placement.anywhere ∷ [] };
  slots = slot ∷ [];
}

abbrev pub pool : Pool
pool = record { capacity = some 4; used = 2; fifo = (old_key, 0) ∷ [] }

abbrev pub one : State
one = record {
  objects = (old_key, object) ∷ [];
  pools = update dec_device (λ _. none) host (some pool);
}

one_owned : (e : Device) → e ≡ host → owned_on e one.objects ≡ 2
unfolding total slots_bytes freed replica_bytes
one_owned e same = ground arith

pub one-IsSound : IsSound one
unfolding data_len
one-IsSound = record {
  sorted = (tt, tt);
  fit = (((refl, tt), tt), tt);
  accounted = λ d p h. elim (update_cases dec_device (λ _. none) host d pool h) [
    | inl (same, is) ↦ ap (λ (y : Pool). y.used) (sym is) ∙ sym (one_owned d same)
    | inr (ne, old) ↦ absurd (ground arith)
  ];
  queued = λ d p h. elim (update_cases dec_device (λ _. none) host d pool h) [
    | inl (same, is) ↦
        subst (λ (y : Pool). All (IsInRange one.objects) y.fifo) is (((λ k. omega arith), tt), tt)
    | inr (ne, old) ↦ absurd (ground arith)
  ];
}

-- A put of three bytes, which fit only when the object is evicted.
abbrev pub three : OpPut
three = record {
  retention = cache;
  slots = record { spec = spec_of 3 Placement.anywhere; src = segment 0 3 ∷ [] } ∷ [];
}

pub one-CanReserve : CanReserve new_key 1 one
one-CanReserve gone d p h = elim (update_cases dec_device (λ _. none) host d pool h) [
  | inl (same, is) ↦
      subst (λ (y : Pool). All (λ e. new_key ≡ e.0 → e.1 < 1) y.fifo) is (((λ k. omega arith), tt))
  | inr (ne, old) ↦ absurd (ground arith)
]

-- A read of the two bytes into the buffer.
abbrev pub read_two : OpGet
read_two = record { slot = 0; src_offset = 0; dst = segment 4 2 ∷ [] }
