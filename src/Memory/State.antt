-- ===== src/Memory/State.antt =====
-- The data of services/memory.rs, the device distance, and the small methods of `Inner` and `State`.
-- A `HashMap` is a function into `Option`; the `BTreeMap` of objects is a list by ascending key.
use pegastore.Prelude.{
  ℕ, ◌+◌, ◌-◌, Bool, false, Option, none, some, List, [], ◌∷◌, ◌++◌, map, leb, ◌==◌, if◌then◌else◌,
  ite, update, length, Run, done, panic, unwrap, ◌>>=◌, ℕ_discrete, not,
}
use pegastore.Prelude.Order.{bytes_ord}
use pegastore.Core.Types.{
  Key, Device, cpu, gpu, dec_device, Tier, dram, ssd, Location, ObjectSpec, AccessInfo,
}

pub data ReplicaData : Type 0 where
  owned : List ℕ → ReplicaData
  external : List (ℕ × ℕ) → ℕ → ReplicaData

pub record ReplicaEntry : Type 0 where
  pub device : Device
  pub tier : Tier
  pub misplaced : Bool
  pub bytes : ReplicaData

pub record Slot : Type 0 where
  pub replicas : List ReplicaEntry

pub record Object : Type 0 where
  pub spec : ObjectSpec
  pub slots : List Slot

pub record Pool : Type 0 where
  pub capacity : Option ℕ
  pub used : ℕ
  pub fifo : List (Key × ℕ)

pub record State : Type 0 where
  pub objects : List (Key × Object)
  pub pools : Device → Option Pool

-- The part of `Inner` that never changes.
pub record Inner : Type 0 where
  pub info : AccessInfo
  pub device_order : List Device
  pub gpu_numa : ℕ → Option ℕ

unfoldable pub segs_len : List (ℕ × ℕ) → ℕ
segs_len [] = 0
segs_len ((addr, len) ∷ segs) = len + segs_len segs

-- `ReplicaData::len`.
unfoldable pub data_len : ReplicaData → ℕ
unfolding segs_len
data_len (owned b) = length b
data_len (external segs id) = segs_len segs

unfoldable pub dec_key : Discrete Key
dec_key = hlevel ℕ_discrete

cpu_gpu : (ℕ → Option ℕ) → ℕ → ℕ → ℕ
cpu_gpu gpu_numa numa index = elim (gpu_numa index) [
  | none ↦ 3
  | some n ↦ if n == numa then 2 else 4
]

distance_apart : (ℕ → Option ℕ) → Device → Device → ℕ
distance_apart gpu_numa (gpu i) (gpu j) = 1
distance_apart gpu_numa (cpu numa) (gpu index) = cpu_gpu gpu_numa numa index
distance_apart gpu_numa (gpu index) (cpu numa) = cpu_gpu gpu_numa numa index
distance_apart gpu_numa (cpu m) (cpu n) = 3

unfoldable pub distance : Inner → Device → Device → ℕ
unfolding cpu_gpu distance_apart
distance inner a b = ite (dec_device a b) 0 (distance_apart inner.gpu_numa a b)

unfoldable pub location : Inner → Device → Tier → Location
location inner device tier = record { node = inner.info.node; device = device; tier = tier }

unfoldable pub tier_rank : Tier → ℕ
tier_rank dram = 0
tier_rank Tier.external = 1
tier_rank ssd = 2

-- Whether the replica was published from the region.
unfoldable pub is_from : ℕ → ReplicaEntry → Bool
is_from region_id r = elim r.bytes [
  | owned b ↦ false
  | ReplicaData.external segs id ↦ id == region_id
]

unfoldable pub retain : (ReplicaEntry → Bool) → List ReplicaEntry → List ReplicaEntry
retain keep [] = []
retain keep (r ∷ rs) = let rest = retain keep rs in if keep r then r ∷ rest else rest

unfoldable pub retire_slot : ℕ → Slot → Slot
unfolding retain is_from
retire_slot region_id s = record { replicas = retain (λ r. not (is_from region_id r)) s.replicas }

unfoldable pub retire_objects : ℕ → List (Key × Object) → List (Key × Object)
retire_objects region_id [] = []
retire_objects region_id ((k, obj) ∷ m) =
    (k, record obj { slots = map (retire_slot region_id) obj.slots }) ∷ retire_objects region_id m

unfoldable pub retire_region : ℕ → State → State
retire_region region_id st = record st { objects = retire_objects region_id st.objects }

-- `pool.used -= n`: an underflow panics.
unfoldable pub sub_used : ℕ → ℕ → Run ℕ
sub_used used n = if leb n used then done (used - n) else panic

unfoldable pub charge : Device → Key → ℕ → ℕ → State → Run State
charge device key slot len st = do
  pool ← unwrap (st.pools device)
  done (record st {
    pools =
        update dec_device st.pools device
          (some (record pool { used = pool.used + len; fifo = pool.fifo ++ (key, slot) ∷ [] }));
  })

-- One replica of a removed object: owned bytes go back to the pool of their device, if it is there.
unfoldable pub release_replica : ReplicaEntry → State → Run State
release_replica r st = elim r.bytes [
  | ReplicaData.external segs id ↦ done st
  | owned b ↦ elim (st.pools r.device) [
    | none ↦ done st
    | some pool ↦ sub_used pool.used (length b) >>= λ used. done (record st {
      pools = update dec_device st.pools r.device (some (record pool { used = used }));
    })
  ]
]

unfoldable pub release_replicas : List ReplicaEntry → State → Run State
release_replicas [] st = done st
release_replicas (r ∷ rs) st = release_replica r st >>= λ st'. release_replicas rs st'

unfoldable pub release_slots : List Slot → State → Run State
release_slots [] st = done st
release_slots (s ∷ ss) st = release_replicas s.replicas st >>= λ st'. release_slots ss st'

unfoldable pub release_object : Object → State → Run State
release_object obj st = release_slots obj.slots st

-- `Memory::used`.
unfoldable pub used_on : State → Device → ℕ
used_on st device = elim (st.pools device) [ none ↦ 0 | some p ↦ p.used ]
