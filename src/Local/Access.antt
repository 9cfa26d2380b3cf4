-- ===== src/Local/Access.antt =====
-- The rest of `Access for Local` in local.rs: register, publish, stat, remove and remove_prefix,
-- each under the lock, and `Local::pool_stats`.
use pegastore.Prelude.{
  ℕ, Bool, false, Option, none, some, List, [], ◌∷◌, ◌++◌, map, if◌then◌else◌, length, get_elem?,
  modify, ◌==◌, Run, done, panic, unwrap, ◌>>=◌,
}
use pegastore.Prelude.Order.{bytes_ord}
use pegastore.Prelude.Ordered.{lookup, insert, remove, range_from}
use pegastore.Core.Types.{
  Key, Device, cpu, gpu, starts_with, Tier, SlotSpec, Replica, SlotInfo, ObjectInfo,
}
use pegastore.Core.Error.{Error, Result, ok, err, new, with_context, Shown, invalid_input}
use pegastore.Core.Region.{MemoryRegion, Iov, next_id, with_id}
use pegastore.Core.Ops.{OpPublish, validate_publish}
use pegastore.Cuda.Pinned.{free_bytes}
use pegastore.Local.Copy.{iov_segs}
use pegastore.Local.State.{
  ReplicaData, ReplicaEntry, Slot, Object, State, Inner, location, drop_slots, retire_region,
}
use pegastore.Local.Engines.{gpu_at}
use pegastore.Local.Get.{find_slot}

-- `host_registered` is what `cuda::host_register` answers: true for a pinned mapping.
pub record RegionGuard : Type 0 where
  pub id : ℕ
  pub host_registered : Option ℕ

guarded : ℕ → ℕ → ℕ → Device → Option ℕ → Result (MemoryRegion × RegionGuard)
guarded id ptr len device host =
    ok (with_id id ptr len device, record { id = id; host_registered = host })

register_gpu : ℕ → ℕ → ℕ → Device → Result ℕ → Result (MemoryRegion × RegionGuard)
register_gpu id ptr len device (err e) = err e
register_gpu id ptr len device (ok g) = guarded id ptr len device none

-- An id is drawn whether or not the call succeeds.
unfoldable pub register :
    Inner → (ℕ → ℕ → Bool) → ℕ → ℕ → ℕ → Device → ℕ × Result (MemoryRegion × RegionGuard)
unfolding guarded register_gpu
register inner host_register counter ptr len (gpu index) =
    ((next_id counter).1, register_gpu (next_id counter).0 ptr len (gpu index) (gpu_at inner index))
register inner host_register counter ptr len (cpu numa) = (
  (next_id counter).1,
  guarded (next_id counter).0 ptr len (cpu numa) (if host_register ptr len then some ptr else none),
)

-- `Drop for RegionGuard` while the backend is alive: the state, and the address to unregister.
unfoldable pub drop_guard : RegionGuard → State → State × Option ℕ
drop_guard guard st = (retire_region guard.id st, guard.host_registered)

length_differs : ℕ → ℕ → Error
length_differs total expected =
    with_context
      (with_context (new invalid_input "published length differs from slot length") "len"
        (Shown.number total))
      "expected" (Shown.number expected)

-- `op.src[0].region.id()`.
first_region : List Iov → Run ℕ
first_region [] = panic
first_region (v ∷ vs) = done v.region.id

unfoldable pub published : Device → List Iov → ℕ → ReplicaEntry
published device src region_id = record {
  device = device;
  tier = Tier.external;
  misplaced = false;
  shared = ReplicaData.external (iov_segs src) region_id;
}

unfoldable pub push_replica : ReplicaEntry → Slot → Slot
push_replica r s = record s { replicas = s.replicas ++ r ∷ [] }

push_published : State → Key → OpPublish → Device → ℕ → Object × ℕ → Run (State × Result (Unit {0}))
push_published st key op device total (obj, slot_len) =
    if slot_len == total
    then (unwrap (get_elem? obj.slots op.slot) >>= λ slot. first_region op.src >>= λ id. done (
      record st {
        objects =
            insert key
              (record obj {
                slots = modify obj.slots op.slot (push_replica (published device op.src id));
              })
              st.objects;
      },
      ok tt,
    ))
    else done (st, err (length_differs total slot_len))

publish_found :
    State → Key → OpPublish → Device → ℕ → Result (Object × ℕ) → Run (State × Result (Unit {0}))
publish_found st key op device total (err e) = done (st, err e)
publish_found st key op device total (ok o) = push_published st key op device total o

publish_valid : State → Key → OpPublish → Result (Device × ℕ) → Run (State × Result (Unit {0}))
publish_valid st key op (err e) = done (st, err e)
publish_valid st key op (ok (device, total)) =
    publish_found st key op device total (find_slot st key op.slot)

unfoldable pub publish : Key → OpPublish → State → Run (State × Result (Unit {0}))
unfolding publish_valid publish_found push_published first_region length_differs
publish key op st = publish_valid st key op (validate_publish op)

replica_info : Inner → ReplicaEntry → Replica
replica_info inner r = record { location = location inner r.device r.tier; misplaced = r.misplaced }

slot_infos : Inner → List Slot → List SlotSpec → List SlotInfo
slot_infos inner (s ∷ ss) (spec ∷ specs) =
    record { len = spec.len; replicas = map (replica_info inner) s.replicas }
    ∷ slot_infos inner ss specs
slot_infos inner _ _ = []

unfoldable pub object_info : Inner → Object → ObjectInfo
unfolding slot_infos replica_info
object_info inner obj = record {
  retention = obj.spec.retention;
  slots = slot_infos inner obj.slots obj.spec.slots;
}

stat_one : Inner → State → Key → Option ObjectInfo
stat_one inner st key = elim (lookup key st.objects) [
  | none ↦ none
  | some obj ↦ some (object_info inner obj)
]

unfoldable pub stat : Inner → State → List Key → Result (List (Option ObjectInfo))
unfolding stat_one
stat inner st keys = ok (map (stat_one inner st) keys)

-- The object is taken out and dropped.
unfoldable pub remove_one : Key → State → State
remove_one key st = elim (lookup key st.objects) [
  | none ↦ st
  | some obj ↦ drop_slots obj.slots (record st { objects = remove key st.objects })
]

unfoldable pub remove_all : List Key → State → State
remove_all [] st = st
remove_all (k ∷ ks) st = remove_all ks (remove_one k st)

-- `Access::remove`.
unfoldable pub remove_keys : List Key → State → State × Result (Unit {0})
remove_keys keys st = (remove_all keys st, ok tt)

-- The keys of `take_while(starts_with)`.
unfoldable pub take_prefixed : Key → List (Key × Object) → List Key
take_prefixed prefix [] = []
take_prefixed prefix ((k, o) ∷ m) =
    let rest = k ∷ take_prefixed prefix m in if starts_with k prefix then rest else []

unfoldable pub prefixed_keys : Key → State → List Key
prefixed_keys prefix st = take_prefixed prefix (range_from prefix st.objects)

unfoldable pub remove_prefix : Key → State → State × Result ℕ
remove_prefix prefix st =
    (remove_all (prefixed_keys prefix st) st, ok (length (prefixed_keys prefix st)))

-- `Local::pool_stats`, in the order of the sorted nodes: node, capacity, free bytes.
unfoldable pub pool_stats : List ℕ → State → List (ℕ × ℕ × ℕ)
pool_stats [] st = []
pool_stats (n ∷ ns) st =
    let rest = pool_stats ns st in
    elim (st.pools n) [ none ↦ rest | some p ↦ (p.numa, p.len, free_bytes p.free) ∷ rest ]
