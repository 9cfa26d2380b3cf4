-- ===== src/Memory/Lifecycle.antt =====
-- The rest of `Access for Memory` in services/memory.rs: register, publish, stat, remove and
-- remove_prefix, and the drop of a region. One call holds the mutex from its first read to its last
-- write, so calls are atomic steps.
pub mod Release
pub mod Prefix
pub mod Publish
pub mod Retire
use pegastore.Prelude.{
  ℕ, false, not, ◌&&◌, Option, none, some, List, [], ◌∷◌, map, if◌then◌else◌, length, get_elem?,
  modify, ◌==◌, Run, done, panic, unwrap, ◌>>=◌,
}
use pegastore.Prelude.Order.{bytes_ord}
use pegastore.Prelude.Ordered.{lookup, insert, remove, range_from}
use pegastore.Core.Types.{
  Key, Device, is_gpu, starts_with, Tier, SlotSpec, Replica, SlotInfo, ObjectInfo,
}
use pegastore.Core.Error.{
  Error, Result, ok, err, new, with_context, Shown, invalid_input, unsupported,
}
use pegastore.Core.Region.{MemoryRegion, Iov, as_ptr, next_id, with_id}
use pegastore.Core.Ops.{OpPublish, validate_publish}
use pegastore.Memory.State.{
  ReplicaData, ReplicaEntry, Slot, Object, State, Inner, location, release_object, retire_region,
}
use pegastore.Memory.Put.{push_replicas}
use pegastore.Memory.Get.{find_slot}

-- The counter of region ids goes in and out; the region's guard is its id.
unfoldable pub register : Inner → ℕ → ℕ → ℕ → Device → ℕ × Result MemoryRegion
register inner counter ptr len device =
    if is_gpu device && not inner.info.capability.gpu_memory
    then (counter, err (new unsupported "gpu memory disabled"))
    else let (id, counter') = next_id counter in (counter', ok (with_id id ptr len device))

-- The drop of `RegionGuard`, while the backend is alive.
unfoldable pub drop_region : MemoryRegion → State → State
drop_region region st = retire_region region.id st

length_differs : ℕ → ℕ → ℕ → Error
length_differs idx total expected =
    with_context
      (with_context
        (with_context (new invalid_input "published length differs from slot length") "slot"
          (Shown.number idx))
        "len" (Shown.number total))
      "expected" (Shown.number expected)

source_segs : List Iov → List (ℕ × ℕ)
source_segs [] = []
source_segs (v ∷ vs) = (as_ptr v, v.len) ∷ source_segs vs

unfoldable pub published : Device → List Iov → ℕ → ReplicaEntry
unfolding source_segs
published device src region_id = record {
  device = device;
  tier = Tier.external;
  misplaced = false;
  bytes = ReplicaData.external (source_segs src) region_id;
}

-- `op.src[0].region.id()`.
first_region : List Iov → Run ℕ
first_region [] = panic
first_region (v ∷ vs) = done v.region.id

push_published : State → Key → OpPublish → Device → ℕ → Object × ℕ → Run (State × Result (Unit {0}))
push_published st key op device total (obj, slot_len) =
    if slot_len == total
    then (first_region op.src >>= λ id. unwrap (get_elem? obj.slots op.slot) >>= λ slot. done (
      record st {
        objects =
            insert key
              (record obj {
                slots = modify obj.slots op.slot (push_replicas (published device op.src id ∷ []));
              })
              st.objects;
      },
      ok tt,
    ))
    else done (st, err (length_differs op.slot total slot_len))

publish_found :
    State → Key → OpPublish → Device → ℕ → Result (Object × ℕ) → Run (State × Result (Unit {0}))
publish_found st key op device total (err e) = done (st, err e)
publish_found st key op device total (ok o) = push_published st key op device total o

publish_valid : State → Key → OpPublish → Result (Device × ℕ) → Run (State × Result (Unit {0}))
publish_valid st key op (err e) = done (st, err e)
publish_valid st key op (ok (device, total)) =
    publish_found st key op device total (find_slot st key op.slot)

unfoldable pub publish : Key → OpPublish → State → Run (State × Result (Unit {0}))
unfolding publish_valid publish_found push_published first_region length_differs
publish key op st = publish_valid st key op (validate_publish op)

replica_info : Inner → ReplicaEntry → Replica
replica_info inner r = record { location = location inner r.device r.tier; misplaced = r.misplaced }

slot_infos : Inner → List Slot → List SlotSpec → List SlotInfo
slot_infos inner (s ∷ ss) (spec ∷ specs) =
    record { len = spec.len; replicas = map (replica_info inner) s.replicas }
    ∷ slot_infos inner ss specs
slot_infos inner _ _ = []

unfoldable pub object_info : Inner → Object → ObjectInfo
unfolding slot_infos replica_info
object_info inner obj = record {
  retention = obj.spec.retention;
  slots = slot_infos inner obj.slots obj.spec.slots;
}

unfoldable pub stat_one : Inner → State → Key → Option ObjectInfo
stat_one inner st key = elim (lookup key st.objects) [
  | none ↦ none
  | some obj ↦ some (object_info inner obj)
]

unfoldable pub stat : Inner → State → List Key → Result (List (Option ObjectInfo))
stat inner st keys = ok (map (stat_one inner st) keys)

-- The object is taken out, and then its owned bytes are released.
unfoldable pub remove_one : Key → State → Run State
remove_one key st = elim (lookup key st.objects) [
  | none ↦ done st
  | some obj ↦ release_object obj (record st { objects = remove key st.objects })
]

unfoldable pub remove_all : List Key → State → Run State
remove_all [] st = done st
remove_all (k ∷ ks) st = remove_one k st >>= λ st'. remove_all ks st'

-- `Access::remove`.
unfoldable pub remove_keys : List Key → State → Run (State × Result (Unit {0}))
remove_keys keys st = remove_all keys st >>= λ st'. done (st', ok tt)

-- The keys of `take_while(starts_with)`.
unfoldable pub take_prefixed : Key → List (Key × Object) → List Key
take_prefixed prefix [] = []
take_prefixed prefix ((k, o) ∷ m) =
    let rest = k ∷ take_prefixed prefix m in if starts_with k prefix then rest else []

unfoldable pub prefixed_keys : Key → State → List Key
prefixed_keys prefix st = take_prefixed prefix (range_from prefix st.objects)

unfoldable pub remove_prefix : Key → State → Run (State × Result ℕ)
remove_prefix prefix st = remove_all (prefixed_keys prefix st) st >>= λ st'.
    done (st', ok (length (prefixed_keys prefix st)))
