-- ===== src/Memory/Get.antt =====
-- `Access::get` of services/memory.rs: the nearest replica, read into the destination list.
-- One call holds the mutex from its first read to its last write, so calls are atomic steps.
pub mod Bytes
pub mod Choice
pub mod Found
pub mod Reads
use pegastore.Prelude.{
  ℕ, ◌+◌, ◌-◌, Bool, true, false, ◌&&◌, Option, none, some, List, [], ◌∷◌, ◌++◌, if◌then◌else◌,
  length, get_elem?, take, drop, ltb, leb, ◌==◌, checked_add, Run, done, panic, unwrap, ◌>>=◌,
  update, ℕ_discrete, min,
}
use pegastore.Prelude.Order.{bytes_ord}
use pegastore.Prelude.Ordered.{lookup}
use pegastore.Core.Types.{Key, Device}
use pegastore.Core.Error.{
  Error, Result, ok, err, new, with_context, Shown, not_found, invalid_input, evicted,
}
use pegastore.Core.Region.{Iov, as_ptr}
use pegastore.Core.Ops.{OpGet, RpGet, validate_get}
use pegastore.Memory.State.{
  ReplicaData, owned, ReplicaEntry, Slot, Object, State, Inner, distance, location, tier_rank,
}
use pegastore.Memory.Place.{Ram, read_bytes}

-- A write of bytes at an address.
unfoldable pub write_bytes : Ram → ℕ → List ℕ → Ram
write_bytes ram p [] = ram
write_bytes ram p (b ∷ bs) = write_bytes (update ℕ_discrete ram p b) (p + 1) bs

-- `src[off..off + n]` panics where the source is too short.
unfoldable pub scatter : List ℕ → List Iov → Ram → Run Ram
scatter src [] ram = done ram
scatter src (v ∷ vs) ram =
    let rest = scatter (drop v.len src) vs (write_bytes ram (as_ptr v) (take v.len src)) in
    if ltb (length src) v.len then panic else rest

-- The loop over published segments: what is still to skip, and what is still wanted.
unfoldable pub read_segs : Ram → List (ℕ × ℕ) → ℕ → ℕ → List ℕ
read_segs ram [] skip want = []
read_segs ram ((addr, seg_len) ∷ segs) skip want =
    let later = read_segs ram segs (skip - seg_len) want in
    let n = min (seg_len - skip) want in
    let rest = read_segs ram segs 0 (want - n) in
    if want == 0
    then []
    else if leb seg_len skip
    then later
    else read_bytes ram (addr + skip) n ++ rest

-- `ReplicaData::read`; the slice of owned bytes panics out of range.
unfoldable pub read : Ram → ReplicaData → ℕ → ℕ → Run (List ℕ)
read ram (owned b) offset len =
    if leb (offset + len) (length b) then done (take len (drop offset b)) else panic
read ram (ReplicaData.external segs id) offset len = done (read_segs ram segs offset len)

-- The pair (distance, tier rank) of a replica as seen from the destination, compared in order.
unfoldable pub rank : Inner → Device → ReplicaEntry → ℕ × ℕ
rank inner dst r = (distance inner dst r.device, tier_rank r.tier)

unfoldable pub is_below : ℕ × ℕ → ℕ × ℕ → Bool
is_below (d, t) (d', t') = if ltb d d' then true else (d == d') && ltb t t'

min_from : Inner → Device → ReplicaEntry → List ReplicaEntry → ReplicaEntry
min_from inner dst best [] = best
min_from inner dst best (r ∷ rs) =
    min_from inner dst (if is_below (rank inner dst r) (rank inner dst best) then r else best) rs

-- `min_by_key`: the first of the least.
unfoldable pub nearest : Inner → Device → List ReplicaEntry → Option ReplicaEntry
unfolding min_from
nearest inner dst [] = none
nearest inner dst (r ∷ rs) = some (min_from inner dst r rs)

unfoldable pub no_key : Key → Error
no_key key = with_context (new not_found "no such key") "key" (Shown.key key)

unfoldable pub bad_slot : ℕ → Error
bad_slot idx = with_context (new invalid_input "slot index out of range") "slot" (Shown.number idx)

-- The object and the length of the slot that an operation names.
unfoldable pub find_slot : State → Key → ℕ → Result (Object × ℕ)
find_slot st key idx = elim (lookup key st.objects) [
  | none ↦ err (no_key key)
  | some obj ↦ elim (get_elem? obj.spec.slots idx) [
    | none ↦ err (bad_slot idx)
    | some spec ↦ ok (obj, spec.len)
  ]
]

unfoldable pub outside : ℕ → ℕ → ℕ → Error
outside src_offset len slot_len =
    with_context
      (with_context
        (with_context (new invalid_input "read range exceeds slot") "src_offset"
          (Shown.number src_offset))
        "len" (Shown.number len))
      "slot_len" (Shown.number slot_len)

unfoldable pub is_in_range : ℕ → ℕ → ℕ → Bool
is_in_range src_offset dst_len slot_len = elim (checked_add src_offset dst_len) [
  | none ↦ false
  | some e ↦ leb e slot_len
]

unfoldable pub no_replica : Key → ℕ → Error
no_replica key idx =
    with_context (with_context (new evicted "slot has no replica") "key" (Shown.key key)) "slot"
      (Shown.number idx)

-- The copy out of the chosen replica.
copy_out : Inner → Ram → OpGet → ℕ → ReplicaEntry → Run (Ram × Result RpGet)
copy_out inner ram op dst_len r = read ram r.bytes op.src_offset dst_len >>= λ bytes.
    scatter bytes op.dst ram >>= λ ram'.
    done (ram', ok (record { from = location inner r.device r.tier }))

get_from : Inner → Ram → Key → OpGet → Device → ℕ → Slot → Run (Ram × Result RpGet)
get_from inner ram key op dst_device dst_len slot = elim (nearest inner dst_device slot.replicas) [
  | none ↦ done (ram, err (no_replica key op.slot))
  | some r ↦ copy_out inner ram op dst_len r
]

get_slot : Inner → Ram → Key → OpGet → Device → ℕ → Result (Object × ℕ) → Run (Ram × Result RpGet)
get_slot inner ram key op dst_device dst_len (err e) = done (ram, err e)
get_slot inner ram key op dst_device dst_len (ok (obj, slot_len)) =
    if is_in_range op.src_offset dst_len slot_len
    then (unwrap (get_elem? obj.slots op.slot) >>= λ slot.
        get_from inner ram key op dst_device dst_len slot)
    else done (ram, err (outside op.src_offset dst_len slot_len))

get_valid : Inner → State → Ram → Key → OpGet → Result (Device × ℕ) → Run (Ram × Result RpGet)
get_valid inner st ram key op (err e) = done (ram, err e)
get_valid inner st ram key op (ok (dst_device, dst_len)) =
    get_slot inner ram key op dst_device dst_len (find_slot st key op.slot)

-- A read leaves the store as it is; it changes the memory of the process.
unfoldable pub get : Inner → State → Ram → Key → OpGet → Run (Ram × Result RpGet)
unfolding get_valid get_slot get_from copy_out no_replica outside
get inner st ram key op = get_valid inner st ram key op (validate_get op)
