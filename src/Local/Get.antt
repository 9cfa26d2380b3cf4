-- ===== src/Local/Get.antt =====
-- `Access::get` of local.rs: the choice of a replica under the lock, and the copy without it. The
-- clone of the `Arc` is an entry of `readers` until the copy is done.
pub mod Stored
pub mod Reads
use pegastore.Prelude.{
  ℕ, Bool, true, false, ◌||◌, Option, none, some, List, [], ◌∷◌, if◌then◌else◌, ite, get_elem?, Run,
  done, unwrap, ◌>>=◌,
}
use pegastore.Prelude.Order.{bytes_ord}
use pegastore.Prelude.Ordered.{lookup}
use pegastore.Core.Types.{Key, Device}
use pegastore.Core.Error.{Result, ok, err}
use pegastore.Core.Ops.{OpGet, RpGet, validate_get}
use pegastore.Cuda.Topology.{distance}
use pegastore.Memory.State.{tier_rank}
use pegastore.Memory.Get.{no_key, bad_slot, outside, is_in_range, no_replica, is_below}
use pegastore.Local.Copy.{iov_segs}
use pegastore.Local.State.{
  PoolBuf, dec_buf, pinned, external, segs, ReplicaEntry, Slot, Object, State, Inner, location,
  is_read, release_buf,
}
use pegastore.Local.Engines.{Engines, copy}

-- The pair (distance, tier rank) of a replica as seen from the destination.
unfoldable pub rank : Inner → Device → ReplicaEntry → ℕ × ℕ
rank inner dst r = (distance inner.topo dst r.device, tier_rank r.tier)

min_from : Inner → Device → ReplicaEntry → List ReplicaEntry → ReplicaEntry
min_from inner dst best [] = best
min_from inner dst best (r ∷ rs) =
    min_from inner dst (if is_below (rank inner dst r) (rank inner dst best) then r else best) rs

-- `min_by_key`: the first of the least.
unfoldable pub nearest : Inner → Device → List ReplicaEntry → Option ReplicaEntry
unfolding min_from
nearest inner dst [] = none
nearest inner dst (r ∷ rs) = some (min_from inner dst r rs)

-- The object and the length of the slot that an operation names.
unfoldable pub find_slot : State → Key → ℕ → Result (Object × ℕ)
find_slot st key idx = elim (lookup key st.objects) [
  | none ↦ err (no_key key)
  | some obj ↦ elim (get_elem? obj.spec.slots idx) [
    | none ↦ err (bad_slot idx)
    | some spec ↦ ok (obj, spec.len)
  ]
]

-- A clone of the `Arc`, and its drop: the last reference drops the buffer.
unfoldable pub start_read : ReplicaEntry → State → State
start_read r st = elim r.shared [
  | pinned b ↦ record st { readers = b ∷ st.readers }
  | external ss id ↦ st
]

unfoldable pub remove_reader : PoolBuf → List PoolBuf → List PoolBuf
remove_reader b [] = []
remove_reader b (c ∷ cs) = let rest = c ∷ remove_reader b cs in ite (dec_buf b c) cs rest

unfoldable pub holds : PoolBuf → List ReplicaEntry → Bool
holds b [] = false
holds b (r ∷ rs) =
    (elim r.shared [ pinned c ↦ ite (dec_buf b c) true false | external ss id ↦ false ])
    || holds b rs

unfoldable pub any_slot_holds : PoolBuf → List Slot → Bool
any_slot_holds b [] = false
any_slot_holds b (s ∷ ss) = holds b s.replicas || any_slot_holds b ss

unfoldable pub is_stored : PoolBuf → List (Key × Object) → Bool
is_stored b [] = false
is_stored b ((k, obj) ∷ m) = any_slot_holds b obj.slots || is_stored b m

unfoldable pub end_read : ReplicaEntry → State → State
end_read r st = elim r.shared [
  | external ss id ↦ st
  | pinned b ↦
      let cs = remove_reader b st.readers in
      let st' = record st { readers = cs } in
      if is_read b cs || is_stored b st.objects then st' else release_buf b st'
]

-- The first part, under the lock: the replica and the length of the slot.
choose_in : Inner → Key → ℕ → Device → Object × ℕ → Run (Result (ReplicaEntry × ℕ))
choose_in inner key idx dst_device (obj, len) = unwrap (get_elem? obj.slots idx) >>= λ slot.
    done (elim (nearest inner dst_device slot.replicas) [
      | none ↦ err (no_replica key idx)
      | some r ↦ ok (r, len)
    ])

choose_found : Inner → Key → ℕ → Device → Result (Object × ℕ) → Run (Result (ReplicaEntry × ℕ))
choose_found inner key idx dst_device (err e) = done (err e)
choose_found inner key idx dst_device (ok o) = choose_in inner key idx dst_device o

unfoldable pub choose : Inner → State → Key → ℕ → Device → Run (Result (ReplicaEntry × ℕ))
unfolding choose_found choose_in
choose inner st key idx dst_device = choose_found inner key idx dst_device (find_slot st key idx)

unfoldable pub reply : Inner → ReplicaEntry → Result (Unit {0}) → Result RpGet
reply inner r (err e) = err e
reply inner r (ok u) = ok (record { from = location inner r.device r.tier })

module _ {W : Type 0} (engines : Engines W) (inner : Inner) where
  -- The second part: the range is tested after the replica has been cloned.
  unfoldable pub read_replica : OpGet → Device → ℕ → ReplicaEntry → ℕ → W → Run (W × Result RpGet)
  read_replica op dst_device dst_len r slot_len w =
      if is_in_range op.src_offset dst_len slot_len
      then (unwrap (
            copy engines inner r.device (segs r.shared) op.src_offset dst_device (iov_segs op.dst)
              dst_len w)
          >>= λ (w', result). done (w', reply inner r result))
      else done (w, err (outside op.src_offset dst_len slot_len))

  get_chosen :
      OpGet → Device → ℕ → State → W → Result (ReplicaEntry × ℕ) → Run (State × W × Result RpGet)
  get_chosen op dst_device dst_len st w (err e) = done (st, w, err e)
  get_chosen op dst_device dst_len st w (ok (r, slot_len)) =
      read_replica op dst_device dst_len r slot_len w >>= λ (w', result).
      done (end_read r (start_read r st), w', result)

  get_valid : Key → OpGet → State → W → Result (Device × ℕ) → Run (State × W × Result RpGet)
  get_valid key op st w (err e) = done (st, w, err e)
  get_valid key op st w (ok (dst_device, dst_len)) =
      choose inner st key op.slot dst_device >>= λ c. get_chosen op dst_device dst_len st w c

  -- A get with no other call during its copy.
  unfoldable pub get : Key → OpGet → State → W → Run (State × W × Result RpGet)
  unfolding get_chosen get_valid
  get key op st w = get_valid key op st w (validate_get op)
