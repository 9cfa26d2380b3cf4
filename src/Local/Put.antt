-- ===== src/Local/Put.antt =====
-- `Access::put` and `put_slot` of local.rs, in the phases that the lock separates: `claim`, then
-- for each slot its placement and copies, and `store` or `unclaim`.
pub mod Places
pub mod Runs
pub mod Whole
use pegastore.Prelude.{
  ℕ, ◌+◌, Bool, true, false, not, Option, none, some, List, [], ◌∷◌, ◌++◌, if◌then◌else◌, get_elem?,
  modify, Run, done, panic, unwrap, ◌>>=◌, update, ◌%◌, u64_mod,
}
use pegastore.Prelude.Order.{bytes_ord}
use pegastore.Prelude.Ordered.{lookup, insert}
use pegastore.Core.Types.{Key, Device, cpu, dec_device, dram}
use pegastore.Core.Error.{Error, Result, ok, err, new, with_context, Shown, not_found, ErrorKind}
use pegastore.Core.Ops.{PutSlot, OpPut, RpPut, put_spec, validate_put}
use pegastore.Core.Region.{Iov}
use pegastore.Memory.Place.{is_each}
use pegastore.Memory.Put.{already_written}
use pegastore.Local.Copy.{Seg, iov_segs}
use pegastore.Local.State.{PoolBuf, pinned, ReplicaEntry, Slot, State, Inner, release_buf}
use pegastore.Local.Engines.{Engines, copy}
use pegastore.Local.Evict.{alloc_or_evict}
use pegastore.Local.Targets.{claim, targets}

-- The variables of the target loop: the buffers that are placed, each with its flag.
pub record Placing : Type 0 where
  pub state : State
  pub placed : List (Bool × PoolBuf)
  pub failure : Option Error

-- The variables after one round, and whether the loop breaks.
unfoldable pub after_alloc : Bool → Bool → Placing → State × Result PoolBuf → Placing × Bool
after_alloc each misplaced p (st, ok buf) =
    (record p { state = st; placed = p.placed ++ (misplaced, buf) ∷ [] }, not each)
after_alloc each misplaced p (st, err e) = (record p { state = st; failure = some e }, each)

unfoldable pub place : Bool → ℕ → Key → List (ℕ × Bool) → Placing → Run Placing
place each len kb [] p = done p
place each len kb ((numa, misplaced) ∷ ts) p = alloc_or_evict numa len kb p.state >>= λ r.
    let (p', stop) = after_alloc each misplaced p r in
    elim stop [ true ↦ done p' | false ↦ place each len kb ts p' ]

-- The test after the loop, and its error.
unfoldable pub is_placed : Bool → Placing → Bool
is_placed each p = elim p.placed [
  | [] ↦ false
  | b ∷ bs ↦ if each then elim p.failure [ none ↦ true | some e ↦ false ] else true
]

unfoldable pub failed : Option Error → Error
failed none = new ErrorKind.no_space "no device available"
failed (some e) = e

-- The buffers that were placed are dropped with the variable that holds them.
unfoldable pub drop_placed : List (Bool × PoolBuf) → State → State
drop_placed [] st = st
drop_placed ((misplaced, b) ∷ bs) st = drop_placed bs (release_buf b st)

unfoldable pub new_replicas : List (Bool × PoolBuf) → List ReplicaEntry
new_replicas [] = []
new_replicas ((misplaced, b) ∷ bs) =
    record { device = cpu b.numa; tier = dram; misplaced = misplaced; shared = pinned b }
    ∷ new_replicas bs

unfoldable pub push_written : List ReplicaEntry → Slot → Slot
push_written rs s = record { replicas = s.replicas ++ rs; writing = false }

-- `fifo.get_mut(&d).unwrap().push_back(..)` for each device that was charged.
unfoldable pub enqueue_all : List (Bool × PoolBuf) → Key → ℕ → State → Run State
enqueue_all [] kb i st = done st
enqueue_all ((misplaced, b) ∷ bs) kb i st = do
  q ← unwrap (st.fifo (cpu b.numa))
  enqueue_all bs kb i
      (record st { fifo = update dec_device st.fifo (cpu b.numa) (some (q ++ (kb, i) ∷ [])) })

-- Phase 3; `obj.slots[i]` panics out of range.
unfoldable pub store : Key → ℕ → List (Bool × PoolBuf) → State → Run (State × Result (Unit {0}))
store kb i placed st = elim (lookup kb st.objects) [
  | none ↦ done (drop_placed placed st, err (new not_found "object removed during put"))
  | some obj ↦ unwrap (get_elem? obj.slots i) >>= λ slot.
      enqueue_all placed kb i (record st {
        objects =
            insert kb
              (record obj { slots = modify obj.slots i (push_written (new_replicas placed)) })
              st.objects;
      })
      >>= λ st'. done (st', ok tt)
]

-- `obj.slots[i].writing = false` after a slot that failed.
unfoldable pub unclaim : Key → ℕ → State → Run State
unclaim kb i st = elim (lookup kb st.objects) [
  | none ↦ done st
  | some obj ↦ unwrap (get_elem? obj.slots i) >>= λ slot. done (record st {
    objects =
        insert kb (record obj { slots = modify obj.slots i (λ s. record s { writing = false }) })
          st.objects;
  })
]

-- `ps.src[0].device()`.
unfoldable pub source_device : List Iov → Run Device
source_device [] = panic
source_device (v ∷ vs) = done v.region.device

module _ {W : Type 0} (engines : Engines W) (inner : Inner) (kb : Key) where
  -- The copy into every target; the first error ends it.
  unfoldable pub copy_all :
      Device → List Seg → ℕ → List (Bool × PoolBuf) → W → Run (W × Result (Unit {0}))
  copy_all src_dev src len [] w = done (w, ok tt)
  copy_all src_dev src len ((misplaced, b) ∷ bs) w =
      unwrap (
        copy engines inner src_dev src 0 (cpu b.numa)
          (record { addr = (b.base + b.buf.off) % u64_mod; len = len } ∷ []) len w)
      >>= λ (w', r). elim r [ err e ↦ done (w', err e) | ok u ↦ copy_all src_dev src len bs w' ]

  -- After the target loop: the copies and phase 3.
  copied : ℕ → Placing → W × Result (Unit {0}) → Run (State × W × Result (Unit {0}))
  copied i p (w, err e) = done (drop_placed p.placed p.state, w, err e)
  copied i p (w, ok u) = store kb i p.placed p.state >>= λ (st, r). done (st, w, r)

  write_placed : ℕ → PutSlot → Device → Placing → W → Run (State × W × Result (Unit {0}))
  write_placed i ps src_dev p w =
      if is_placed (is_each ps.spec.placement) p
      then (copy_all src_dev (iov_segs ps.src) ps.spec.len p.placed w >>= λ r. copied i p r)
      else done (drop_placed p.placed p.state, w, err (failed p.failure))

  place_slot :
      ℕ
      → PutSlot
      → Device
      → Result (List (ℕ × Bool))
      → State
      → W
      → Run (State × W × Result (Unit {0}))
  place_slot i ps src_dev (err e) st w = done (st, w, err e)
  place_slot i ps src_dev (ok ts) st w =
      place (is_each ps.spec.placement) ps.spec.len kb ts
        (record { state = st; placed = []; failure = none })
      >>= λ p. write_placed i ps src_dev p w

  unfoldable pub put_slot : ℕ → PutSlot → State → W → Run (State × W × Result (Unit {0}))
  unfolding copied write_placed place_slot
  put_slot i ps st w = source_device ps.src >>= λ src_dev.
      place_slot i ps src_dev (targets inner st ps.spec.placement) st w

  unfoldable pub after_slot :
      ℕ → State × W × Result (Unit {0}) → Run (State × W × Result (Unit {0}))
  after_slot i (st, w, ok u) = done (st, w, ok u)
  after_slot i (st, w, err e) =
      unclaim kb i st >>= λ st'. done (st', w, err (with_context e "slot" (Shown.number i)))

  -- One round of phase 2.
  unfoldable pub put_if : Bool → ℕ → PutSlot → State → W → Run (State × W × Result (Unit {0}))
  put_if false i ps st w = done (st, w, err (already_written i))
  put_if true i ps st w = put_slot i ps st w >>= λ r. after_slot i r

  unfoldable pub put_slots :
      List Bool → ℕ → List PutSlot → State → W → Run (State × W × List (Result (Unit {0})))
  put_slots writable i [] st w = done (st, w, [])
  put_slots writable i (ps ∷ rest) st w = unwrap (get_elem? writable i) >>= λ free.
      put_if free i ps st w >>= λ (st', w', r).
      put_slots writable (i + 1) rest st' w' >>= λ (st'', w'', rs). done (st'', w'', r ∷ rs)

  put_claimed : OpPut → State → W → Result (State × List Bool) → Run (State × W × Result RpPut)
  put_claimed op st w (err e) = done (st, w, err e)
  put_claimed op st w (ok (st', writable)) =
      put_slots writable 0 op.slots st' w >>= λ (st'', w', rs).
      done (st'', w', ok (record { slots = rs }))

  put_valid : OpPut → State → W → Result (Unit {0}) → Run (State × W × Result RpPut)
  put_valid op st w (err e) = done (st, w, err e)
  put_valid op st w (ok u) = put_claimed op st w (claim kb (put_spec op) st)

  -- A put with no other call between its phases.
  unfoldable pub put : OpPut → State → W → Run (State × W × Result RpPut)
  unfolding put_claimed put_valid
  put op st w = put_valid op st w (validate_put op)
