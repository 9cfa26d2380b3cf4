-- ===== src/Memory/Put.antt =====
-- `Access::put` of services/memory.rs: reserve the key, place every writable slot, push replicas.
pub mod Targets
pub mod Debt
pub mod Distinct
pub mod Writes
pub mod Slots
pub mod Soundness
pub mod Total
use pegastore.Prelude.{
  ℕ, ◌+◌, Bool, true, false, Option, none, some, List, [], ◌∷◌, ◌++◌, map, if◌then◌else◌, ite,
  length, get_elem?, modify, replicate, Run, done, unwrap, ◌>>=◌,
}
use pegastore.Prelude.Order.{bytes_ord}
use pegastore.Prelude.Ordered.{lookup, insert}
use pegastore.Core.Types.{Key, Device, dec_spec, dram, ObjectSpec}
use pegastore.Core.Error.{
  Error, Result, ok, err, new, with_context, Shown, already_exists, spec_mismatch, no_space,
}
use pegastore.Core.Ops.{PutSlot, OpPut, RpPut, put_spec, validate_put}
use pegastore.Memory.State.{owned, ReplicaEntry, Slot, State, Inner, charge}
use pegastore.Memory.Place.{Ram, gather, candidates, is_each, Placing, place}

unfoldable pub is_placed : Bool → Placing → Bool
is_placed each p = elim p.targets [
  | [] ↦ false
  | t ∷ ts ↦ if each then elim p.failure [ none ↦ true | some e ↦ false ] else true
]

unfoldable pub new_replicas : List ℕ → List (Device × Bool) → List ReplicaEntry
new_replicas bytes [] = []
new_replicas bytes ((d, misplaced) ∷ ts) =
    record { device = d; tier = dram; misplaced = misplaced; bytes = owned bytes }
    ∷ new_replicas bytes ts

unfoldable pub push_replicas : List ReplicaEntry → Slot → Slot
push_replicas rs s = record s { replicas = s.replicas ++ rs }

-- `st.objects.get_mut(&kb).unwrap()`, then a write to `obj.slots[i]`.
unfoldable pub store_replicas : Key → ℕ → List ReplicaEntry → State → Run State
store_replicas kb i rs st = do
  obj ← unwrap (lookup kb st.objects)
  slot ← unwrap (get_elem? obj.slots i)
  done (record st {
    objects = insert kb (record obj { slots = modify obj.slots i (push_replicas rs) }) st.objects;
  })

unfoldable pub charge_all : List (Device × Bool) → Key → ℕ → ℕ → State → Run State
charge_all [] kb i len st = done st
charge_all ((d, misplaced) ∷ ts) kb i len st =
    charge d kb i len st >>= λ st'. charge_all ts kb i len st'

unfoldable pub failed : ℕ → Option Error → Result (Unit {0})
failed i none = err (with_context (new no_space "no device available") "slot" (Shown.number i))
failed i (some e) = err (with_context e "slot" (Shown.number i))

unfoldable pub finish_slot : Ram → Key → ℕ → PutSlot → Placing → Run (State × Result (Unit {0}))
finish_slot ram kb i ps p =
    if is_placed (is_each ps.spec.placement) p
    then (store_replicas kb i (new_replicas (gather ram ps.src) p.targets) p.state >>= λ st.
        charge_all p.targets kb i ps.spec.len st >>= λ st'. done (st', ok tt))
    else done (p.state, failed i p.failure)

-- One writable slot.
unfoldable pub put_slot : Inner → Ram → Key → ℕ → PutSlot → State → Run (State × Result (Unit {0}))
put_slot inner ram kb i ps st = do
  p ←
      place (is_each ps.spec.placement) ps.spec.len kb
        (candidates inner.device_order ps.spec.placement)
        (record { state = st; targets = []; failure = none })
  finish_slot ram kb i ps p

unfoldable pub already_written : ℕ → Error
already_written i = with_context (new already_exists "slot already written") "slot" (Shown.number i)

unfoldable pub put_if :
    Bool → Inner → Ram → Key → ℕ → PutSlot → State → Run (State × Result (Unit {0}))
put_if false inner ram kb i ps st = done (st, err (already_written i))
put_if true inner ram kb i ps st = put_slot inner ram kb i ps st

-- One round of phase 2.
unfoldable pub put_one :
    Inner → Ram → Key → List Bool → ℕ → PutSlot → State → Run (State × Result (Unit {0}))
put_one inner ram kb writable i ps st =
    unwrap (get_elem? writable i) >>= λ w. put_if w inner ram kb i ps st

unfoldable pub put_slots :
    Inner
    → Ram
    → Key
    → List Bool
    → ℕ
    → List PutSlot
    → State
    → Run (State × List (Result (Unit {0})))
put_slots inner ram kb writable i [] st = done (st, [])
put_slots inner ram kb writable i (ps ∷ rest) st =
    put_one inner ram kb writable i ps st >>= λ (st', r).
    put_slots inner ram kb writable (i + 1) rest st' >>= λ (st'', rs). done (st'', r ∷ rs)

unfoldable pub is_vacant : Slot → Bool
is_vacant s = elim s.replicas [ [] ↦ true | r ∷ rs ↦ false ]

-- Phase 1: the state with the key reserved, and which slots are writable.
unfoldable pub reserve : Key → ObjectSpec → State → Result (State × List Bool)
reserve kb spec st = elim (lookup kb st.objects) [
  | some obj ↦ ite (dec_spec obj.spec spec) (ok (st, map is_vacant obj.slots)) (
      err (
        with_context (new spec_mismatch "existing object has a different spec") "key"
          (Shown.key kb)))
  | none ↦ ok (
    record st {
      objects =
          insert kb
            (record {
              spec = spec;
              slots = replicate (length spec.slots) (record { replicas = [] });
            })
            st.objects;
    },
    replicate (length spec.slots) true,
  )
]

unfoldable pub put_reserved :
    Inner → Ram → Key → OpPut → State → Result (State × List Bool) → Run (State × Result RpPut)
put_reserved inner ram key op st (err e) = done (st, err e)
put_reserved inner ram key op st (ok (st', writable)) =
    put_slots inner ram key writable 0 op.slots st' >>= λ (st'', rs).
    done (st'', ok (record { slots = rs }))

unfoldable pub put_valid :
    Inner → Ram → Key → OpPut → State → Result (Unit {0}) → Run (State × Result RpPut)
put_valid inner ram key op st (err e) = done (st, err e)
put_valid inner ram key op st (ok u) =
    put_reserved inner ram key op st (reserve key (put_spec op) st)

unfoldable pub put : Inner → Ram → Key → OpPut → State → Run (State × Result RpPut)
put inner ram key op st = put_valid inner ram key op st (validate_put op)
