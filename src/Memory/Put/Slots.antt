-- ===== src/Memory/Put/Slots.antt =====
-- One slot of a put, and what becomes of it.
use pegastore.Prelude.{
  ℕ, ◌≤◌, ◌≡◌, refl, sym, ◌∙◌, ap, ◌≢◌, ◌⊎◌, Bool, true, false, Option, none, some, List, [], arith,
  All, Run, done, ◌>>=◌, inl, inr, length, get_elem?, Bool-cases, subst,
}
use pegastore.Prelude.Order.{bytes_ord}
use pegastore.Prelude.Ordered.{lookup}
use pegastore.Core.Types.{Key, Device, SlotSpec}
use pegastore.Core.Error.{Error, Result, ok, err}
use pegastore.Core.Ops.{PutSlot}
use pegastore.Memory.State.{State, Slot, Object, Inner}
use pegastore.Memory.Sound.{IsSound, All-map}
use pegastore.Memory.Room.{capacity_at, Keeps}
use pegastore.Memory.Place.{Ram, gather, candidates, is_each, Placing}
use pegastore.Memory.Put.{
  new_replicas, store_replicas, charge_all, finish_slot, failed, is_placed, put_slot,
}
use pegastore.Memory.Put.Targets.{IsOpen, Sub, place-Places}
use pegastore.Memory.Put.Debt.{debt}
use pegastore.Memory.Put.Writes.{
  written, store_replicas-done, stored-Charges, stored-capacity, stored-used, lookup-stored,
}
use pegastore.Memory.Put.Distinct.{IsPlain, IsBounded, targets-AreDistinct, debt-fits}

-- What becomes of a slot: the gathered bytes are stored on some of the candidates, one at least, or
-- the object is left alone.
abbrev pub Fate : Inner → Ram → ℕ → PutSlot → Object → Object → Result (Unit {0}) → Type 0
Fate inner ram i ps obj obj' q =
    ((ts : List (Device × Bool)) × (q ≡ ok tt)
      × (ts ≢ [])
      × Sub ts (candidates inner.device_order ps.spec.placement)
      × (obj' ≡ written obj i (gather ram ps.src) ts))
    ⊎ ((e : Error) × (q ≡ err e) × (obj' ≡ obj))

abbrev pub PutsSlot :
    Inner → Ram → Key → ℕ → PutSlot → State → Object → Run (State × Result (Unit {0})) → Type 0
PutsSlot inner ram kb i ps st obj r =
    (st' : State) × (q : Result (Unit {0})) × (obj' : Object) × (r ≡ done (st', q))
    × IsSound st'
    × (lookup kb st'.objects ≡ some obj')
    × ((d : Device) → capacity_at st' d ≡ capacity_at st d)
    × (IsPlain ps.spec.placement → IsBounded st → IsBounded st')
    × Fate inner ram i ps obj obj' q

is_placed-nonempty : (each : Bool) (p : Placing) → is_placed each p ≡ true → p.targets ≢ []
unfolding is_placed
is_placed-nonempty each p h e = ground arith

IsBounded-Keeps : (kb : Key) (st st' : State) → Keeps kb st st' → IsBounded st → IsBounded st'
IsBounded-Keeps kb st st' k b d c h = omega (arith, k.less d, b d c (sym (k.shape d) ∙ h))

failed-err : (i : ℕ) (f : Option Error) → (e : Error) × (failed i f ≡ err e)
unfolding failed
failed-err i none = (_, refl)
failed-err i (some e) = (_, refl)

module _ (inner : Inner) (ram : Ram) (kb : Key) (i : ℕ) (ps : PutSlot) (st : State) (obj : Object)
    {slot : Slot} (here : lookup kb st.objects ≡ some obj) (at : get_elem? obj.slots i ≡ some slot)
    (size : length (gather ram ps.src) ≡ ps.spec.len)
    (spec_at : get_elem? obj.spec.slots i ≡ some ps.spec) where
  fits : (p : SlotSpec) → get_elem? obj.spec.slots i ≡ some p → length (gather ram ps.src) ≡ p.len
  fits p h =
      let same : some ps.spec ≡ some p = sym spec_at ∙ h in
      let e : ps.spec ≡ p = cc in size ∙ ap (λ (x : SlotSpec). x.len) e

  finish-failed :
      (p : Placing)
      → IsSound p.state
      → Keeps kb st p.state
      → PutsSlot inner ram kb i ps st obj (done (p.state, failed i p.failure))
  finish-failed p sound keeps = (
    p.state,
    failed i p.failure,
    obj,
    refl,
    sound,
    keeps.protected ∙ here,
    keeps.shape,
    λ plain. IsBounded-Keeps kb st p.state keeps,
    let (e, h) = failed-err i p.failure in inr (e, h, refl),
  )

  finish-placed :
      (p : Placing) (ts : List (Device × Bool))
      → IsSound p.state
      → Keeps kb st p.state
      → p.targets ≡ ts
      → ts ≢ []
      → Sub ts (candidates inner.device_order ps.spec.placement)
      → (is_each ps.spec.placement ≡ false → length ts ≤ 1)
      → All (IsOpen p.state ps.spec.len) ts
      → PutsSlot inner ram kb i ps st obj (
          store_replicas kb i (new_replicas (gather ram ps.src) p.targets) p.state >>= λ st.
          charge_all p.targets kb i ps.spec.len st >>= λ st'. done (st', ok tt))
  finish-placed p ts sound keeps same some_target sub short opens =
      let bytes = gather ram ps.src in
      let here' : lookup kb p.state.objects ≡ some obj = keeps.protected ∙ here in
      let (st', e, sound', objects, shape, used) =
        stored-Charges kb i bytes ts p.state obj sound here' at fits
          (All-map _ _ ts (λ t o. o.0) opens) in
      (
        st',
        ok tt,
        written obj i bytes ts,
        rw (same, store_replicas-done kb i bytes ts p.state obj sound here' at fits, ← size) (rw e),
        sound',
        ap (lookup kb) objects ∙ lookup-stored kb i bytes ts p.state obj sound here' at fits,
        λ d.
            shape d
            ∙ stored-capacity kb i bytes ts p.state obj sound here' at fits d
            ∙ keeps.shape d,
        λ plain b d c h.
            let c_here : capacity_at p.state d ≡ some (some c) =
              sym (stored-capacity kb i bytes ts p.state obj sound here' at fits d)
              ∙ sym (shape d)
              ∙ h in
            omega (
              arith,
              used d,
              ap (λ n. debt d n ts) size,
              stored-used kb i bytes ts p.state obj sound here' at fits d,
              debt-fits p.state ps.spec.len ts
                  (targets-AreDistinct inner.device_order ps.spec.placement ts plain sub short)
                  opens (IsBounded-Keeps kb st p.state keeps b) d c c_here,
            ),
        inl (ts, refl, some_target, sub, refl),
      )

  finish-PutsSlot :
      (p : Placing) (ts : List (Device × Bool))
      → IsSound p.state
      → Keeps kb st p.state
      → p.targets ≡ ts
      → Sub ts (candidates inner.device_order ps.spec.placement)
      → (is_each ps.spec.placement ≡ false → length ts ≤ 1)
      → All (IsOpen p.state ps.spec.len) ts
      → PutsSlot inner ram kb i ps st obj (finish_slot ram kb i ps p)
  unfolding finish_slot
  finish-PutsSlot p ts sound keeps same sub short opens =
      elim (Bool-cases (is_placed (is_each ps.spec.placement) p)) [
        | inl placed ↦ rw placed (
            finish-placed p ts sound keeps same
              (subst (λ xs. xs ≢ []) same (is_placed-nonempty _ p placed)) sub short opens)
        | inr missed ↦ rw missed (finish-failed p sound keeps)
      ]

  -- In a sound state that has the object, for one of its slots and a source list as long as the
  -- slot, placing the slot returns: either the gathered bytes have been added to it as replicas on
  -- one or more of the candidates, in their order, or there is an error and the object is as it
  -- was. The invariant and all capacities hold after it, and bounded pools stay bounded if the
  -- placement lists no device twice.
  pub put_slot-PutsSlot :
      IsSound st → PutsSlot inner ram kb i ps st obj (put_slot inner ram kb i ps st)
  unfolding put_slot
  put_slot-PutsSlot sound =
      let (p, ts, e, sp, kp, targets, sub, short, opens) =
        place-Places (is_each ps.spec.placement) ps.spec.len kb
          (candidates inner.device_order ps.spec.placement)
          (record { state = st; targets = []; failure = none }) sound in
      rw e (finish-PutsSlot p ts sp kp targets sub short opens)
