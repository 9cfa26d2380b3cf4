-- ===== src/Memory/Put/Total.antt =====
-- A whole put: check, reservation, slots.
use pegastore.Prelude.{
  ℕ, zero, suc, ◌+◌, ◌<◌, ◌≡◌, refl, sym, ◌∙◌, ap, ◌⊎◌, Bool, true, false, none, some, List, [],
  ◌∷◌, arith, All, Run, done, inl, inr, length, length-append, length-replicate, replicate, map,
  Option-cases, ite, get_elem?,
}
use pegastore.Prelude.Order.{bytes_ord}
use pegastore.Prelude.Ordered.{lookup, insert, All-insert, All-lookup, total-insert_new}
use pegastore.Prelude.Sorted.{insert-IsSorted, lookup-insert_self}
use pegastore.Core.Types.{Key, Device, SlotSpec, ObjectSpec, dec_spec}
use pegastore.Core.Region.{Iov}
use pegastore.Core.Error.{
  Error, Result-cases, with_context, new, spec_mismatch, Shown, Result, ok, err,
}
use pegastore.Core.Ops.{PutSlot, OpPut, RpPut, put_spec, validate_put}
use pegastore.Core.Ops.Validation.{total_len, IsGather, Fills, validate_put-ok_iff}
use pegastore.Memory.State.{State, Slot, Object, Inner, Pool, used_on}
use pegastore.Memory.Measure.{slots_bytes, slots_bytes-replicate}
use pegastore.Memory.Sound.{IsSound, All-map, IsAligned, IsAligned-length}
use pegastore.Memory.Room.{capacity_at}
use pegastore.Memory.Place.{Ram, gather, read_bytes}
use pegastore.Memory.Put.{reserve, put_reserved, put_valid, put, is_vacant}
use pegastore.Memory.Put.Distinct.{IsPlain, IsBounded}
use pegastore.Memory.Put.Soundness.{put_slots-Puts}

length-read_bytes : (ram : Ram) (p n : ℕ) → length (read_bytes ram p n) ≡ n
unfolding read_bytes
length-read_bytes ram p zero = refl
length-read_bytes ram p (suc n) = ap suc (length-read_bytes ram (p + 1) n)

pub length-gather : (ram : Ram) (vs : List Iov) → length (gather ram vs) ≡ total_len vs
unfolding gather
length-gather ram [] = refl
length-gather ram (v ∷ vs) = omega (
  arith,
  length-append (read_bytes ram _ v.len) (gather ram vs),
  length-read_bytes ram _ v.len,
  length-gather ram vs,
)

Fills-size : (ram : Ram) (s : PutSlot) → Fills s → length (gather ram s.src) ≡ s.spec.len
Fills-size ram s (d, g) = go s.src g
  where
    go : (vs : List Iov) → IsGather vs d s.spec.len → length (gather ram vs) ≡ s.spec.len
    go [] g = absurd g
    go (v ∷ vs) (h, inside, sum, small) = length-gather ram (v ∷ vs) ∙ sym sum

-- No queue has a left-over entry that the object, when it is new, would be too short for.
abbrev pub CanReserve : Key → ℕ → State → Type 0
CanReserve kb n st =
    lookup kb st.objects ≡ none
    → (d : Device) (p : Pool) → st.pools d ≡ some p
    → All (λ e. kb ≡ e.0 → e.1 < n) p.fifo

abbrev fresh : ObjectSpec → Object
fresh spec = record {
  spec = spec;
  slots = replicate (length spec.slots) (record { replicas = [] });
}

fresh-length : (spec : ObjectSpec) → length (fresh spec).slots ≡ length spec.slots
fresh-length spec = length-replicate (length spec.slots) _

IsAligned-fresh :
    (ps : List SlotSpec) → IsAligned (replicate (length ps) (record { replicas = [] })) ps
IsAligned-fresh [] = tt
IsAligned-fresh (p ∷ ps) = (tt, IsAligned-fresh ps)

-- What the reservation comes to: the object is there with the wanted spec, and nothing else has
-- moved.
abbrev pub Reserves : Key → ObjectSpec → State → Result (State × List Bool) → Type 0
Reserves kb spec st r =
    ((e : Error) × (r ≡ err e))
    ⊎ ((st' : State) × (w : List Bool) × (obj : Object) × (r ≡ ok (st', w))
        × IsSound st'
        × (lookup kb st'.objects ≡ some obj)
        × (obj.spec ≡ spec)
        × (length w ≡ length spec.slots)
        × ((d : Device) → capacity_at st' d ≡ capacity_at st d)
        × (IsBounded st → IsBounded st')
        × ((old : Object)
            → lookup kb st.objects ≡ some old
            → (obj ≡ old) × (w ≡ map is_vacant old.slots)))

All-both :
    {A : Type 0} (P Q R : A → Type 0) (xs : List A)
    → ((x : A) → P x → Q x → R x)
    → All P xs
    → All Q xs
    → All R xs
All-both P Q R [] f a b = tt
All-both P Q R (x ∷ xs) f a b = (f x a.0 b.0, All-both P Q R xs f a.1 b.1)

fresh-IsSound :
    (kb : Key) (spec : ObjectSpec) (st : State)
    → IsSound st
    → lookup kb st.objects ≡ none
    → CanReserve kb (length spec.slots) st
    → IsSound (record st { objects = insert kb (fresh spec) st.objects })
fresh-IsSound kb spec st v h c = record {
  sorted = insert-IsSorted kb _ st.objects v.sorted;
  fit = All-insert _ kb _ st.objects v.fit (IsAligned-fresh spec.slots);
  accounted = λ d p e. omega (
    arith,
    v.accounted d p e,
    total-insert_new (λ (o : Object). slots_bytes d o.slots) kb (fresh spec) st.objects h,
    slots_bytes-replicate d (length spec.slots),
  );
  queued = λ d p e.
      All-both _ _ _ p.fifo
        (λ x a b. All-insert _ kb _ st.objects a (λ k. omega (arith, b k, fresh-length spec)))
        (v.queued d p e) (c h d p e);
}

length-map_vacant : (ss : List Slot) → length (map is_vacant ss) ≡ length ss
length-map_vacant [] = refl
length-map_vacant (s ∷ ss) = ap suc (length-map_vacant ss)

spec_conflict : Key → Error
spec_conflict kb =
    with_context (new spec_mismatch "existing object has a different spec") "key" (Shown.key kb)

reserve-found :
    (kb : Key) (spec : ObjectSpec) (st : State) (obj : Object)
    → lookup kb st.objects ≡ some obj
    → reserve kb spec st
      ≡ ite (dec_spec obj.spec spec) (ok (st, map is_vacant obj.slots)) (err (spec_conflict kb))
unfolding reserve spec_conflict
reserve-found kb spec st obj h = rw (reserve, h) refl

reserve-Reserves :
    (kb : Key) (spec : ObjectSpec) (st : State)
    → IsSound st
    → CanReserve kb (length spec.slots) st
    → Reserves kb spec st (reserve kb spec st)
unfolding reserve capacity_at used_on
reserve-Reserves kb spec st v c = elim (Option-cases (lookup kb st.objects)) [
  | inl h ↦ inr (
    record st { objects = insert kb (fresh spec) st.objects },
    replicate (length spec.slots) true,
    fresh spec,
    rw (reserve, h) refl,
    fresh-IsSound kb spec st v h c,
    lookup-insert_self kb (fresh spec) st.objects,
    refl,
    length-replicate (length spec.slots) true,
    λ d. refl,
    λ b d n e. b d n e,
    λ old e. absurd (let e2 : none ≡ some old = sym h ∙ e in cc),
  )
  | inr (obj, h) ↦ rw (reserve-found kb spec st obj h) (found obj _ h (dec_spec obj.spec spec))
]
  where
    found :
        (obj : Object) (x : Error)
        → lookup kb st.objects ≡ some obj
        → (same : Dec (obj.spec ≡ spec))
        → Reserves kb spec st (ite same (ok (st, map is_vacant obj.slots)) (err x))
    found obj x h (yes same) = inr (
      st,
      map is_vacant obj.slots,
      obj,
      refl,
      v,
      h,
      same,
      length-map_vacant obj.slots
          ∙ IsAligned-length obj.slots obj.spec.slots (All-lookup _ kb st.objects v.fit h)
          ∙ ap (λ (y : ObjectSpec). length y.slots) same,
      λ d. refl,
      λ b. b,
      λ old e.
          (let e' : obj ≡ old = (let e2 : some obj ≡ some old = sym h ∙ e in cc) in
            (e', ap (λ (y : Object). map is_vacant y.slots) e')),
    )
    found obj x h (no other) = inl (_, refl)

-- Slots that had replicas before the call.
abbrev pub KeepsWritten : Key → State → State → Type 0
KeepsWritten kb st st' =
    (old : Object) (j : ℕ) (s : Slot)
    → lookup kb st.objects ≡ some old
    → get_elem? old.slots j ≡ some s
    → is_vacant s ≡ false
    → (obj : Object) × (lookup kb st'.objects ≡ some obj) × (get_elem? obj.slots j ≡ some s)

get_elem?-map_vacant :
    (ss : List Slot) (j : ℕ) (s : Slot)
    → get_elem? ss j ≡ some s
    → get_elem? (map is_vacant ss) j ≡ some (is_vacant s)
get_elem?-map_vacant [] j s h = absurd (ground arith)
get_elem?-map_vacant (x ∷ ss) zero s h =
    (let e : x ≡ s = cc in ap (λ (y : Slot). some (is_vacant y)) e)
get_elem?-map_vacant (x ∷ ss) (suc j) s h = get_elem?-map_vacant ss j s h

length-specs : (op : OpPut) → length (put_spec op).slots ≡ length op.slots
unfolding put_spec
length-specs op = go op.slots
  where
    go : (ss : List PutSlot) → length (map (λ s. s.spec) ss) ≡ length ss
    go [] = refl
    go (s ∷ ss) = ap suc (go ss)

-- What a call of `put` comes to.
abbrev pub PutsObject : Key → OpPut → State → Run (State × Result RpPut) → Type 0
PutsObject kb op st r =
    (st' : State) × (q : Result RpPut) × (r ≡ done (st', q))
    × IsSound st'
    × ((d : Device) → capacity_at st' d ≡ capacity_at st d)
    × (All (λ s. IsPlain s.spec.placement) op.slots → IsBounded st → IsBounded st')
    × KeepsWritten kb st st'

stays :
    (kb : Key) (op : OpPut) (st : State) (e : Error)
    → IsSound st
    → PutsObject kb op st (done (st, err e))
stays kb op st e v = (st, err e, refl, v, λ d. refl, λ p b. b, λ old j s h at full. (old, h, at))

module _ (inner : Inner) (ram : Ram) (kb : Key) (op : OpPut) (st : State) where
  reserved-PutsObject :
      (r : Result (State × List Bool))
      → IsSound st
      → All Fills op.slots
      → Reserves kb (put_spec op) st r
      → PutsObject kb op st (put_reserved inner ram kb op st r)
  unfolding put_reserved put_spec
  reserved-PutsObject r v fills (inl (e, h)) = rw h (stays kb op st e v)
  reserved-PutsObject r v fills (inr (st1, w, obj, h, v1, here, spec, wide, shape, bound, old)) =
      let (st2, qs, obj2, e2, v2, here2, spec2, shape2, bound2, same2) =
        put_slots-Puts inner ram kb w 0 op.slots st1 obj v1 here
          (All-map _ _ op.slots (Fills-size ram) fills) (ap (λ (y : ObjectSpec). y.slots) spec)
          (wide ∙ ap (λ (y : ObjectSpec). length y.slots) (sym spec)) in
      (
        st2,
        ok (record { slots = qs }),
        rw h (rw e2 refl),
        v2,
        λ d. shape2 d ∙ shape d,
        λ plain b. bound2 plain (bound b),
        λ o j s was at full. (
          obj2,
          here2,
          same2 j (
                ap (λ ws. get_elem? ws j) (old o was).1
                ∙ get_elem?-map_vacant o.slots j s at
                ∙ ap some full)
              ∙ ap (λ (y : Object). get_elem? y.slots j) (old o was).0
              ∙ at,
        ),
      )

  -- In a sound state where a new key has no left-over queue entries that it is too short for, a
  -- call of `put` returns, whatever its arguments; the invariant and all capacities hold after it,
  -- and every slot of the object that had replicas keeps exactly those. If in addition no placement
  -- lists a device twice and every pool was within its capacity, every pool still is.
  pub put-PutsObject :
      IsSound st → CanReserve kb (length op.slots) st → PutsObject kb op st (put inner ram kb op st)
  unfolding put put_valid
  put-PutsObject v c = elim (Result-cases (validate_put op)) [
    | inl (u, h) ↦ rw h (
        reserved-PutsObject (reserve kb (put_spec op) st) v ((validate_put-ok_iff op).0 h).1 (
          reserve-Reserves kb (put_spec op) st v λ none_here d p e.
            All-map _ _ p.fifo (λ x b k. omega (arith, b k, length-specs op)) (c none_here d p e)))
    | inr (e, h) ↦ rw h (stays kb op st e v)
  ]
