-- ===== src/Memory/Get/Reads.antt =====
-- Reads in a sound state.
use pegastore.Prelude.{
  ap, sym, u64_mod, ◌<◌, subst, ℕ, ◌+◌, ◌≤◌, ◌≡◌, refl, ◌⊎◌, none, some, [], arith, All, Run, done,
  inl, inr, length, get_elem?, get_elem?-lt, lt_of_get_elem?, take, drop, length-take, length-drop,
  Option-cases, Bool-cases,
}
use pegastore.Prelude.Order.{bytes_ord}
use pegastore.Prelude.Ordered.{lookup, All-lookup}
use pegastore.Core.Types.{Key, Device, SlotSpec}
use pegastore.Core.Error.{Error, Result, ok, err, Result-cases}
use pegastore.Core.Ops.{OpGet, RpGet, validate_get}
use pegastore.Core.Ops.Validation.{total_len, IsGather, validate_iovs_sound}
use pegastore.Memory.State.{State, Slot, Object, Inner, ReplicaEntry, data_len, location}
use pegastore.Memory.Sound.{IsSound, IsAligned, IsAligned-length}
use pegastore.Memory.Place.{Ram}
use pegastore.Memory.Get.Choice.{IsFirstNearest, nearest-IsFirstNearest}
use pegastore.Memory.Get.Bytes.{
  bytes_of, store_all, iov_addresses, read-bytes_of, length-bytes_of, scatter-store_all,
}
use pegastore.Memory.Get.{
  nearest, find_slot, is_in_range, copy_out, get_from, get_slot, get_valid, get, no_replica,
  outside, no_key, bad_slot,
}
use pegastore.Memory.Get.Found.{
  IsAligned-get_elem?, IsGather-total, out_of_range, nearest-none, in_range_le, nearest-All,
}

-- Why a call of `get` is refused: its destination list, its key, its slot, its range, or the lack of
-- a replica.
abbrev pub IsRefused : State → Key → OpGet → Type 0
IsRefused st kb op =
    ((e : Error) × (validate_get op ≡ err e))
    ⊎ ((lookup kb st.objects ≡ none)
        ⊎ ((obj : Object) × (lookup kb st.objects ≡ some obj)
            × ((get_elem? obj.spec.slots op.slot ≡ none)
                ⊎ ((slot : Slot) × (spec : SlotSpec) × (d : Device) × (n : ℕ) × (get_elem? obj.slots
                        op.slot
                      ≡ some slot)
                    × (get_elem? obj.spec.slots op.slot ≡ some spec)
                    × IsGather op.dst d n
                    × ((spec.len < op.src_offset + n)
                        ⊎ ((u64_mod ≤ op.src_offset + n) ⊎ (slot.replicas ≡ [])))))))

-- What a call of `get` comes to: an error for a reason, and the memory is as it was; or the bytes of the first of
-- the slot's nearest replicas, from the offset on and as many as the destination holds, which are
-- all there, are in the destination, one at each of its addresses in order.
abbrev pub Gets : Inner → State → Ram → Key → OpGet → Run (Ram × Result RpGet) → Type 0
Gets inner st ram kb op r =
    ((e : Error) × (r ≡ done (ram, err e)) × IsRefused st kb op)
    ⊎ ((d : Device) × (n : ℕ) × (obj : Object) × (slot : Slot) × (rep : ReplicaEntry) × IsGather
          op.dst d n
        × (lookup kb st.objects ≡ some obj)
        × (get_elem? obj.slots op.slot ≡ some slot)
        × IsFirstNearest inner d slot.replicas rep
        × (op.src_offset + n ≤ length (bytes_of ram rep.bytes))
        × (r
            ≡ done (
              store_all (iov_addresses op.dst)
                  (take n (drop op.src_offset (bytes_of ram rep.bytes))) ram,
              ok (record { from = location inner rep.device rep.tier }),
            )))

module _ (inner : Inner) (st : State) (ram : Ram) (kb : Key) (op : OpGet) (d : Device) (n : ℕ)
    (g : IsGather op.dst d n) (obj : Object) (here : lookup kb st.objects ≡ some obj) where
  from-Gets :
      (slot : Slot) (spec : SlotSpec)
      → get_elem? obj.slots op.slot ≡ some slot
      → get_elem? obj.spec.slots op.slot ≡ some spec
      → All (λ r. data_len r.bytes ≡ spec.len) slot.replicas
      → op.src_offset + n ≤ spec.len
      → Gets inner st ram kb op (get_from inner ram kb op d n slot)
  unfolding get_from copy_out
  from-Gets slot spec at spec_at sizes fits = elim (Option-cases (nearest inner d slot.replicas)) [
    | inl nowhere ↦ inl (
      no_replica kb op.slot,
      rw (get_from, nowhere) refl,
      inr (
          inr (
            obj,
            here,
            inr (
              slot,
              spec,
              d,
              n,
              at,
              spec_at,
              g,
              inr (inr (nearest-none inner d slot.replicas nowhere)),
            ),
          )),
    )
    | inr (rep, chosen) ↦
        let size : data_len rep.bytes ≡ spec.len =
          nearest-All (λ r. data_len r.bytes ≡ spec.len) inner d slot.replicas rep chosen sizes in
        let wanted = take n (drop op.src_offset (bytes_of ram rep.bytes)) in
        let fit : op.src_offset + n ≤ data_len rep.bytes = omega arith in
        let there : op.src_offset + n ≤ length (bytes_of ram rep.bytes) =
          omega (arith, length-bytes_of ram rep.bytes) in
        let long : total_len op.dst ≤ length wanted = omega (
          arith,
          length-take n (drop op.src_offset (bytes_of ram rep.bytes)),
          length-drop op.src_offset (bytes_of ram rep.bytes),
          IsGather-total op.dst d n g,
        ) in
        inr (
          d,
          n,
          obj,
          slot,
          rep,
          g,
          here,
          at,
          nearest-IsFirstNearest inner d slot.replicas rep chosen,
          there,
          rw (get_from, chosen)
              (rw (copy_out, read-bytes_of ram rep.bytes op.src_offset n fit)
                (rw (scatter-store_all wanted op.dst ram long) refl)),
        )
  ]

  slot-Gets :
      (spec : SlotSpec)
      → IsAligned obj.slots obj.spec.slots
      → get_elem? obj.spec.slots op.slot ≡ some spec
      → Gets inner st ram kb op (get_slot inner ram kb op d n (ok (obj, spec.len)))
  unfolding get_slot
  slot-Gets spec fit spec_at =
      let (slot, at) = get_elem?-lt obj.slots op.slot (
        omega (
          arith,
          lt_of_get_elem? obj.spec.slots op.slot spec_at,
          IsAligned-length obj.slots obj.spec.slots fit,
        )) in
      elim (Bool-cases (is_in_range op.src_offset n spec.len)) [
        | inl t ↦
            rw (get_slot, t)
              (rw at (
                from-Gets slot spec at spec_at
                  (IsAligned-get_elem? obj.slots obj.spec.slots op.slot fit at spec_at)
                  (in_range_le op.src_offset n spec.len t)))
        | inr f ↦ inl (
          outside op.src_offset n spec.len,
          rw (get_slot, f) refl,
          inr (
              inr (
                obj,
                here,
                inr (
                  slot,
                  spec,
                  d,
                  n,
                  at,
                  spec_at,
                  g,
                  elim (out_of_range op.src_offset n spec.len f) [
                    | inl far ↦ inl far
                    | inr wrapped ↦ inr (inl wrapped)
                  ],
                ),
              )),
        )
      ]

pub find_slot-found :
    (st : State) (kb : Key) (i : ℕ) (obj : Object) (spec : SlotSpec)
    → lookup kb st.objects ≡ some obj
    → get_elem? obj.spec.slots i ≡ some spec
    → find_slot st kb i ≡ ok (obj, spec.len)
unfolding find_slot
find_slot-found st kb i obj spec here at = rw (find_slot, here) (rw at refl)

module _ (inner : Inner) (st : State) (ram : Ram) (kb : Key) (op : OpGet) where
  found-Gets :
      (d : Device) (n : ℕ)
      → IsSound st
      → IsGather op.dst d n
      → Gets inner st ram kb op (get_slot inner ram kb op d n (find_slot st kb op.slot))
  unfolding find_slot get_slot
  found-Gets d n v g = elim (Option-cases (lookup kb st.objects)) [
    | inl gone ↦ inl (no_key kb, rw (find_slot, gone) refl, inr (inl gone))
    | inr (obj, here) ↦ elim (Option-cases (get_elem? obj.spec.slots op.slot)) [
      | inl missing ↦ inl (
        bad_slot op.slot,
        rw (find_slot, here) (rw missing refl),
        inr (inr (obj, here, inl missing)),
      )
      | inr (spec, spec_at) ↦ rw (find_slot-found st kb op.slot obj spec here spec_at) (
          slot-Gets inner st ram kb op d n g obj here spec (All-lookup _ kb st.objects v.fit here)
            spec_at)
    ]
  ]

  -- In a sound state a call of `get` returns, whatever its arguments: either with an error, because
  -- its destination list is not valid, its key or its slot is not there, its range exceeds the slot
  -- or 64 bits, or the slot has no replica, and the memory is as it was; or with the location of the first of the slot's nearest replicas, and the
  -- memory differs by its bytes: those from the offset on, as many as the destination holds, one
  -- stored at each address of the destination list, in order.
  pub get-Gets : IsSound st → Gets inner st ram kb op (get inner st ram kb op)
  unfolding get get_valid validate_get
  get-Gets v = elim (Result-cases (validate_get op)) [
    | inl ((d, n), h) ↦
        subst (Gets inner st ram kb op) (sym (ap (get_valid inner st ram kb op) h))
          (found-Gets d n v (validate_iovs_sound op.dst none d n h).0)
    | inr (e, h) ↦ inl (e, ap (get_valid inner st ram kb op) h, inl (e, h))
  ]
