-- ===== src/Memory/Lifecycle/Publish.antt =====
-- Publishing in a sound state.
use pegastore.Prelude.{
  ℕ, ◌≡◌, refl, sym, ◌∙◌, ap, none, some, List, [], ◌∷◌, arith, All-append, Run, done, unwrap,
  ◌>>=◌, inl, inr, length, get_elem?, get_elem?-lt, lt_of_get_elem?, length-modify, modify,
  Option-cases, Bool-cases, ==_iff, ◌==◌,
}
use pegastore.Prelude.Order.{bytes_ord}
use pegastore.Prelude.Ordered.{lookup, insert, All-lookup, All-insert}
use pegastore.Prelude.Sorted.{insert-IsSorted}
use pegastore.Core.Types.{Key, Device, SlotSpec}
use pegastore.Core.Error.{Error, Result, Result-cases, ok, err}
use pegastore.Core.Region.{Iov}
use pegastore.Core.Ops.{OpPublish, validate_publish}
use pegastore.Core.Ops.Validation.{IsGather, total_len, validate_iovs_sound}
use pegastore.Memory.State.{State, Slot, Object, data_len, segs_len}
use pegastore.Memory.Evict.{freed, replica_bytes}
use pegastore.Memory.Measure.{owned_on, owned_on-insert, slots_bytes-modify, freed-append}
use pegastore.Memory.Sound.{
  IsSound, IsInRange-insert, All-map, IsAligned, IsAligned-modify, IsAligned-length,
}
use pegastore.Memory.Put.{push_replicas}
use pegastore.Memory.Get.{find_slot, no_key, bad_slot}
use pegastore.Memory.Get.Reads.{find_slot-found}
use pegastore.Memory.Lifecycle.{
  published, publish, source_segs, push_published, publish_found, publish_valid, first_region,
  length_differs,
}

segs_len-source_segs : (vs : List Iov) → segs_len (source_segs vs) ≡ total_len vs
unfolding segs_len source_segs
segs_len-source_segs [] = refl
segs_len-source_segs (v ∷ vs) = omega (arith, segs_len-source_segs vs)

-- A publish returns, and keeps the invariant and all pools.
abbrev pub Publishes : State → Run (State × Result (Unit {0})) → Type 0
Publishes st r =
    (st' : State) × (q : Result (Unit {0})) × (r ≡ done (st', q))
    × IsSound st'
    × (st'.pools ≡ st.pools)
    × ((d : Device) → owned_on d st'.objects ≡ owned_on d st.objects)

refused : (st : State) (e : Error) → IsSound st → Publishes st (done (st, err e))
refused st e v = (st, err e, refl, v, refl, λ d. refl)

module _ (st : State) (key : Key) (op : OpPublish) (device : Device) (total : ℕ) (id : ℕ)
    (obj : Object) (slot : Slot) (spec : SlotSpec) (v : IsSound st)
    (here : lookup key st.objects ≡ some obj) (at : get_elem? obj.slots op.slot ≡ some slot)
    (spec_at : get_elem? obj.spec.slots op.slot ≡ some spec) (sum : total_len op.src ≡ total)
    (fits : spec.len ≡ total) where
  pushed : Object
  pushed = record obj {
    slots = modify obj.slots op.slot (push_replicas (published device op.src id ∷ []));
  }

  external_free : (d : Device) → freed d (published device op.src id ∷ []) ≡ 0
  unfolding freed replica_bytes published
  external_free d = ground arith

  pushed-length : length pushed.slots ≡ length obj.slots
  unfolding pushed
  pushed-length = length-modify obj.slots op.slot _

  pushed-bytes : (d : Device) → owned_on d (insert key pushed st.objects) ≡ owned_on d st.objects
  unfolding pushed push_replicas
  pushed-bytes d = omega (
    arith,
    owned_on-insert d key obj pushed st.objects here,
    slots_bytes-modify d obj.slots op.slot (push_replicas (published device op.src id ∷ [])) at,
    freed-append d slot.replicas (published device op.src id ∷ []),
    external_free d,
  )

  pushed-IsAligned : IsAligned pushed.slots obj.spec.slots
  unfolding pushed push_replicas published data_len
  pushed-IsAligned =
      IsAligned-modify obj.slots obj.spec.slots op.slot
        (push_replicas (published device op.src id ∷ [])) (All-lookup _ key st.objects v.fit here)
        λ s p _ h old. All-append _ s.replicas _ old (
          (let same : some spec ≡ some p = sym spec_at ∙ h in
              let e : spec ≡ p = cc in
              segs_len-source_segs op.src ∙ sum ∙ sym fits ∙ ap (λ (x : SlotSpec). x.len) e),
          tt,
        )

  pushed-IsSound : IsSound (record st { objects = insert key pushed st.objects })
  unfolding pushed
  pushed-IsSound = record {
    sorted = insert-IsSorted key pushed st.objects v.sorted;
    fit = All-insert _ key pushed st.objects v.fit pushed-IsAligned;
    accounted = λ d p h. v.accounted d p h ∙ sym (pushed-bytes d);
    queued = λ d p h.
        All-map _ _ p.fifo (λ e. IsInRange-insert key obj pushed st.objects e here pushed-length)
          (v.queued d p h);
  }

  pushed-Publishes :
      (ms : Run ℕ)
      → ms ≡ done id
      → Publishes st (
          ms >>= λ i. unwrap (get_elem? obj.slots op.slot) >>= λ s. done (
            record st {
              objects =
                  insert key
                    (record obj {
                      slots =
                          modify obj.slots op.slot (push_replicas (published device op.src i ∷ []));
                    })
                    st.objects;
            },
            ok tt,
          ))
  unfolding pushed
  pushed-Publishes ms e = (
    record st { objects = insert key pushed st.objects },
    ok tt,
    rw e (rw at refl),
    pushed-IsSound,
    refl,
    pushed-bytes,
  )

first_region-done :
    (vs : List Iov) (d : Device) (n : ℕ) → IsGather vs d n → (id : ℕ) × (first_region vs ≡ done id)
unfolding first_region
first_region-done [] d n g = absurd g
first_region-done (v ∷ vs) d n g = (v.region.id, refl)

IsGather-total : (vs : List Iov) (d : Device) (n : ℕ) → IsGather vs d n → total_len vs ≡ n
IsGather-total [] d n g = absurd g
IsGather-total (v ∷ vs) d n g = sym g.2

module _ (st : State) (key : Key) (op : OpPublish) (d : Device) (n : ℕ) (v : IsSound st)
    (g : IsGather op.src d n) where
  found-Publishes :
      (obj : Object) (spec : SlotSpec)
      → lookup key st.objects ≡ some obj
      → get_elem? obj.spec.slots op.slot ≡ some spec
      → Publishes st (push_published st key op d n (obj, spec.len))
  unfolding push_published
  found-Publishes obj spec here spec_at = elim (Bool-cases (spec.len == n)) [
    | inl t ↦
        let (slot, at) = get_elem?-lt obj.slots op.slot (
          omega (
            arith,
            lt_of_get_elem? obj.spec.slots op.slot spec_at,
            IsAligned-length obj.slots obj.spec.slots (All-lookup _ key st.objects v.fit here),
          )) in
        let (id, first) = first_region-done op.src d n g in
        rw t (
          pushed-Publishes st key op d n id obj slot spec v here at spec_at
            (IsGather-total op.src d n g) ((==_iff spec.len n).0 t) (first_region op.src) first)
    | inr f ↦ rw f (refused st (length_differs op.slot n spec.len) v)
  ]

  slot-Publishes : Publishes st (publish_found st key op d n (find_slot st key op.slot))
  unfolding publish_found find_slot
  slot-Publishes = elim (Option-cases (lookup key st.objects)) [
    | inl gone ↦ rw (find_slot, gone) (refused st (no_key key) v)
    | inr (obj, here) ↦ elim (Option-cases (get_elem? obj.spec.slots op.slot)) [
      | inl missing ↦ rw (find_slot, here) (rw missing (refused st (bad_slot op.slot) v))
      | inr (spec, spec_at) ↦
          rw (find_slot-found st key op.slot obj spec here spec_at)
            (found-Publishes obj spec here spec_at)
    ]
  ]

-- In a sound state a call of `publish` returns, whatever its arguments; the state after it is sound,
-- all pools are as they were, and so are the owned bytes on every device.
pub publish-Publishes :
    (key : Key) (op : OpPublish) (st : State) → IsSound st → Publishes st (publish key op st)
unfolding publish publish_valid validate_publish
publish-Publishes key op st v = elim (Result-cases (validate_publish op)) [
  | inl ((d, n), h) ↦
      rw h (slot-Publishes st key op d n v (validate_iovs_sound op.src none d n h).0)
  | inr (e, h) ↦ rw h (refused st e v)
]
