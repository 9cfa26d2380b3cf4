-- ===== src/Local/Get/Reads.antt =====
-- What `Access::get` of local.rs comes to in a sound state.
use pegastore.Prelude.{
  ℕ, zero, suc, ◌+◌, ◌≤◌, ◌≡◌, refl, true, false, none, some, List, [], ◌∷◌, arith, length,
  get_elem?, All, Run, done, Bool-cases, Option-cases, inl, inr, ◌⊎◌, subst, length-append, take,
  drop,
}
use pegastore.Prelude.Order.{bytes_ord}
use pegastore.Prelude.Ordered.{lookup, All-lookup}
use pegastore.Core.Types.{Key, Device, SlotSpec}
use pegastore.Core.Error.{Error, Result, ok, err, Result-cases}
use pegastore.Core.Region.{Iov, as_ptr}
use pegastore.Core.Ops.{OpGet, RpGet, validate_get}
use pegastore.Core.Ops.Validation.{IsGather, total_len, validate_iovs_sound}
use pegastore.Memory.Get.{is_in_range, no_key, bad_slot, no_replica, outside}
use pegastore.Local.Copy.{iov_segs}
use pegastore.Local.Copy.Pairs.{addresses, seg_addresses, length-addresses, pairs, moves}
use pegastore.Local.Copy.Transfer.{transfer, copy-Transfers}
use pegastore.Local.State.{pinned, segs, ReplicaEntry, Slot, Object, State, Inner}
use pegastore.Local.Engines.{Engines, copy}
use pegastore.Local.Sound.{IsSound, IsAligned, replica_len}
use pegastore.Local.Get.Stored.{
  nearest-All, holds-All, holds-slot, holds-stored, end_read-start_read,
}
use pegastore.Local.Get.{
  nearest, find_slot, start_read, holds, end_read, choose, reply, read_replica, get,
}

-- What a call of `get` comes to: an error before any copy, and nothing has changed; or the transfer
-- of the wanted range of the chosen replica into the destination list, with the reply that the
-- engines give, and the store has not changed.
abbrev pub Reads :
    Inner
    → State
    → Key
    → OpGet
    → ((W : Type 0) → Engines W → W → Run (State × W × Result RpGet))
    → Type 1
Reads inner st kb op run =
    ((e : Error) × ((W : Type 0) (engines : Engines W) (w : W)
        → run W engines w ≡ done (st, w, err e)))
    ⊎ ((d : Device) × (n : ℕ) × (obj : Object) × (slot : Slot) × (rep : ReplicaEntry) × (cs : List
          (ℕ × ℕ × ℕ))
        × IsGather op.dst d n
        × (lookup kb st.objects ≡ some obj)
        × (get_elem? obj.slots op.slot ≡ some slot)
        × (nearest inner d slot.replicas ≡ some rep)
        × (moves cs
            ≡ pairs (take n (drop op.src_offset (seg_addresses (segs rep.shared))))
                (seg_addresses (iov_segs op.dst)))
        × ((W : Type 0) (engines : Engines W) (w : W)
            → run W engines w
              ≡ done (
                st,
                (transfer engines inner rep.device d cs w).0,
                reply inner rep (transfer engines inner rep.device d cs w).1,
              )))

pub length-iov_segs : (vs : List Iov) → length (seg_addresses (iov_segs vs)) ≡ total_len vs
unfolding iov_segs seg_addresses
length-iov_segs [] = refl
length-iov_segs (v ∷ vs) = omega (
  arith,
  length-append (addresses (as_ptr v) v.len) (seg_addresses (iov_segs vs)),
  length-addresses (as_ptr v) v.len,
  length-iov_segs vs,
)

IsAligned-get_elem? :
    (ss : List Slot) (ps : List SlotSpec) (i : ℕ) {s : Slot} {p : SlotSpec}
    → IsAligned ss ps
    → get_elem? ss i ≡ some s
    → get_elem? ps i ≡ some p
    → All (λ r. replica_len r ≡ p.len) s.replicas
IsAligned-get_elem? [] ps i a h k = absurd (ground arith)
IsAligned-get_elem? (s ∷ ss) [] i a h k = absurd a
IsAligned-get_elem? (s ∷ ss) (p ∷ ps) zero {s = t} {p = q} a h k =
    let e : s ≡ t = cc in
    let e' : p ≡ q = cc in
    subst (λ (x : SlotSpec). All (λ r. replica_len r ≡ x.len) t.replicas) e'
      (subst (λ (x : Slot). All (λ r. replica_len r ≡ p.len) x.replicas) e a.0)
IsAligned-get_elem? (s ∷ ss) (p ∷ ps) (suc i) a h k = IsAligned-get_elem? ss ps i a.1 h k

IsAligned-both :
    (ss : List Slot) (ps : List SlotSpec) (i : ℕ) {p : SlotSpec}
    → IsAligned ss ps
    → get_elem? ps i ≡ some p
    → (s : Slot) × (get_elem? ss i ≡ some s)
IsAligned-both [] [] i a h = absurd (ground arith)
IsAligned-both [] (p ∷ ps) i a h = absurd a
IsAligned-both (s ∷ ss) [] i a h = absurd a
IsAligned-both (s ∷ ss) (p ∷ ps) zero a h = (s, refl)
IsAligned-both (s ∷ ss) (p ∷ ps) (suc i) a h = IsAligned-both ss ps i a.1 h

module _ (inner : Inner) (st : State) (kb : Key) (op : OpGet) (d : Device) (n : ℕ) where
  choose-gone : lookup kb st.objects ≡ none → choose inner st kb op.slot d ≡ done (err (no_key kb))
  unfolding choose find_slot
  choose-gone h = rw (choose, find_slot, h) refl

  module _ (obj : Object) (here : lookup kb st.objects ≡ some obj) where
    choose-missing :
        get_elem? obj.spec.slots op.slot ≡ none
        → choose inner st kb op.slot d ≡ done (err (bad_slot op.slot))
    unfolding choose find_slot
    choose-missing h = rw (choose, find_slot, here) (rw h refl)

    module _ (spec : SlotSpec) (slot : Slot)
        (spec_at : get_elem? obj.spec.slots op.slot ≡ some spec)
        (at : get_elem? obj.slots op.slot ≡ some slot) where
      choose-empty :
          nearest inner d slot.replicas ≡ none
          → choose inner st kb op.slot d ≡ done (err (no_replica kb op.slot))
      unfolding choose find_slot
      choose-empty h = rw (choose, find_slot, here) (rw (spec_at, at, h) refl)

      choose-chosen :
          (rep : ReplicaEntry)
          → nearest inner d slot.replicas ≡ some rep
          → choose inner st kb op.slot d ≡ done (ok (rep, spec.len))
      unfolding choose find_slot
      choose-chosen rep h = rw (choose, find_slot, here) (rw (spec_at, at, h) refl)

  module _ (g : validate_get op ≡ ok (d, n)) where
    get-refused :
        (e : Error)
        → choose inner st kb op.slot d ≡ done (err e)
        → (W : Type 0) (engines : Engines W) (w : W)
        → get engines inner kb op st w ≡ done (st, w, err e)
    unfolding get
    get-refused e c W engines w = rw (get, g) (rw c refl)

    module _ (rep : ReplicaEntry) (len : ℕ)
        (c : choose inner st kb op.slot d ≡ done (ok (rep, len)))
        (back : end_read rep (start_read rep st) ≡ st) where
      get-outside :
          is_in_range op.src_offset n len ≡ false
          → (W : Type 0) (engines : Engines W) (w : W)
          → get engines inner kb op st w ≡ done (st, w, err (outside op.src_offset n len))
      unfolding get read_replica
      get-outside f W engines w = rw (get, g) (rw c (rw f (rw back refl)))

      get-copied :
          (cs : List (ℕ × ℕ × ℕ))
          → is_in_range op.src_offset n len ≡ true
          → ((W : Type 0) (engines : Engines W) (w : W)
              → copy engines inner rep.device
                  (segs rep.shared)
                  op.src_offset
                  d
                  (iov_segs op.dst)
                  n
                  w
                ≡ some (transfer engines inner rep.device d cs w))
          → (W : Type 0) (engines : Engines W) (w : W)
          → get engines inner kb op st w
            ≡ done (
              st,
              (transfer engines inner rep.device d cs w).0,
              reply inner rep (transfer engines inner rep.device d cs w).1,
            )
      unfolding get read_replica
      get-copied cs t runs W engines w =
          rw (get, g) (rw c (rw t (rw (runs W engines w) (rw back refl))))

IsGather-total : (vs : List Iov) (d : Device) (n : ℕ) → IsGather vs d n → n ≡ total_len vs
IsGather-total [] d n g = absurd g
IsGather-total (v ∷ vs) d n g = g.2

in_range_le : (offset n len : ℕ) → is_in_range offset n len ≡ true → offset + n ≤ len
unfolding is_in_range
in_range_le offset n len h = ground arith

fits :
    (r : ReplicaEntry) (offset len m : ℕ)
    → replica_len r ≡ len
    → offset + m ≤ len
    → offset + m ≤ length (seg_addresses (segs r.shared))
unfolding replica_len
fits r offset len m e h = omega arith

module _ (inner : Inner) (st : State) (kb : Key) (op : OpGet) (sound : IsSound st) where
  chosen-Reads :
      (d : Device) (n : ℕ) (g : validate_get op ≡ ok (d, n)) (gather : IsGather op.dst d n)
      (obj : Object) (here : lookup kb st.objects ≡ some obj) (spec : SlotSpec) (slot : Slot)
      (spec_at : get_elem? obj.spec.slots op.slot ≡ some spec)
      (at : get_elem? obj.slots op.slot ≡ some slot) (rep : ReplicaEntry)
      → nearest inner d slot.replicas ≡ some rep
      → Reads inner st kb op (λ W engines w. get engines inner kb op st w)
  chosen-Reads d n g gather obj here spec slot spec_at at rep near =
      let c = choose-chosen inner st kb op d n obj here spec slot spec_at at rep near in
      let back : end_read rep (start_read rep st) ≡ st = end_read-start_read rep st (λ b e.
        holds-stored b kb st.objects obj here (
          holds-slot b obj.slots op.slot at (
            nearest-All (λ r. r.shared ≡ pinned b → holds b slot.replicas ≡ true) inner d
              slot.replicas rep near (holds-All b slot.replicas) e))) in
      elim (Bool-cases (is_in_range op.src_offset n spec.len)) [
        | inr f ↦ inl (
          outside op.src_offset n spec.len,
          get-outside inner st kb op d n g rep spec.len c back f,
        )
        | inl t ↦
            let size : replica_len rep ≡ spec.len =
              nearest-All (λ r. replica_len r ≡ spec.len) inner d slot.replicas rep near
                (IsAligned-get_elem? obj.slots obj.spec.slots op.slot
                  (All-lookup _ kb st.objects sound.fit here) at spec_at) in
            let (cs, same, runs) =
              copy-Transfers inner rep.device d (segs rep.shared) (iov_segs op.dst) op.src_offset n
                (fits rep op.src_offset spec.len n size (in_range_le op.src_offset n spec.len t))
                (omega (arith, length-iov_segs op.dst, IsGather-total op.dst d n gather)) in
            inr (
              d,
              n,
              obj,
              slot,
              rep,
              cs,
              gather,
              here,
              at,
              near,
              same,
              get-copied inner st kb op d n g rep spec.len c back cs t runs,
            )
      ]

  -- In a sound state a call of `get`, with no other call during its copy, returns and leaves the
  -- store as it is: either with an error before any copy; or after the transfer from the nearest
  -- replica of the slot, whose calls pair the addresses of the wanted range, from the offset on and
  -- as many as the destination holds, with the destination's in order. The reply is an error only
  -- if an engine's is, or a GPU is not served.
  pub get-Reads : Reads inner st kb op (λ W engines w. get engines inner kb op st w)
  unfolding validate_get get
  get-Reads = elim (Result-cases (validate_get op)) [
    | inr (e, h) ↦ inl (e, λ W engines w. rw (get, h) refl)
    | inl ((d, n), g) ↦ elim (Option-cases (lookup kb st.objects)) [
      | inl gone ↦
          inl (no_key kb, get-refused inner st kb op d n g _ (choose-gone inner st kb op d n gone))
      | inr (obj, here) ↦ elim (Option-cases (get_elem? obj.spec.slots op.slot)) [
        | inl missing ↦ inl (
          bad_slot op.slot,
          get-refused inner st kb op d n g _ (choose-missing inner st kb op d n obj here missing),
        )
        | inr (spec, spec_at) ↦
            let (slot, at) =
              IsAligned-both obj.slots obj.spec.slots op.slot
                (All-lookup _ kb st.objects sound.fit here) spec_at in
            elim (Option-cases (nearest inner d slot.replicas)) [
              | inl empty ↦ inl (
                no_replica kb op.slot,
                get-refused inner st kb op d n g _
                    (choose-empty inner st kb op d n obj here spec slot spec_at at empty),
              )
              | inr (rep, near) ↦
                  chosen-Reads d n g (validate_iovs_sound op.dst none d n g).0 obj here spec slot
                    spec_at at rep near
            ]
      ]
    ]
  ]
