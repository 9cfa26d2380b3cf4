-- ===== src/Memory/Eviction.antt =====
-- Eviction returns, keeps the invariant, and never touches the protected object.
use pegastore.Prelude.{
  ℕ, ◌+◌, ◌-◌, ◌≤◌, ◌≡◌, refl, ◌∙◌, ◌≢◌, some, List, [], ◌∷◌, ◌++◌, arith, length, get_elem?,
  get_elem?-lt, modify, All, All-append, length-modify, Run, done, ltb, Bool-cases, Option-cases,
  inl, inr, if_pos, if_neg,
}
use pegastore.Prelude.Order.{bytes_ord}
use pegastore.Prelude.Ordered.{lookup, All-lookup}
use pegastore.Prelude.Sorted.{IsSorted}
use pegastore.Core.Types.{Key, Device, Retention, cache, explicit}
use pegastore.Memory.State.{Slot, Object, dec_key, sub_used, ReplicaEntry}
use pegastore.Memory.Evict.{
  Evicting, evict_slot, freed, write_back, evict_cached, evict_found, evict_entry, evict_loop, kept,
}
use pegastore.Memory.Measure.{
  owned_on, object_bytes, slots_bytes-modify, owned_on-write_back, freed-kept_self, freed-kept_ne,
}
use pegastore.Memory.Sound.{
  IsInRange, IsInRange-write_back, write_back-IsSorted, lookup-write_back_ne, All-map, AreFit,
  IsFit, IsAligned-modify, AreFit-write_back,
}

-- What the loop keeps for a device: the counter is exact, keys ascend, deferred entries are in range.
pub record IsCounted (d : Device) (s : Evicting) : Type 0 where
  pub exact : s.used ≡ owned_on d s.objects
  pub sorted : IsSorted s.objects
  pub fit : AreFit s.objects
  pub deferred : All (IsInRange s.objects) s.deferred

-- What a part of the loop leaves alone.
pub record Leaves (d : Device) (protect : Key) (s t : Evicting) : Type 0 where
  pub elsewhere : (e : Device) → e ≢ d → owned_on e t.objects ≡ owned_on e s.objects
  pub in_range : (e : Key × ℕ) → IsInRange s.objects e → IsInRange t.objects e
  pub protected : lookup protect t.objects ≡ lookup protect s.objects
  pub less : t.used ≤ s.used

Leaves-refl : (d : Device) (protect : Key) (s : Evicting) → Leaves d protect s s
Leaves-refl d protect s = record {
  elsewhere = λ e h. refl;
  in_range = λ e h. h;
  protected = refl;
  less = omega arith;
}

Leaves-trans :
    (d : Device) (protect : Key) (s t u : Evicting)
    → Leaves d protect s t
    → Leaves d protect t u
    → Leaves d protect s u
Leaves-trans d protect s t u f g = record {
  elsewhere = λ e h. g.elsewhere e h ∙ f.elsewhere e h;
  in_range = λ e h. g.in_range e (f.in_range e h);
  protected = g.protected ∙ f.protected;
  less = omega arith;
}

-- The object that an eviction writes back.
emptied : Device → ℕ → Object → Object
emptied d i obj = record obj { slots = modify obj.slots i (evict_slot d) }

emptied-owned :
    (d : Device) (i : ℕ) (obj : Object) {slot : Slot}
    → get_elem? obj.slots i ≡ some slot
    → object_bytes d (emptied d i obj) + freed d slot.replicas ≡ object_bytes d obj
unfolding emptied evict_slot
emptied-owned d i obj {slot} h =
    omega
      (arith, slots_bytes-modify d obj.slots i (evict_slot d) h, freed-kept_self d slot.replicas)

emptied-elsewhere :
    (d e : Device) (i : ℕ) (obj : Object) {slot : Slot}
    → get_elem? obj.slots i ≡ some slot
    → e ≢ d
    → object_bytes e (emptied d i obj) ≡ object_bytes e obj
unfolding emptied evict_slot
emptied-elsewhere d e i obj {slot} h ne =
    omega
      (arith, slots_bytes-modify e obj.slots i (evict_slot d) h, freed-kept_ne d e slot.replicas ne)

All-kept :
    (P : ReplicaEntry → Type 0) (d : Device) (rs : List ReplicaEntry) → All P rs → All P (kept d rs)
unfolding kept
All-kept P d [] a = tt
All-kept P d (r ∷ rs) a = ground (arith, All-kept P d rs a.1)

emptied-IsFit : (d : Device) (i : ℕ) (obj : Object) → IsFit obj → IsFit (emptied d i obj)
unfolding emptied evict_slot
emptied-IsFit d i obj a =
    IsAligned-modify obj.slots obj.spec.slots i (evict_slot d) a
      λ s p _ _ h. All-kept _ d s.replicas h

-- The result of a step that returns.
abbrev Returns : Device → Key → Evicting → Run Evicting → Type 0
Returns d protect s r = (t : Evicting) × (r ≡ done t) × IsCounted d t × Leaves d protect s t

module _ (d : Device) (protect k : Key) (i : ℕ) (obj : Object) (s : Evicting) where
  after_evict : Slot → Evicting
  after_evict slot = record s {
    objects = write_back k (emptied d i obj) s.objects;
    used = s.used - freed d slot.replicas;
  }

  module _ {slot : Slot} (here : lookup k s.objects ≡ some obj)
      (at : get_elem? obj.slots i ≡ some slot) where
    evict-balance :
        owned_on d (write_back k (emptied d i obj) s.objects) + freed d slot.replicas
        ≡ owned_on d s.objects
    evict-balance = omega (
      arith,
      owned_on-write_back d k obj (emptied d i obj) s.objects here,
      emptied-owned d i obj at,
    )

    evict_cached-done :
        s.used ≡ owned_on d s.objects → evict_cached d k i obj s ≡ done (after_evict slot)
    unfolding evict_cached after_evict sub_used emptied
    evict_cached-done exact =
        let fits : freed d slot.replicas ≤ s.used = omega (arith, evict-balance) in
        rw (at) (ground arith)

    emptied-length : length (emptied d i obj).slots ≡ length obj.slots
    unfolding emptied
    emptied-length = length-modify obj.slots i (evict_slot d)

    evict_cached-Returns :
        k ≢ protect → IsCounted d s → Returns d protect s (evict_cached d k i obj s)
    unfolding after_evict
    evict_cached-Returns ne c = (
      after_evict slot,
      evict_cached-done c.exact,
      record {
        exact = omega (arith, evict-balance, c.exact);
        sorted = write_back-IsSorted k (emptied d i obj) s.objects c.sorted;
        fit =
            AreFit-write_back k (emptied d i obj) s.objects
              (emptied-IsFit d i obj (All-lookup _ k s.objects c.fit here)) c.fit;
        deferred = All-map _ _ s.deferred keep c.deferred;
      },
      record {
        elsewhere = λ e h. omega (
          arith,
          owned_on-write_back e k obj (emptied d i obj) s.objects here,
          emptied-elsewhere d e i obj at h,
        );
        in_range = keep;
        protected = lookup-write_back_ne k protect (emptied d i obj) s.objects c.sorted ne;
        less = omega arith;
      },
    )
      where
        keep :
            (e : Key × ℕ)
            → IsInRange s.objects e
            → IsInRange (write_back k (emptied d i obj) s.objects) e
        keep e = IsInRange-write_back k obj (emptied d i obj) s.objects e here emptied-length

Returns-same :
    (d : Device) (protect : Key) (s : Evicting) → IsCounted d s → Returns d protect s (done s)
Returns-same d protect s c = (s, refl, c, Leaves-refl d protect s)

evict_found-Returns :
    (d : Device) (protect k : Key) (i : ℕ) (obj : Object) (r : Retention) (s : Evicting)
    → lookup k s.objects ≡ some obj
    → IsInRange s.objects (k, i)
    → k ≢ protect
    → IsCounted d s
    → Returns d protect s (evict_found d k i obj r s)
unfolding evict_found
evict_found-Returns d protect k i obj explicit s here range ne c = Returns-same d protect s c
evict_found-Returns d protect k i obj cache s here range ne c =
    let (slot, at) = get_elem?-lt obj.slots i (All-lookup _ k s.objects range here refl) in
    evict_cached-Returns d protect k i obj s here at ne c

defer-Returns :
    (d : Device) (protect : Key) (e : Key × ℕ) (s : Evicting)
    → IsInRange s.objects e
    → IsCounted d s
    → Returns d protect s (done (record s { deferred = s.deferred ++ e ∷ [] }))
defer-Returns d protect e s range c = (
  record s { deferred = s.deferred ++ e ∷ [] },
  refl,
  record {
    exact = c.exact;
    sorted = c.sorted;
    fit = c.fit;
    deferred = All-append _ s.deferred (e ∷ []) c.deferred (range, tt);
  },
  record { elsewhere = λ e h. refl; in_range = λ e h. h; protected = refl; less = omega arith },
)

-- One popped entry.
evict_entry-Returns :
    (d : Device) (protect k : Key) (i : ℕ) (s : Evicting)
    → IsInRange s.objects (k, i)
    → IsCounted d s
    → Returns d protect s (evict_entry d protect k i s)
unfolding evict_entry
evict_entry-Returns d protect k i s range c = elim (dec_key k protect) [
  | yes same ↦ rw (if_pos _ same) (defer-Returns d protect (k, i) s range c)
  | no ne ↦ rw (if_neg _ ne) (elim (Option-cases (lookup k s.objects)) [
    | inl gone ↦ rw gone (Returns-same d protect s c)
    | inr (obj, here) ↦
        rw here (evict_found-Returns d protect k i obj obj.spec.retention s here range ne c)
  ])
]

-- The loop returns; where it stops before the end of the queue, the bytes fit.
pub evict_loop-Returns :
    (d : Device) (need limit : ℕ) (protect : Key) (fifo : List (Key × ℕ)) (s : Evicting)
    → All (IsInRange s.objects) fifo
    → IsCounted d s
    → (t : Evicting) × (rest : List (Key × ℕ)) × (evict_loop d need limit protect fifo s
        ≡ done (t, rest))
      × IsCounted d t
      × Leaves d protect s t
      × All (IsInRange t.objects) rest
unfolding evict_loop
evict_loop-Returns d need limit protect [] s q c = (s, [], refl, c, Leaves-refl d protect s, tt)
evict_loop-Returns d need limit protect ((k, i) ∷ fifo) s q c =
    elim (Bool-cases (ltb limit (s.used + need))) [
      | inl full ↦
          let (t, e, ct, lt) = evict_entry-Returns d protect k i s q.0 c in
          let (u, rest, e', cu, lu, qu) =
            evict_loop-Returns d need limit protect fifo t (All-map _ _ fifo lt.in_range q.1) ct in
          (u, rest, rw (full, e) e', cu, Leaves-trans d protect s t u lt lu, qu)
      | inr fits ↦ (s, (k, i) ∷ fifo, rw fits, c, Leaves-refl d protect s, q)
    ]
