-- ===== src/Memory/Lifecycle/Release.antt =====
-- The release of a removed object's bytes, and the removal of keys.
use pegastore.Prelude.{
  ℕ, ◌-◌, le→leb, ◌+◌, ◌≤◌, ◌≡◌, refl, ◌∙◌, ap, ◌⊎◌, ◌≢◌, none, some, List, [], ◌∷◌, arith, All,
  Run, done, ◌>>=◌, inl, inr, length, Option-cases, subst, update_cases, update,
}
use pegastore.Prelude.Order.{bytes_ord}
use pegastore.Prelude.Ordered.{lookup, remove, All-remove, total-remove}
use pegastore.Prelude.Sorted.{remove-IsSorted, IsSorted, lookup-remove_self, lookup-remove_ne}
use pegastore.Core.Types.{Key, Device, dec_device}
use pegastore.Core.Error.{ok}
use pegastore.Memory.State.{
  State, Slot, Object, Pool, ReplicaEntry, ReplicaData, owned, used_on, release_replica,
  release_replicas, release_slots, release_object, sub_used, dec_key,
}
use pegastore.Memory.Evict.{replica_bytes, freed}
use pegastore.Memory.Measure.{owned_on, slots_bytes, object_bytes}
use pegastore.Memory.Sound.{IsSound, All-map, IsInRange, AreFit}
use pegastore.Memory.Room.{capacity_at}
use pegastore.Memory.Lifecycle.{remove_one, remove_all, remove_keys}

-- The invariant while some bytes are still to be given back: each pool counts them on top.
record IsHolding (n : Device → ℕ) (st : State) : Type 0 where
  pub sorted : IsSorted st.objects
  pub fit : AreFit st.objects
  pub holding : (d : Device) (p : Pool) → st.pools d ≡ some p → p.used ≡ owned_on d st.objects + n d
  pub queued : (d : Device) (p : Pool) → st.pools d ≡ some p → All (IsInRange st.objects) p.fifo

-- A release returns, touches no object and no capacity, and raises no pool.
abbrev Releases : (Device → ℕ) → State → Run State → Type 0
Releases n st r =
    (st' : State) × (r ≡ done st')
    × IsHolding n st'
    × (st'.objects ≡ st.objects)
    × ((d : Device) → capacity_at st' d ≡ capacity_at st d)
    × ((d : Device) → used_on st' d ≤ used_on st d)

Releases-then :
    (n m : Device → ℕ) (st : State) (r : Run State) (f : State → Run State)
    → Releases m st r
    → ((st' : State) → IsHolding m st' → Releases n st' (f st'))
    → Releases n st (r >>= f)
Releases-then n m st r f (st1, e1, h1, o1, c1, u1) next =
    let (st2, e2, h2, o2, c2, u2) = next st1 h1 in
    (st2, rw e1 e2, h2, o2 ∙ o1, λ d. c2 d ∙ c1 d, λ d. omega (arith, u1 d, u2 d))

Releases-nothing :
    (n m : Device → ℕ) (st : State)
    → IsHolding m st
    → ((d : Device) (p : Pool) → st.pools d ≡ some p → m d ≡ n d)
    → Releases n st (done st)
Releases-nothing n m st h same = (
  st,
  refl,
  record {
    sorted = h.sorted;
    fit = h.fit;
    holding = λ d p e. omega (arith, h.holding d p e, same d p e);
    queued = h.queued;
  },
  refl,
  λ d. refl,
  λ d. omega arith,
)

IsHolding-same :
    (n m : Device → ℕ) (st : State) → IsHolding n st → ((d : Device) → n d ≡ m d) → IsHolding m st
IsHolding-same n m st h same = record {
  sorted = h.sorted;
  fit = h.fit;
  holding = λ d p e. omega (arith, h.holding d p e, same d);
  queued = h.queued;
}

IsSound-of_IsHolding : (st : State) → IsHolding (λ d. 0) st → IsSound st
IsSound-of_IsHolding st h = record {
  sorted = h.sorted;
  fit = h.fit;
  accounted = λ d p e. omega (arith, h.holding d p e);
  queued = h.queued;
}

module _ (n : Device → ℕ) (r : ReplicaEntry) (st : State)
    (h : IsHolding (λ d. replica_bytes d r + n d) st) where
  external-Releases :
      (segs : List (ℕ × ℕ)) (id : ℕ)
      → r.bytes ≡ ReplicaData.external segs id
      → Releases n st (release_replica r st)
  unfolding release_replica replica_bytes
  external-Releases segs id e =
      rw (release_replica, e) (Releases-nothing n _ st h λ d p x. ground arith)

  module _ (b : List ℕ) (p : Pool) (bytes : r.bytes ≡ owned b)
      (here : st.pools r.device ≡ some p) where
    lowered : State
    lowered = record st {
      pools = update dec_device st.pools r.device (some (record p { used = p.used - length b }));
    }

    covered : length b ≤ p.used
    unfolding replica_bytes
    covered = ground (arith, h.holding r.device p here)

    release_replica-done : release_replica r st ≡ done lowered
    unfolding release_replica lowered sub_used
    release_replica-done =
        rw (release_replica, bytes, here, sub_used, le→leb (length b) p.used covered) refl

    lowered-IsHolding : IsHolding n lowered
    unfolding lowered replica_bytes
    lowered-IsHolding = record {
      sorted = h.sorted;
      fit = h.fit;
      holding = λ e q x. elim (update_cases dec_device st.pools r.device e _ x) [
        | inl (same, is) ↦ ground (arith, h.holding r.device p here)
        | inr (ne, old) ↦ ground (arith, h.holding e q old)
      ];
      queued = λ e q x. elim (update_cases dec_device st.pools r.device e _ x) [
        | inl (same, is) ↦
            subst (λ (y : Pool). All (IsInRange st.objects) y.fifo) is (h.queued r.device p here)
        | inr (ne, old) ↦ h.queued e q old
      ];
    }

    lowered-capacity : (e : Device) → capacity_at lowered e ≡ capacity_at st e
    unfolding lowered capacity_at update
    lowered-capacity e = ground arith

    lowered-used : (e : Device) → used_on lowered e ≤ used_on st e
    unfolding lowered used_on update
    lowered-used e = ground arith

  owned-Releases : (b : List ℕ) → r.bytes ≡ owned b → Releases n st (release_replica r st)
  unfolding release_replica replica_bytes lowered
  owned-Releases b e = elim (Option-cases (st.pools r.device)) [
    | inl gone ↦ rw (release_replica, e, gone) (Releases-nothing n _ st h λ d p x. ground arith)
    | inr (p, here) ↦ (
      lowered b p e here,
      release_replica-done b p e here,
      lowered-IsHolding b p e here,
      refl,
      lowered-capacity b p e here,
      lowered-used b p e here,
    )
  ]

  release_replica-Releases : Releases n st (release_replica r st)
  release_replica-Releases = go r.bytes refl
    where
      go : (b : ReplicaData) → r.bytes ≡ b → Releases n st (release_replica r st)
      go (owned b) e = owned-Releases b e
      go (ReplicaData.external segs id) e = external-Releases segs id e

release_replicas-Releases :
    (n : Device → ℕ) (rs : List ReplicaEntry) (st : State)
    → IsHolding (λ d. freed d rs + n d) st
    → Releases n st (release_replicas rs st)
unfolding release_replicas freed
release_replicas-Releases n [] st h = Releases-nothing n _ st h λ d p x. omega arith
release_replicas-Releases n (r ∷ rs) st h =
    Releases-then n (λ d. freed d rs + n d) st _ (release_replicas rs)
      (release_replica-Releases (λ d. freed d rs + n d) r st
        (IsHolding-same _ _ st h λ d. omega arith))
      (release_replicas-Releases n rs)

release_slots-Releases :
    (n : Device → ℕ) (ss : List Slot) (st : State)
    → IsHolding (λ d. slots_bytes d ss + n d) st
    → Releases n st (release_slots ss st)
unfolding release_slots slots_bytes
release_slots-Releases n [] st h = Releases-nothing n _ st h λ d p x. omega arith
release_slots-Releases n (s ∷ ss) st h =
    Releases-then n (λ d. slots_bytes d ss + n d) st _ (release_slots ss)
      (release_replicas-Releases (λ d. slots_bytes d ss + n d) s.replicas st
        (IsHolding-same _ _ st h λ d. omega arith))
      (release_slots-Releases n ss)

-- A key is among the others or it is not; if it is, what holds of all of them holds of it.
pub Mem-cases :
    (k : Key) (ks : List Key) → All (λ j. j ≢ k) ks ⊎ ((P : Key → Type 0) → All P ks → P k)
Mem-cases k [] = inl tt
Mem-cases k (j ∷ ks) = elim (dec_key j k) [
  | yes e ↦ inr λ P a. subst P e a.0
  | no n ↦ elim (Mem-cases k ks) [ inl others ↦ inl (n, others) | inr here ↦ inr λ P a. here P a.1 ]
]

-- What the removal of some keys comes to.
abbrev pub Removed : List Key → State → State → Type 0
Removed ks st st' =
    IsSound st'
    × All (λ k. lookup k st'.objects ≡ none) ks
    × ((k : Key) → All (λ j. j ≢ k) ks → lookup k st'.objects ≡ lookup k st.objects)
    × ((d : Device) → capacity_at st' d ≡ capacity_at st d)
    × ((d : Device) → used_on st' d ≤ used_on st d)

abbrev pub Removes : List Key → State → Run State → Type 0
Removes ks st r = (st' : State) × (r ≡ done st') × Removed ks st st'

IsHolding-remove :
    (k : Key) (obj : Object) (st : State)
    → IsSound st
    → lookup k st.objects ≡ some obj
    → IsHolding (λ d. slots_bytes d obj.slots + 0) (record st { objects = remove k st.objects })
IsHolding-remove k obj st v here = record {
  sorted = remove-IsSorted k st.objects v.sorted;
  fit = All-remove _ k st.objects v.fit;
  holding = λ d p x.
      omega (arith, v.accounted d p x, total-remove (object_bytes d) k obj st.objects here);
  queued = λ d p x. All-map _ _ p.fifo (λ e. All-remove _ k st.objects) (v.queued d p x);
}

remove_one-Removes : (k : Key) (st : State) → IsSound st → Removes (k ∷ []) st (remove_one k st)
unfolding remove_one release_object
remove_one-Removes k st v = elim (Option-cases (lookup k st.objects)) [
  | inl gone ↦ (
    st,
    rw (remove_one, gone) refl,
    (v, (gone, tt), λ j other. refl, λ d. refl, λ d. omega arith),
  )
  | inr (obj, here) ↦
      let (st', e, h, objects, shape, less) =
        release_slots-Releases (λ d. 0) obj.slots (record st { objects = remove k st.objects })
          (IsHolding-remove k obj st v here) in
      (
        st',
        rw (remove_one, here) e,
        (
          IsSound-of_IsHolding st' h,
          (ap (lookup k) objects ∙ lookup-remove_self k st.objects v.sorted, tt),
          λ j other. ap (lookup j) objects ∙ lookup-remove_ne k j st.objects v.sorted other.0,
          unfold capacity_at in shape,
          unfold used_on in less,
        ),
      )
]

-- A later removal does not bring a key back.
still_gone :
    (k : Key) (ks : List Key) (st st' : State)
    → lookup k st.objects ≡ none
    → All (λ j. lookup j st'.objects ≡ none) ks
    → ((j : Key) → All (λ i. i ≢ j) ks → lookup j st'.objects ≡ lookup j st.objects)
    → lookup k st'.objects ≡ none
still_gone k ks st st' gone all stay = elim (Mem-cases k ks) [
  | inl other ↦ stay k other ∙ gone
  | inr p ↦ p _ all
]

pub remove_all-Removes :
    (ks : List Key) (st : State) → IsSound st → Removes ks st (remove_all ks st)
unfolding remove_all
remove_all-Removes [] st v = (st, refl, (v, tt, λ k h. refl, λ d. refl, λ d. omega arith))
remove_all-Removes (k ∷ ks) st v =
    let (st1, e1, (v1, gone1, stay1, shape1, less1)) = remove_one-Removes k st v in
    let (st2, e2, (v2, gone2, stay2, shape2, less2)) = remove_all-Removes ks st1 v1 in
    (
      st2,
      rw e1 e2,
      (
        v2,
        (still_gone k ks st1 st2 gone1.0 gone2 stay2, gone2),
        λ j other. stay2 j other.1 ∙ stay1 j (other.0, tt),
        λ d. shape2 d ∙ shape1 d,
        λ d. omega (arith, less1 d, less2 d),
      ),
    )

-- In a sound state a call of `remove` returns, with no error, whatever keys it is given, repeated
-- ones too; afterwards the invariant holds, none of the keys is there, every other key has the
-- object that it had, no capacity has changed and no pool counts more bytes.
pub remove_keys-Removed :
    (ks : List Key) (st : State)
    → IsSound st
    → (st' : State) × (remove_keys ks st ≡ done (st', ok tt)) × Removed ks st st'
unfolding remove_keys
remove_keys-Removed ks st v =
    let (st', e, removed) = remove_all-Removes ks st v in (st', rw e refl, removed)
