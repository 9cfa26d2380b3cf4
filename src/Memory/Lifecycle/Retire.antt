-- ===== src/Memory/Lifecycle/Retire.antt =====
-- The drop of a region.
use pegastore.Prelude.{suc, ℕ, ◌≡◌, refl, ap, false, List, [], ◌∷◌, map, arith, All, length, not}
use pegastore.Prelude.Order.{bytes_ord}
use pegastore.Prelude.Ordered.{total}
use pegastore.Prelude.Sorted.{IsSorted, IsAbove}
use pegastore.Core.Types.{Key, Device, SlotSpec}
use pegastore.Core.Region.{MemoryRegion}
use pegastore.Memory.State.{
  State, Slot, Object, ReplicaEntry, data_len, is_from, retain, retire_slot, retire_objects,
  retire_region,
}
use pegastore.Memory.Evict.{freed, replica_bytes}
use pegastore.Memory.Measure.{owned_on, slots_bytes}
use pegastore.Memory.Sound.{IsSound, IsAligned, IsInRange, AreFit, All-map}
use pegastore.Memory.Lifecycle.{drop_region}

-- No replica of an object was published from a region.
abbrev pub IsFreeOf : ℕ → Object → Type 0
IsFreeOf id o = All (λ s. All (λ r. is_from id r ≡ false) s.replicas) o.slots

retain-All :
    (P : ReplicaEntry → Type 0) (id : ℕ) (rs : List ReplicaEntry)
    → All P rs
    → All P (retain (λ r. not (is_from id r)) rs)
unfolding retain
retain-All P id [] a = tt
retain-All P id (r ∷ rs) a = ground (arith, retain-All P id rs a.1)

retain-away :
    (id : ℕ) (rs : List ReplicaEntry)
    → All (λ r. is_from id r ≡ false) (retain (λ r. not (is_from id r)) rs)
unfolding retain
retain-away id [] = tt
retain-away id (r ∷ rs) = ground (arith, retain-away id rs)

freed-retain :
    (d : Device) (id : ℕ) (rs : List ReplicaEntry)
    → freed d (retain (λ r. not (is_from id r)) rs) ≡ freed d rs
unfolding freed retain replica_bytes is_from
freed-retain d id [] = refl
freed-retain d id (r ∷ rs) = ground (arith, freed-retain d id rs)

slots_bytes-retire :
    (d : Device) (id : ℕ) (ss : List Slot)
    → slots_bytes d (map (retire_slot id) ss) ≡ slots_bytes d ss
unfolding slots_bytes retire_slot
slots_bytes-retire d id [] = refl
slots_bytes-retire d id (s ∷ ss) =
    omega (arith, freed-retain d id s.replicas, slots_bytes-retire d id ss)

length-retire : (id : ℕ) (ss : List Slot) → length (map (retire_slot id) ss) ≡ length ss
length-retire id [] = refl
length-retire id (s ∷ ss) = ap suc (length-retire id ss)

IsAligned-retire :
    (id : ℕ) (ss : List Slot) (ps : List SlotSpec)
    → IsAligned ss ps
    → IsAligned (map (retire_slot id) ss) ps
unfolding retire_slot
IsAligned-retire id [] [] a = tt
IsAligned-retire id [] (p ∷ ps) a = absurd a
IsAligned-retire id (s ∷ ss) [] a = absurd a
IsAligned-retire id (s ∷ ss) (p ∷ ps) a =
    (retain-All (λ r. data_len r.bytes ≡ p.len) id s.replicas a.0, IsAligned-retire id ss ps a.1)

IsFreeOf-retire :
    (id : ℕ) (ss : List Slot)
    → All (λ s. All (λ r. is_from id r ≡ false) s.replicas) (map (retire_slot id) ss)
unfolding retire_slot
IsFreeOf-retire id [] = tt
IsFreeOf-retire id (s ∷ ss) = (retain-away id s.replicas, IsFreeOf-retire id ss)

module _ (id : ℕ) where
  IsAbove-retire :
      (k : Key) (m : List (Key × Object)) → IsAbove k m → IsAbove k (retire_objects id m)
  unfolding retire_objects
  IsAbove-retire k [] a = tt
  IsAbove-retire k ((j, o) ∷ m) a = (a.0, IsAbove-retire k m a.1)

  retire_objects-IsSorted : (m : List (Key × Object)) → IsSorted m → IsSorted (retire_objects id m)
  unfolding retire_objects
  retire_objects-IsSorted [] s = tt
  retire_objects-IsSorted ((j, o) ∷ m) s = (IsAbove-retire j m s.0, retire_objects-IsSorted m s.1)

  AreFit-retire : (m : List (Key × Object)) → AreFit m → AreFit (retire_objects id m)
  unfolding retire_objects
  AreFit-retire [] a = tt
  AreFit-retire ((j, o) ∷ m) a = (IsAligned-retire id o.slots o.spec.slots a.0, AreFit-retire m a.1)

  owned_on-retire :
      (d : Device) (m : List (Key × Object)) → owned_on d (retire_objects id m) ≡ owned_on d m
  unfolding retire_objects total
  owned_on-retire d [] = refl
  owned_on-retire d ((j, o) ∷ m) =
      omega (arith, slots_bytes-retire d id o.slots, owned_on-retire d m)

  IsInRange-retire :
      (m : List (Key × Object)) (e : Key × ℕ) → IsInRange m e → IsInRange (retire_objects id m) e
  unfolding retire_objects
  IsInRange-retire [] e a = tt
  IsInRange-retire ((j, o) ∷ m) e a =
      (λ h. omega (arith, a.0 h, length-retire id o.slots), IsInRange-retire m e a.1)

  retire_objects-away : (m : List (Key × Object)) → All (λ e. IsFreeOf id e.1) (retire_objects id m)
  unfolding retire_objects
  retire_objects-away [] = tt
  retire_objects-away ((j, o) ∷ m) = (IsFreeOf-retire id o.slots, retire_objects-away m)

-- When a region is dropped, a sound state stays sound, no object keeps a replica that was published
-- from the region, and the owned bytes on every device are as many as before.
pub drop_region-IsSound :
    (region : MemoryRegion) (st : State)
    → IsSound st
    → IsSound (drop_region region st)
      × All (λ e. IsFreeOf region.id e.1) (drop_region region st).objects
      × ((d : Device) → owned_on d (drop_region region st).objects ≡ owned_on d st.objects)
unfolding drop_region retire_region
drop_region-IsSound region st v = (
  record {
    sorted = retire_objects-IsSorted region.id st.objects v.sorted;
    fit = AreFit-retire region.id st.objects v.fit;
    accounted = λ d p h. omega (arith, v.accounted d p h, owned_on-retire region.id d st.objects);
    queued = λ d p h. All-map _ _ p.fifo (IsInRange-retire region.id st.objects) (v.queued d p h);
  },
  retire_objects-away region.id st.objects,
  λ d. owned_on-retire region.id d st.objects,
)
