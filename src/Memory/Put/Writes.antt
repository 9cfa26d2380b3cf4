-- ===== src/Memory/Put/Writes.antt =====
-- The write of a slot and its charges.
use pegastore.Prelude.{
  ℕ, ◌+◌, ◌<◌, ◌≡◌, Bool, some, List, arith, All, done, length, get_elem?, modify, length-modify,
  lt_of_get_elem?, refl, All-append, ◌∷◌, [],
}
use pegastore.Prelude.Order.{bytes_ord}
use pegastore.Prelude.Ordered.{lookup, insert, All-insert, All-lookup}
use pegastore.Prelude.Sorted.{insert-IsSorted, entry_unique, lookup-insert_self}
use pegastore.Core.Types.{Key, Device, SlotSpec}
use pegastore.Memory.State.{State, Slot, Object, used_on, data_len}
use pegastore.Memory.Measure.{object_bytes, slots_bytes-modify, freed-append, owned_on-insert}
use pegastore.Memory.Sound.{IsSound, IsInRange, IsInRange-insert, All-map, IsFit, IsAligned-modify}
use pegastore.Memory.Room.{capacity_at}
use pegastore.Memory.Put.{new_replicas, push_replicas, store_replicas, charge_all}
use pegastore.Memory.Put.Targets.{HasPool}
use pegastore.Memory.Put.Debt.{debt, freed-new_replicas, IsOwing, Charges, charge_all-Charges}

-- The object with the replicas of the targets added to one slot.
unfoldable pub written : Object → ℕ → List ℕ → List (Device × Bool) → Object
written obj i bytes ts = record obj {
  slots = modify obj.slots i (push_replicas (new_replicas bytes ts));
}

pub IsInRange-of_lookup :
    (st : State) (kb : Key) (i : ℕ) (obj : Object)
    → IsSound st
    → lookup kb st.objects ≡ some obj
    → i < length obj.slots
    → IsInRange st.objects (kb, i)
IsInRange-of_lookup st kb i obj v here lt =
    entry_unique (λ (o : Object). i < length o.slots) kb st.objects v.sorted here lt

All-new_replicas :
    (n : ℕ) (bytes : List ℕ) (ts : List (Device × Bool))
    → length bytes ≡ n
    → All (λ r. data_len r.bytes ≡ n) (new_replicas bytes ts)
unfolding new_replicas data_len
All-new_replicas n bytes [] h = tt
All-new_replicas n bytes ((d, m) ∷ ts) h = (h, All-new_replicas n bytes ts h)

module _ (kb : Key) (i : ℕ) (bytes : List ℕ) (ts : List (Device × Bool)) (st : State) (obj : Object)
    {slot : Slot} (sound : IsSound st) (here : lookup kb st.objects ≡ some obj)
    (at : get_elem? obj.slots i ≡ some slot)
    (fits : (p : SlotSpec) → get_elem? obj.spec.slots i ≡ some p → length bytes ≡ p.len) where
  pub stored : State
  stored = record st { objects = insert kb (written obj i bytes ts) st.objects }

  pub store_replicas-done : store_replicas kb i (new_replicas bytes ts) st ≡ done stored
  unfolding store_replicas stored written
  store_replicas-done = rw (here, at)

  written-length : length (written obj i bytes ts).slots ≡ length obj.slots
  unfolding written
  written-length = length-modify obj.slots i _

  written-IsFit : IsFit obj → IsFit (written obj i bytes ts)
  unfolding written push_replicas
  written-IsFit a =
      IsAligned-modify obj.slots obj.spec.slots i (push_replicas (new_replicas bytes ts)) a
        λ s p _ h old. All-append _ s.replicas _ old (All-new_replicas p.len bytes ts (fits p h))

  written-bytes :
      (d : Device)
      → object_bytes d (written obj i bytes ts) ≡ object_bytes d obj + debt d (length bytes) ts
  unfolding written push_replicas
  written-bytes d = omega (
    arith,
    slots_bytes-modify d obj.slots i (push_replicas (new_replicas bytes ts)) at,
    freed-append d slot.replicas (new_replicas bytes ts),
    freed-new_replicas d bytes ts,
  )

  stored-IsInRange : (e : Key × ℕ) → IsInRange st.objects e → IsInRange stored.objects e
  unfolding stored
  stored-IsInRange e =
      IsInRange-insert kb obj (written obj i bytes ts) st.objects e here written-length

  stored-IsOwing : IsOwing ts (length bytes) stored
  unfolding stored
  stored-IsOwing = record {
    sorted = insert-IsSorted kb _ st.objects sound.sorted;
    fit =
        All-insert _ kb _ st.objects sound.fit
          (written-IsFit (All-lookup _ kb st.objects sound.fit here));
    owing = λ d p h. omega (
      arith,
      sound.accounted d p h,
      owned_on-insert d kb obj (written obj i bytes ts) st.objects here,
      written-bytes d,
    );
    queued = λ d p h. All-map _ _ p.fifo stored-IsInRange (sound.queued d p h);
  }

  pub stored-Charges :
      All (λ t. HasPool st t.0) ts
      → Charges ts (length bytes) stored (charge_all ts kb i (length bytes) stored)
  stored-Charges pools =
      charge_all-Charges ts kb i (length bytes) stored stored-IsOwing
        (stored-IsInRange (kb, i)
          (IsInRange-of_lookup st kb i obj sound here (lt_of_get_elem? obj.slots i at)))
        (unfold stored capacity_at in pools)

  pub stored-capacity : (d : Device) → capacity_at stored d ≡ capacity_at st d
  unfolding stored capacity_at
  stored-capacity d = refl

  pub stored-used : (d : Device) → used_on stored d ≡ used_on st d
  unfolding stored used_on
  stored-used d = refl

  pub lookup-stored : lookup kb stored.objects ≡ some (written obj i bytes ts)
  unfolding stored
  lookup-stored = lookup-insert_self kb _ st.objects
