-- ===== src/Tests/Backend.antt =====
-- The theorems of the backend, on a pool of four bytes that holds an object of two.
use pegastore.Prelude.{
  ℕ_discrete, All, ℕ, ◌≡◌, refl, none, some, [], ◌∷◌, true, false, done, length, ◌≤◌, arith, update,
}
use pegastore.Prelude.Order.{bytes_ord, cmp_bytes}
use pegastore.Prelude.Ordered.{lookup}
use pegastore.Core.Types.{Key, Device, starts_with, Placement}
use pegastore.Core.Error.{ok}
use pegastore.Memory.State.{State, used_on}
use pegastore.Memory.Sound.{IsSound}
use pegastore.Memory.Evict.{make_room}
use pegastore.Memory.Place.{gather, read_bytes}
use pegastore.Memory.Room.{Makes, make_room-Makes, capacity_at}
use pegastore.Memory.Put.{put, put_slot}
use pegastore.Memory.Put.Distinct.{IsBounded}
use pegastore.Memory.Put.Slots.{PutsSlot, put_slot-PutsSlot}
use pegastore.Memory.Put.Total.{PutsObject, put-PutsObject, CanReserve}
use pegastore.Memory.Get.{get, nearest, rank, is_below}
use pegastore.Memory.State.{ReplicaEntry, distance, tier_rank}
use pegastore.Core.Types.{ssd, dec_device}
use pegastore.Memory.Get.Choice.{IsFirstNearest, nearest-IsFirstNearest}
use pegastore.Memory.Get.Reads.{Gets, get-Gets}
use pegastore.Memory.Lifecycle.{publish, drop_region, remove_keys, remove_prefix}
use pegastore.Memory.Lifecycle.Release.{Removed, remove_keys-Removed}
use pegastore.Memory.Lifecycle.Prefix.{count_prefixed, remove_prefix-Removes}
use pegastore.Core.Ops.{OpPublish}
use pegastore.Memory.Lifecycle.Publish.{Publishes, publish-Publishes}
use pegastore.Memory.Lifecycle.Retire.{IsFreeOf, drop_region-IsSound}
use pegastore.Memory.Measure.{owned_on}
use pegastore.Memory.Build.{build, new_builder, with_device_capacity}
use pegastore.Memory.Build.Start.{build-IsSound}
use pegastore.Store.{put_options}
use pegastore.Store.OverMemory.{memory, World, PutsThrough, put_options-PutsThrough}
use pegastore.Tests.{
  buffer, host, inner, ram, old_key, new_key, replica, object, pool, one, one-IsSound, three,
  one-CanReserve, read_two, spec_of, segment,
}

put-PutsObject_example : PutsObject new_key three one (put inner ram new_key three one)
put-PutsObject_example = put-PutsObject inner ram new_key three one one-IsSound one-CanReserve

get-Gets_example : Gets inner one ram old_key read_two (get inner one ram old_key read_two)
get-Gets_example = get-Gets inner one ram old_key read_two one-IsSound

one_pool : one.pools host ≡ some pool
unfolding update
one_pool = ground arith

make_room-Makes_example : Makes host 3 new_key one (make_room host 3 new_key one)
make_room-Makes_example = make_room-Makes host 3 new_key one pool one_pool one-IsSound

remove_keys-Removed_example :
    (st' : State) × (remove_keys (old_key ∷ old_key ∷ []) one ≡ done (st', ok tt))
    × Removed (old_key ∷ old_key ∷ []) one st'
remove_keys-Removed_example = remove_keys-Removed (old_key ∷ old_key ∷ []) one one-IsSound

remove_prefix-Removes_example :
    (st' : State) × (remove_prefix old_key one
      ≡ done (st', ok (count_prefixed old_key one.objects)))
    × IsSound st'
    × ((k : Key) → starts_with k old_key ≡ true → lookup k st'.objects ≡ none)
    × ((k : Key) → starts_with k old_key ≡ false → lookup k st'.objects ≡ lookup k one.objects)
    × ((d : Device) → capacity_at st' d ≡ capacity_at one d)
    × ((d : Device) → used_on st' d ≤ used_on one d)
remove_prefix-Removes_example = remove_prefix-Removes old_key one one-IsSound

-- The read replica is the only one.
abbrev slow : ReplicaEntry
slow = record replica { tier = ssd }

chosen : nearest inner host (slow ∷ replica ∷ []) ≡ some replica
unfolding nearest rank is_below distance tier_rank dec_device ℕ_discrete
chosen = refl

nearest-IsFirstNearest_example : IsFirstNearest inner host (slow ∷ replica ∷ []) replica
nearest-IsFirstNearest_example =
    nearest-IsFirstNearest inner host (slow ∷ replica ∷ []) replica chosen

abbrev through : World
through = record { counter = 0; ram = ram; state = one }

put_options-PutsThrough_example :
    PutsThrough inner new_key three through (put_options (memory inner) new_key three through)
put_options-PutsThrough_example =
    put_options-PutsThrough inner new_key three through one-IsSound one-CanReserve

one_here : lookup old_key one.objects ≡ some object
unfolding lookup cmp_bytes
one_here = refl

-- A second slot source for the object that is there.
two_long : length (gather ram (segment 1 2 ∷ [])) ≡ 2
unfolding gather read_bytes
two_long = refl

put_slot-PutsSlot_example :
    PutsSlot inner ram old_key 0
      (record { spec = spec_of 2 Placement.anywhere; src = segment 1 2 ∷ [] })
      one
      object
      (put_slot inner ram old_key 0
        (record { spec = spec_of 2 Placement.anywhere; src = segment 1 2 ∷ [] })
        one)
put_slot-PutsSlot_example =
    put_slot-PutsSlot inner ram old_key 0
      (record { spec = spec_of 2 Placement.anywhere; src = segment 1 2 ∷ [] }) one object one_here
      refl two_long refl one-IsSound

build-IsSound_example :
    IsSound (build (with_device_capacity new_builder host 4)).1
    × IsBounded (build (with_device_capacity new_builder host 4)).1
    × ((kb : Key) (n : ℕ) → CanReserve kb n (build (with_device_capacity new_builder host 4)).1)
build-IsSound_example = build-IsSound (with_device_capacity new_builder host 4)

drop_region-IsSound_example :
    IsSound (drop_region buffer one)
    × All (λ e. IsFreeOf buffer.id e.1) (drop_region buffer one).objects
    × ((d : Device) → owned_on d (drop_region buffer one).objects ≡ owned_on d one.objects)
drop_region-IsSound_example = drop_region-IsSound buffer one one-IsSound

-- The two bytes at address 106, as another replica of the slot.
abbrev other_copy : OpPublish
other_copy = record { slot = 0; src = segment 6 2 ∷ [] }

publish-Publishes_example : Publishes one (publish old_key other_copy one)
publish-Publishes_example = publish-Publishes old_key other_copy one one-IsSound
