-- ===== src/Memory/Measure.antt =====
-- The bytes that the objects hold on a device, and how the writes to the object map change them.
use pegastore.Prelude.{
  ℕ, zero, suc, ◌+◌, ◌≡◌, refl, ◌≢◌, true, some, List, [], ◌∷◌, ◌++◌, arith, get_elem?, modify,
  replicate, Bool-cases, inl, inr,
}
use pegastore.Prelude.Order.{bytes_ord}
use pegastore.Prelude.Ordered.{lookup, insert, total, total-insert, total-remove}
use pegastore.Core.Types.{Key, Device}
use pegastore.Memory.State.{ReplicaEntry, Slot, Object}
use pegastore.Memory.Evict.{replica_bytes, stays, freed, kept, all_empty, write_back}

abbrev pub slot_bytes : Device → Slot → ℕ
slot_bytes d s = freed d s.replicas

unfoldable pub slots_bytes : Device → List Slot → ℕ
slots_bytes d [] = 0
slots_bytes d (s ∷ ss) = slot_bytes d s + slots_bytes d ss

abbrev pub object_bytes : Device → Object → ℕ
object_bytes d o = slots_bytes d o.slots

-- The owned bytes on a device, over all objects, slots and replicas.
abbrev pub owned_on : Device → List (Key × Object) → ℕ
owned_on d objects = total (object_bytes d) objects

pub freed-append :
    (d : Device) (rs ss : List ReplicaEntry) → freed d (rs ++ ss) ≡ freed d rs + freed d ss
unfolding freed
freed-append d [] ss = omega arith
freed-append d (r ∷ rs) ss = omega (arith, freed-append d rs ss)

pub freed-kept_self : (d : Device) (rs : List ReplicaEntry) → freed d (kept d rs) ≡ 0
unfolding freed kept stays replica_bytes
freed-kept_self d [] = refl
freed-kept_self d (r ∷ rs) = ground (arith, freed-kept_self d rs)

pub freed-kept_ne :
    (d e : Device) (rs : List ReplicaEntry) → e ≢ d → freed e (kept d rs) ≡ freed e rs
unfolding freed kept stays replica_bytes
freed-kept_ne d e [] h = refl
freed-kept_ne d e (r ∷ rs) h = ground (arith, freed-kept_ne d e rs h)

pub slots_bytes-modify :
    (d : Device) (ss : List Slot) (i : ℕ) (f : Slot → Slot) {s : Slot}
    → get_elem? ss i ≡ some s
    → slots_bytes d (modify ss i f) + slot_bytes d s ≡ slots_bytes d ss + slot_bytes d (f s)
unfolding slots_bytes
slots_bytes-modify d [] i f h = absurd (ground arith)
slots_bytes-modify d (s ∷ ss) zero f h = ground arith
slots_bytes-modify d (s ∷ ss) (suc i) f h = omega (arith, slots_bytes-modify d ss i f h)

pub slots_bytes-all_empty :
    (d : Device) (ss : List Slot) → all_empty ss ≡ true → slots_bytes d ss ≡ 0
unfolding slots_bytes all_empty freed
slots_bytes-all_empty d [] h = refl
slots_bytes-all_empty d (s ∷ ss) h = ground (arith, slots_bytes-all_empty d ss)

pub slots_bytes-replicate :
    (d : Device) (n : ℕ) → slots_bytes d (replicate n (record { replicas = [] })) ≡ 0
unfolding slots_bytes freed
slots_bytes-replicate d zero = refl
slots_bytes-replicate d (suc n) = omega (arith, slots_bytes-replicate d n)

pub owned_on-insert :
    (d : Device) (k : Key) (o p : Object) (m : List (Key × Object))
    → lookup k m ≡ some o
    → owned_on d (insert k p m) + object_bytes d o ≡ object_bytes d p + owned_on d m
owned_on-insert d k o p m h = total-insert (object_bytes d) k p o m h

pub owned_on-write_back :
    (d : Device) (k : Key) (o p : Object) (m : List (Key × Object))
    → lookup k m ≡ some o
    → owned_on d (write_back k p m) + object_bytes d o ≡ object_bytes d p + owned_on d m
unfolding write_back
owned_on-write_back d k o p m h = elim (Bool-cases (all_empty p.slots)) [
  | inl e ↦
      rw e (omega (arith, total-remove (object_bytes d) k o m h, slots_bytes-all_empty d p.slots e))
  | inr e ↦ rw e (owned_on-insert d k o p m h)
]
