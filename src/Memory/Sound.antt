-- ===== src/Memory/Sound.antt =====
-- The invariant of the reference backend.
use pegastore.Prelude.{
  ℕ, ◌<◌, ◌≡◌, ◌≢◌, some, List, [], ◌∷◌, arith, length, All, Bool-cases, inl, inr, update,
  update_cases, ap, sym, ◌∙◌, subst, zero, suc, get_elem?, modify, refl,
}
use pegastore.Prelude.Order.{bytes_ord}
use pegastore.Prelude.Ordered.{lookup, insert, All-lookup, All-insert, All-remove}
use pegastore.Prelude.Sorted.{
  IsSorted, insert-IsSorted, remove-IsSorted, lookup-insert_ne, lookup-remove_ne,
}
use pegastore.Core.Types.{Key, Device, dec_device, SlotSpec}
use pegastore.Memory.State.{Object, Pool, State, Slot, data_len}
use pegastore.Memory.Evict.{write_back, all_empty}
use pegastore.Memory.Measure.{owned_on}

-- A queue entry names a slot that exists, if its key is still there.
abbrev pub IsInRange : List (Key × Object) → Key × ℕ → Type 0
IsInRange objects e = All (λ o. o.0 ≡ e.0 → e.1 < length o.1.slots) objects

-- Slots go with their specs, and every replica has the length of its slot.
abbrev pub IsAligned : List Slot → List SlotSpec → Type 0
IsAligned [] [] = Unit {0}
IsAligned [] (p ∷ ps) = ⊥
IsAligned (s ∷ ss) [] = ⊥
IsAligned (s ∷ ss) (p ∷ ps) = All (λ r. data_len r.bytes ≡ p.len) s.replicas × IsAligned ss ps

abbrev pub IsFit : Object → Type 0
IsFit o = IsAligned o.slots o.spec.slots

abbrev pub AreFit : List (Key × Object) → Type 0
AreFit objects = All (λ e. IsFit e.1) objects

-- Keys ascend; slots fit their specs; each pool counts exactly the owned bytes on its device; no
-- queue entry is out of range.
pub record IsSound (st : State) : Type 0 where
  pub sorted : IsSorted st.objects
  pub fit : AreFit st.objects
  pub accounted : (d : Device) (p : Pool) → st.pools d ≡ some p → p.used ≡ owned_on d st.objects
  pub queued : (d : Device) (p : Pool) → st.pools d ≡ some p → All (IsInRange st.objects) p.fifo

pub All-map {ℓ} :
    {A : Type ℓ} (P Q : A → Type 0) (xs : List A) → ((x : A) → P x → Q x) → All P xs → All Q xs
All-map P Q [] f a = tt
All-map P Q (x ∷ xs) f a = (f x a.0, All-map P Q xs f a.1)

pub IsInRange-insert :
    (k : Key) (o p : Object) (m : List (Key × Object)) (e : Key × ℕ)
    → lookup k m ≡ some o
    → length p.slots ≡ length o.slots
    → IsInRange m e
    → IsInRange (insert k p m) e
IsInRange-insert k o p m e h same a =
    All-insert _ k p m a λ here. omega (arith, All-lookup _ k m a h here)

-- A write of an object with as many slots, or its removal, keeps queue entries in range.
pub IsInRange-write_back :
    (k : Key) (o p : Object) (m : List (Key × Object)) (e : Key × ℕ)
    → lookup k m ≡ some o
    → length p.slots ≡ length o.slots
    → IsInRange m e
    → IsInRange (write_back k p m) e
unfolding write_back
IsInRange-write_back k o p m e h same a = elim (Bool-cases (all_empty p.slots)) [
  | inl t ↦ rw t (All-remove _ k m a)
  | inr f ↦ rw f (IsInRange-insert k o p m e h same a)
]

pub write_back-IsSorted :
    (k : Key) (p : Object) (m : List (Key × Object)) → IsSorted m → IsSorted (write_back k p m)
unfolding write_back
write_back-IsSorted k p m s = elim (Bool-cases (all_empty p.slots)) [
  | inl t ↦ rw t (remove-IsSorted k m s)
  | inr f ↦ rw f (insert-IsSorted k p m s)
]

pub lookup-write_back_ne :
    (k j : Key) (p : Object) (m : List (Key × Object))
    → IsSorted m
    → k ≢ j
    → lookup j (write_back k p m) ≡ lookup j m
unfolding write_back
lookup-write_back_ne k j p m s h = elim (Bool-cases (all_empty p.slots)) [
  | inl t ↦ rw t (lookup-remove_ne k j m s h)
  | inr f ↦ rw f (lookup-insert_ne k j p m h)
]

-- The invariant, after the objects and one pool have been written.
pub IsSound-update :
    (st : State) (objects : List (Key × Object)) (d : Device) (q : Pool)
    → IsSound st
    → IsSorted objects
    → AreFit objects
    → q.used ≡ owned_on d objects
    → ((e : Device) → e ≢ d → owned_on e objects ≡ owned_on e st.objects)
    → ((e : Key × ℕ) → IsInRange st.objects e → IsInRange objects e)
    → All (IsInRange objects) q.fifo
    → IsSound (record { objects = objects; pools = update dec_device st.pools d (some q) })
IsSound-update st objects d q v sorted fit exact elsewhere keep queue = record {
  sorted = sorted;
  fit = fit;
  accounted = λ e x h. elim (update_cases dec_device st.pools d e q h) [
    | inl (same, is) ↦
        sym (ap (λ (y : Pool). y.used) is) ∙ exact ∙ ap (λ y. owned_on y objects) (sym same)
    | inr (ne, old) ↦ v.accounted e x old ∙ sym (elsewhere e ne)
  ];
  queued = λ e x h. elim (update_cases dec_device st.pools d e q h) [
    | inl (same, is) ↦ subst (λ (y : Pool). All (IsInRange objects) y.fifo) is queue
    | inr (ne, old) ↦ All-map _ _ x.fifo keep (v.queued e x old)
  ];
}

pub IsAligned-length :
    (ss : List Slot) (ps : List SlotSpec) → IsAligned ss ps → length ss ≡ length ps
IsAligned-length [] [] a = refl
IsAligned-length [] (p ∷ ps) a = absurd a
IsAligned-length (s ∷ ss) [] a = absurd a
IsAligned-length (s ∷ ss) (p ∷ ps) a = ap suc (IsAligned-length ss ps a.1)

-- A write to one slot keeps the lengths, if the new replicas have that of the slot.
pub IsAligned-modify :
    (ss : List Slot) (ps : List SlotSpec) (i : ℕ) (f : Slot → Slot)
    → IsAligned ss ps
    → ((s : Slot) (p : SlotSpec)
        → get_elem? ss i ≡ some s
        → get_elem? ps i ≡ some p
        → All (λ r. data_len r.bytes ≡ p.len) s.replicas
        → All (λ r. data_len r.bytes ≡ p.len) (f s).replicas)
    → IsAligned (modify ss i f) ps
IsAligned-modify [] [] i f a h = tt
IsAligned-modify [] (p ∷ ps) i f a h = absurd a
IsAligned-modify (s ∷ ss) [] i f a h = absurd a
IsAligned-modify (s ∷ ss) (p ∷ ps) zero f a h = (h s p refl refl a.0, a.1)
IsAligned-modify (s ∷ ss) (p ∷ ps) (suc i) f a h = (a.0, IsAligned-modify ss ps i f a.1 h)

pub AreFit-write_back :
    (k : Key) (p : Object) (m : List (Key × Object))
    → IsFit p
    → AreFit m
    → AreFit (write_back k p m)
unfolding write_back
AreFit-write_back k p m fit a = elim (Bool-cases (all_empty p.slots)) [
  | inl t ↦ rw t (All-remove _ k m a)
  | inr f ↦ rw f (All-insert _ k p m a fit)
]
