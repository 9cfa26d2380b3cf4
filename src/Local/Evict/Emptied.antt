-- ===== src/Local/Evict/Emptied.antt =====
-- The object whose slot an eviction has emptied, written back or removed.
use pegastore.Prelude.{
  ℕ, ◌≡◌, sym, ◌∙◌, ◌≢◌, ap, true, false, none, some, List, [], ◌∷◌, arith, length, get_elem?,
  modify, length-modify, Bool-cases, inl, inr, zero, suc, get_elem?-modify_self,
  get_elem?-modify_ne, ℕ_discrete, subst, ◌⊎◌,
}
use pegastore.Prelude.Order.{bytes_ord}
use pegastore.Prelude.Ordered.{lookup, All-insert, All-remove}
use pegastore.Prelude.Sorted.{
  IsSorted, insert-IsSorted, remove-IsSorted, lookup-insert_ne, lookup-remove_ne,
  lookup-insert_self, lookup-remove_self,
}
use pegastore.Core.Types.{Key, Device, SlotSpec}
use pegastore.Memory.State.{dec_key}
use pegastore.Local.State.{Slot, Object}
use pegastore.Local.Evict.{evict_slot, is_vacant, all_vacant, write_back}
use pegastore.Local.Sound.{IsAligned, IsFit, AreFit, IsWriting, Wears, Wears-same, All-retain}

-- The object that an eviction writes back.
unfoldable pub emptied : Device → ℕ → Object → Object
emptied d i obj = record obj { slots = modify obj.slots i (evict_slot d) }

-- A slot that is written keeps its object.
all_vacant-get_elem? :
    (ss : List Slot) (i : ℕ) {s : Slot}
    → get_elem? ss i ≡ some s
    → s.writing ≡ true
    → all_vacant ss ≡ false
unfolding all_vacant is_vacant
all_vacant-get_elem? [] i h w = absurd (ground arith)
all_vacant-get_elem? (x ∷ ss) zero h w = ground arith
all_vacant-get_elem? (x ∷ ss) (suc i) h w = ground (arith, all_vacant-get_elem? ss i h w)

emptied-writing :
    (d : Device) (i j : ℕ) (obj : Object) {s : Slot}
    → get_elem? obj.slots j ≡ some s
    → s.writing ≡ true
    → (t : Slot) × (get_elem? (emptied d i obj).slots j ≡ some t) × (t.writing ≡ true)
unfolding emptied evict_slot
emptied-writing d i j obj {s} h w = elim (ℕ_discrete i j) [
  | yes e ↦ (evict_slot d s, rw e (get_elem?-modify_self obj.slots j (evict_slot d) h), w)
  | no n ↦ (s, get_elem?-modify_ne obj.slots i j (evict_slot d) n ∙ h, w)
]

module _ (d : Device) (k : Key) (i : ℕ) (obj : Object) (m : List (Key × Object)) (s : IsSorted m)
    (here : lookup k m ≡ some obj) where
  lookup-emptied :
      (lookup k (write_back k (emptied d i obj) m) ≡ none)
        × (all_vacant (emptied d i obj).slots ≡ true)
      ⊎ (lookup k (write_back k (emptied d i obj) m) ≡ some (emptied d i obj))
  unfolding write_back
  lookup-emptied = elim (Bool-cases (all_vacant (emptied d i obj).slots)) [
    | inl t ↦ inl (rw t (lookup-remove_self k m s), t)
    | inr f ↦ inr (rw f (lookup-insert_self k (emptied d i obj) m))
  ]

  emptied-shape :
      (p : Object)
      → lookup k (write_back k (emptied d i obj) m) ≡ some p
      → length p.slots ≡ length obj.slots
  unfolding emptied
  emptied-shape p h = elim lookup-emptied [
    | inl gone ↦ absurd (let g = gone.0 in cc)
    | inr stays ↦
        let e : emptied d i obj ≡ p = unfold emptied in cc in
        ap (λ (o : Object). length o.slots) (sym e) ∙ length-modify obj.slots i (evict_slot d)
  ]

  emptied-IsWriting :
      (j : ℕ) → IsWriting (lookup k m) j → IsWriting (lookup k (write_back k (emptied d i obj) m)) j
  emptied-IsWriting j (o, slot, h, at, w) =
      let same : o ≡ obj = cc in
      let (t, at', w') =
        emptied-writing d i j obj (subst (λ (x : Object). get_elem? x.slots j ≡ some slot) same at)
          w in
      elim lookup-emptied [
        | inl gone ↦
            let f = all_vacant-get_elem? (emptied d i obj).slots j at' w' in
            let g = gone.1 in absurd (ground arith)
        | inr stays ↦ (emptied d i obj, t, stays, at', w')
      ]

  emptied-Wears : Wears (lookup k m) (lookup k (write_back k (emptied d i obj) m))
  emptied-Wears = record {
    shape = λ p h. (obj, here, emptied-shape p h);
    writing = emptied-IsWriting;
  }

  pub lookup-elsewhere :
      (j : Key) → k ≢ j → lookup j (write_back k (emptied d i obj) m) ≡ lookup j m
  unfolding write_back
  lookup-elsewhere j ne = elim (Bool-cases (all_vacant (emptied d i obj).slots)) [
    | inl t ↦ rw t (lookup-remove_ne k j m s ne)
    | inr f ↦ rw f (lookup-insert_ne k j (emptied d i obj) m ne)
  ]

  pub write_back-Wears :
      (j : Key) → Wears (lookup j m) (lookup j (write_back k (emptied d i obj) m))
  write_back-Wears j = elim (dec_key k j) [
    | no ne ↦ Wears-same _ _ (lookup-elsewhere j ne)
    | yes e ↦ rw (sym e) emptied-Wears
  ]

  pub write_back-IsSorted : IsSorted (write_back k (emptied d i obj) m)
  unfolding write_back
  write_back-IsSorted = elim (Bool-cases (all_vacant (emptied d i obj).slots)) [
    | inl t ↦ rw t (remove-IsSorted k m s)
    | inr f ↦ rw f (insert-IsSorted k (emptied d i obj) m s)
  ]

  pub write_back-AreFit :
      AreFit m → IsFit (emptied d i obj) → AreFit (write_back k (emptied d i obj) m)
  unfolding write_back
  write_back-AreFit a fit = elim (Bool-cases (all_vacant (emptied d i obj).slots)) [
    | inl t ↦ rw t (All-remove _ k m a)
    | inr f ↦ rw f (All-insert _ k (emptied d i obj) m a fit)
  ]

pub emptied-IsAligned :
    (d : Device) (i : ℕ) (ss : List Slot) (ps : List SlotSpec)
    → IsAligned ss ps
    → IsAligned (modify ss i (evict_slot d)) ps
unfolding evict_slot
emptied-IsAligned d i [] [] a = tt
emptied-IsAligned d i [] (p ∷ ps) a = a
emptied-IsAligned d i (s ∷ ss) [] a = absurd a
emptied-IsAligned d zero (s ∷ ss) (p ∷ ps) a = (All-retain _ _ s.replicas a.0, a.1)
emptied-IsAligned d (suc i) (s ∷ ss) (p ∷ ps) a = (a.0, emptied-IsAligned d i ss ps a.1)
