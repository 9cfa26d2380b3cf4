-- ===== src/Local/Claims/Slots.antt =====
-- What the phases do to the slots of an object.
use pegastore.Prelude.{
  ℕ, zero, suc, ◌+◌, ◌≡◌, refl, ◌∙◌, ◌≢◌, ap, Bool, true, false, some, List, [], ◌∷◌, map, arith,
  length, get_elem?, modify, All, Bool-cases, inl, inr, replicate, append-nil,
}
use pegastore.Core.Types.{Key, SlotSpec, ObjectSpec}
use pegastore.Local.State.{PoolBuf, segs, Slot}
use pegastore.Local.Evict.{is_vacant}
use pegastore.Local.Targets.{claim_slot, new_object}
use pegastore.Local.Put.{new_replicas}
use pegastore.Local.Copy.Pairs.{seg_addresses, length-addresses}
use pegastore.Local.Sound.{IsAligned, IsFit, replica_len}
use pegastore.Local.Claims.{Ticket, tickets, AreDistinct}

pub claim_slot-writing : (s : Slot) → is_vacant s ≡ true → (claim_slot s).writing ≡ true
unfolding claim_slot
claim_slot-writing s h = rw h refl

pub claim_slot-keeps : (s : Slot) → s.writing ≡ true → (claim_slot s).writing ≡ true
unfolding claim_slot is_vacant
claim_slot-keeps s h = ground arith

pub vacant_not_writing : (s : Slot) → s.writing ≡ true → is_vacant s ≡ false
unfolding is_vacant
vacant_not_writing s h = ground arith

claim_slot-replicas : (s : Slot) → (claim_slot s).replicas ≡ s.replicas
unfolding claim_slot
claim_slot-replicas s = ground arith

pub claimed-IsAligned :
    (ss : List Slot) (ps : List SlotSpec) → IsAligned ss ps → IsAligned (map claim_slot ss) ps
claimed-IsAligned [] ps a = a
claimed-IsAligned (s ∷ ss) [] a = absurd a
claimed-IsAligned (s ∷ ss) (p ∷ ps) a =
    (rw (claim_slot-replicas s) a.0, claimed-IsAligned ss ps a.1)

pub length-claimed : (ss : List Slot) → length (map claim_slot ss) ≡ length ss
length-claimed [] = refl
length-claimed (s ∷ ss) = ap suc (length-claimed ss)

pub get_elem?-claimed :
    (ss : List Slot) (i : ℕ) {s : Slot}
    → get_elem? ss i ≡ some s
    → get_elem? (map claim_slot ss) i ≡ some (claim_slot s)
get_elem?-claimed [] i h = absurd (ground arith)
get_elem?-claimed (x ∷ ss) zero h = ground arith
get_elem?-claimed (x ∷ ss) (suc i) h = get_elem?-claimed ss i h

pub new_object-IsFit : (spec : ObjectSpec) → IsFit (new_object spec)
unfolding new_object
new_object-IsFit spec = fresh spec.slots
  where
    fresh :
        (ps : List SlotSpec)
        → IsAligned (replicate (length ps) (record { replicas = []; writing = false })) ps
    fresh [] = tt
    fresh (p ∷ ps) = (tt, fresh ps)

-- A write to one slot keeps the lengths, if the new replicas have that of the slot.
pub IsAligned-modify :
    (ss : List Slot) (ps : List SlotSpec) (i : ℕ) (f : Slot → Slot)
    → IsAligned ss ps
    → ((s : Slot) (p : SlotSpec)
        → get_elem? ss i ≡ some s
        → get_elem? ps i ≡ some p
        → All (λ r. replica_len r ≡ p.len) s.replicas
        → All (λ r. replica_len r ≡ p.len) (f s).replicas)
    → IsAligned (modify ss i f) ps
IsAligned-modify [] ps i f a h = a
IsAligned-modify (s ∷ ss) [] i f a h = absurd a
IsAligned-modify (s ∷ ss) (p ∷ ps) zero f a h = (h s p refl refl a.0, a.1)
IsAligned-modify (s ∷ ss) (p ∷ ps) (suc i) f a h = (a.0, IsAligned-modify ss ps i f a.1 h)

pub new_replicas-len :
    (n : ℕ) (bs : List (Bool × PoolBuf))
    → All (λ b. b.1.buf.len ≡ n) bs
    → All (λ r. replica_len r ≡ n) (new_replicas bs)
unfolding new_replicas replica_len segs seg_addresses
new_replicas-len n [] a = tt
new_replicas-len n ((m, b) ∷ bs) a =
    (ap length (append-nil _) ∙ length-addresses _ _ ∙ a.0, new_replicas-len n bs a.1)

-- A ticket of a claim is for a slot that was vacant.
abbrev pub IsFor : Key → ℕ → List Slot → Ticket → Type 0
IsFor kb n ss t =
    (j : ℕ) × (s : Slot) × (t ≡ (kb, n + j)) × (get_elem? ss j ≡ some s) × (is_vacant s ≡ true)

IsFor-later :
    (kb : Key) (n : ℕ) (s : Slot) (ss : List Slot) (ts : List Ticket)
    → All (IsFor kb (suc n) ss) ts
    → All (IsFor kb n (s ∷ ss)) ts
IsFor-later kb n s ss [] a = tt
IsFor-later kb n s ss (t ∷ ts) a =
    let (j, x, e, at, v) = a.0 in
    let q : suc n + j ≡ n + suc j = omega arith in
    ((suc j, x, e ∙ ap (λ m. (kb, m)) q, at, v), IsFor-later kb n s ss ts a.1)

later_ne :
    (kb : Key) (n : ℕ) (ss : List Slot) (ts : List Ticket)
    → All (IsFor kb (suc n) ss) ts
    → All (λ u. (kb, n) ≢ u) ts
later_ne kb n ss [] a = tt
later_ne kb n ss (t ∷ ts) a =
    let (j, x, e, at, v) = a.0 in
    (
      (λ same. let q : n ≡ suc n + j = ap (λ (u : Ticket). u.1) (same ∙ e) in absurd (omega arith)),
      later_ne kb n ss ts a.1,
    )

pub tickets_lem :
    (kb : Key) (n : ℕ) (ss : List Slot)
    → All (IsFor kb n ss) (tickets kb n (map is_vacant ss))
      × AreDistinct (tickets kb n (map is_vacant ss))
unfolding tickets
tickets_lem kb n [] = (tt, tt)
tickets_lem kb n (s ∷ ss) =
    let (a, d) = tickets_lem kb (suc n) ss in
    let b = IsFor-later kb n s ss (tickets kb (suc n) (map is_vacant ss)) a in
    elim (Bool-cases (is_vacant s)) [
      | inr f ↦ rw f (b, d)
      | inl t ↦
          let q : n ≡ n + 0 = omega arith in
          rw t (((0, s, ap (λ m. (kb, m)) q, refl, t), b), (later_ne kb n ss _ a, d))
    ]
