-- ===== src/Local/Claims/Exclusive.antt =====
-- A claim and the end of a claim keep the tickets exclusive.
use pegastore.Prelude.{
  ℕ, ◌+◌, ◌≡◌, sym, ◌∙◌, ◌≢◌, ap, true, some, List, [], ◌∷◌, ◌++◌, map, arith, length, get_elem?,
  modify, All, All-append, subst, length-modify, get_elem?-modify_ne,
}
use pegastore.Prelude.Order.{bytes_ord}
use pegastore.Prelude.Ordered.{lookup}
use pegastore.Core.Types.{Key}
use pegastore.Memory.State.{dec_key}
use pegastore.Local.State.{Slot, Object, State}
use pegastore.Local.Evict.{is_vacant}
use pegastore.Local.Targets.{claim_slot}
use pegastore.Local.Sound.{IsFit, IsWriting, IsSound, All-map}
use pegastore.Local.Writes.{
  CanHold, rewrite_object, rewrite_object-IsSound, IsWriting-elsewhere, IsWriting-here,
  CanHold-lookup,
}
use pegastore.Local.Claims.{Ticket, tickets, AreDistinct, IsExclusive}
use pegastore.Local.Claims.Slots.{
  claim_slot-writing, claim_slot-keeps, vacant_not_writing, claimed-IsAligned, length-claimed,
  get_elem?-claimed, IsFor, tickets_lem,
}

pub All-middle :
    (P : Ticket → Type 0) (xs ys : List Ticket) (t : Ticket) → All P (xs ++ t ∷ ys) → P t
All-middle P [] ys t a = a.0
All-middle P (x ∷ xs) ys t a = All-middle P xs ys t a.1

All-drop :
    (P : Ticket → Type 0) (xs ys : List Ticket) (t : Ticket)
    → All P (xs ++ t ∷ ys)
    → All P (xs ++ ys)
All-drop P [] ys t a = a.1
All-drop P (x ∷ xs) ys t a = (a.0, All-drop P xs ys t a.1)

-- A ticket in the middle of distinct ones.
distinct-middle :
    (front back : List Ticket) (t : Ticket)
    → AreDistinct (front ++ t ∷ back)
    → All (λ u. t ≢ u) (front ++ back) × AreDistinct (front ++ back)
distinct-middle [] back t d = (d.0, d.1)
distinct-middle (x ∷ front) back t d =
    let (a, b) = distinct-middle front back t d.1 in
    (((λ e. All-middle (λ u. x ≢ u) front back t d.0 (sym e)), a), (All-drop _ front back t d.0, b))

All-two :
    (P Q R : Ticket → Type 0) (ts : List Ticket)
    → ((t : Ticket) → P t → Q t → R t)
    → All P ts
    → All Q ts
    → All R ts
All-two P Q R [] f a b = tt
All-two P Q R (t ∷ ts) f a b = (f t a.0 b.0, All-two P Q R ts f a.1 b.1)

distinct-append :
    (xs ys : List Ticket)
    → AreDistinct xs
    → AreDistinct ys
    → All (λ x. All (λ y. x ≢ y) ys) xs
    → AreDistinct (xs ++ ys)
distinct-append [] ys dx dy a = dy
distinct-append (x ∷ xs) ys dx dy a =
    (All-append _ xs ys dx.0 a.0, distinct-append xs ys dx.1 dy a.1)

zero_add : (n : ℕ) → 0 + n ≡ n
zero_add n = omega arith

-- The object of a claim, which is there or new.
module _ (kb : Key) (obj : Object) (st : State) where
  unfoldable pub claimed : Object
  claimed = record obj { slots = map claim_slot obj.slots }

  module _ (sound : IsSound st) (fit : IsFit obj) (room : CanHold kb (length obj.slots) st) where
    claimed-IsSound : IsSound (rewrite_object kb claimed st)
    unfolding claimed
    claimed-IsSound =
        rewrite_object-IsSound kb claimed st sound (claimed-IsAligned obj.slots obj.spec.slots fit)
          (subst (λ n. CanHold kb n st) (sym (length-claimed obj.slots)) room)

  -- The tickets of the claim.
  new-IsWriting :
      (t : Ticket)
      → IsFor kb 0 obj.slots t
      → IsWriting (lookup t.0 (rewrite_object kb claimed st).objects) t.1
  unfolding claimed
  new-IsWriting t (j, s, e, at, v) =
      let q : t ≡ (kb, j) = e ∙ ap (λ m. (kb, m)) (zero_add j) in
      subst (λ (u : Ticket). IsWriting (lookup u.0 (rewrite_object kb claimed st).objects) u.1)
        (sym q)
        (IsWriting-here kb claimed st j (claim_slot s) (get_elem?-claimed obj.slots j at)
          (claim_slot-writing s v))

  module _ (here : (o : Object) → lookup kb st.objects ≡ some o → o ≡ obj) where
    old-IsWriting :
        (k : Key) (i : ℕ)
        → IsWriting (lookup k st.objects) i
        → IsWriting (lookup k (rewrite_object kb claimed st).objects) i
    unfolding claimed
    old-IsWriting k i w = elim (dec_key kb k) [
      | no ne ↦ IsWriting-elsewhere kb claimed st k i ne w
      | yes e ↦
          let (o, s, at_k, at, writing) = w in
          let same : o ≡ obj = here o (ap (λ x. lookup x st.objects) e ∙ at_k) in
          rw (sym e) (
            IsWriting-here kb claimed st i (claim_slot s)
              (get_elem?-claimed obj.slots i
                (subst (λ (x : Object). get_elem? x.slots i ≡ some s) same at))
              (claim_slot-keeps s writing))
    ]

    apart : (t u : Ticket) → IsFor kb 0 obj.slots t → IsWriting (lookup u.0 st.objects) u.1 → t ≢ u
    apart t u (j, s, e, at, v) (o, s', at_k, at', writing) same =
        let q : u ≡ (kb, j) = sym same ∙ e ∙ ap (λ m. (kb, m)) (zero_add j) in
        let k_same : u.0 ≡ kb = ap (λ (x : Ticket). x.0) q in
        let j_same : u.1 ≡ j = ap (λ (x : Ticket). x.1) q in
        let o_same : o ≡ obj = here o (ap (λ x. lookup x st.objects) (sym k_same) ∙ at_k) in
        let at'' : get_elem? obj.slots j ≡ some s' =
          ap (get_elem? obj.slots) (sym j_same)
          ∙ subst (λ (x : Object). get_elem? x.slots u.1 ≡ some s') o_same at' in
        let s_same : s ≡ s' = cc in
        let busy = vacant_not_writing s' writing in
        let free : is_vacant s' ≡ true = subst (λ x. is_vacant x ≡ true) s_same v in cc

    pub claimed-IsExclusive :
        (ts : List Ticket)
        → IsExclusive (st, ts)
        → IsFit obj
        → CanHold kb (length obj.slots) st
        → IsExclusive (rewrite_object kb claimed st, tickets kb 0 (map is_vacant obj.slots) ++ ts)
    claimed-IsExclusive ts x fit room =
        let (new, d) = tickets_lem kb 0 obj.slots in
        let fresh = tickets kb 0 (map is_vacant obj.slots) in
        record {
          sound = claimed-IsSound x.sound fit room;
          claimed =
              All-append _ fresh ts (All-map _ _ fresh new-IsWriting new)
                (All-map _ _ ts (λ t. old-IsWriting t.0 t.1) x.claimed);
          distinct =
              distinct-append fresh ts d x.distinct
                (All-map _ _ fresh (λ t f. All-map _ _ ts (λ u w. apart t u f w) x.claimed) new);
        }

-- A put is done with a slot: its object is written back with that slot changed.
module _ (kb : Key) (i : ℕ) (obj : Object) (st : State) (f : Slot → Slot) where
  unfoldable pub freed : Object
  freed = record obj { slots = modify obj.slots i f }

  module _ (here : lookup kb st.objects ≡ some obj) (front back : List Ticket)
      (x : IsExclusive (st, front ++ (kb, i) ∷ back)) (fit : IsFit freed) where
    still-IsWriting :
        (t : Ticket)
        → (kb, i) ≢ t
        → IsWriting (lookup t.0 st.objects) t.1
        → IsWriting (lookup t.0 (rewrite_object kb freed st).objects) t.1
    unfolding freed
    still-IsWriting t ne w = elim (dec_key kb t.0) [
      | no other ↦ IsWriting-elsewhere kb freed st t.0 t.1 other w
      | yes e ↦
          let (o, s, at_k, at, writing) = w in
          let same : o ≡ obj =
            let there : lookup kb st.objects ≡ some o = ap (λ k. lookup k st.objects) e ∙ at_k in
            cc in
          rw (sym e) (
            IsWriting-here kb freed st t.1 s
              (get_elem?-modify_ne obj.slots i t.1 f (λ q. ne (pair_eq e q))
                ∙ subst (λ (y : Object). get_elem? y.slots t.1 ≡ some s) same at)
              writing)
    ]
      where
        pair_eq : {k k' : Key} {n n' : ℕ} → k ≡ k' → n ≡ n' → ◌≡◌ {A = Ticket} (k, n) (k', n')
        pair_eq p q = cc

    pub freed-IsExclusive : IsExclusive (rewrite_object kb freed st, front ++ back)
    unfolding freed
    freed-IsExclusive =
        let (others, distinct) = distinct-middle front back (kb, i) x.distinct in
        let rest =
          All-drop (λ t. IsWriting (lookup t.0 st.objects) t.1) front back (kb, i) x.claimed in
        record {
          sound = rewrite_object-IsSound kb freed st x.sound fit (
              subst (λ n. CanHold kb n st) (sym (length-modify obj.slots i f))
                (CanHold-lookup kb st obj x.sound here));
          claimed = All-two _ _ _ (front ++ back) still-IsWriting others rest;
          distinct = distinct;
        }
