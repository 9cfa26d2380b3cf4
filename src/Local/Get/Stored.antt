-- ===== src/Local/Get/Stored.antt =====
-- The chosen replica is one of the slot's, and a read that ends leaves the store as it was.
use pegastore.Prelude.{
  ℕ, zero, suc, ◌≡◌, refl, sym, ◌∙◌, ap, Bool, true, false, ◌||◌, some, List, [], ◌∷◌, arith,
  get_elem?, All, Bool-cases, inl, inr, ◌⊎◌, subst, if_pos,
}
use pegastore.Prelude.Order.{bytes_ord}
use pegastore.Prelude.Ordered.{lookup}
use pegastore.Core.Types.{Key, Device}
use pegastore.Memory.Get.{is_below}
use pegastore.Local.Copy.{Seg}
use pegastore.Local.State.{
  PoolBuf, dec_buf, is_read, pinned, external, ReplicaData, ReplicaEntry, Slot, Object, State,
  Inner,
}
use pegastore.Local.Sound.{All-map}
use pegastore.Local.Get.{
  rank, nearest, min_from, start_read, remove_reader, holds, any_slot_holds, is_stored, end_read,
}

min_from-All :
    (P : ReplicaEntry → Type 0) (inner : Inner) (d : Device) (rs : List ReplicaEntry)
    (best : ReplicaEntry)
    → P best
    → All P rs
    → P (min_from inner d best rs)
unfolding min_from
min_from-All P inner d [] best b a = b
min_from-All P inner d (r ∷ rs) best b a =
    elim (Bool-cases (is_below (rank inner d r) (rank inner d best))) [
      | inl t ↦ rw t (min_from-All P inner d rs r a.0 a.1)
      | inr f ↦ rw f (min_from-All P inner d rs best b a.1)
    ]

pub nearest-All :
    (P : ReplicaEntry → Type 0) (inner : Inner) (d : Device) (rs : List ReplicaEntry)
    (r : ReplicaEntry)
    → nearest inner d rs ≡ some r
    → All P rs
    → P r
unfolding nearest
nearest-All P inner d [] r h a = absurd cc
nearest-All P inner d (x ∷ rs) r h a =
    let q : min_from inner d x rs ≡ r = cc in subst P q (min_from-All P inner d rs x a.0 a.1)

-- A replica of a slot is stored, so the end of a read leaves its buffer alone.
pub holds-All :
    (b : PoolBuf) (rs : List ReplicaEntry) → All (λ r. r.shared ≡ pinned b → holds b rs ≡ true) rs
unfolding holds
holds-All b [] = tt
holds-All b (r ∷ rs) = (
  λ e. rw e (rw (if_pos (dec_buf b b) refl true false) refl),
  All-map _ _ rs (λ x f e. let later = f e in ground arith) (holds-All b rs),
)

pub holds-slot :
    (b : PoolBuf) (ss : List Slot) (i : ℕ) {s : Slot}
    → get_elem? ss i ≡ some s
    → holds b s.replicas ≡ true
    → any_slot_holds b ss ≡ true
unfolding any_slot_holds
holds-slot b [] i h k = absurd (ground arith)
holds-slot b (x ∷ ss) zero {s} h k =
    let q : x ≡ s = cc in
    let k' : holds b x.replicas ≡ true =
      subst (λ (y : Slot). holds b y.replicas ≡ true) (sym q) k in
    rw k' refl
holds-slot b (x ∷ ss) (suc i) h k = let later = holds-slot b ss i h k in ground arith

pub holds-stored :
    (b : PoolBuf) (kb : Key) (m : List (Key × Object)) (o : Object)
    → lookup kb m ≡ some o
    → any_slot_holds b o.slots ≡ true
    → is_stored b m ≡ true
unfolding is_stored lookup
holds-stored b kb [] o h k = absurd (ground arith)
holds-stored b kb ((j, x) ∷ m) o h k = ground (arith, holds-stored b kb m o)

data-cases :
    (x : ReplicaData)
    → ((b : PoolBuf) × (x ≡ pinned b)) ⊎ ((ss : List Seg) × (id : ℕ) × (x ≡ external ss id))
data-cases (pinned b) = inl (b, refl)
data-cases (external ss id) = inr (ss, id, refl)

or_true : (x : Bool) {y : Bool} → y ≡ true → (x || y) ≡ true
or_true true h = refl
or_true false h = h

-- The reader's own reference comes and goes.
end_read-pinned :
    (r : ReplicaEntry) (b : PoolBuf) (st : State)
    → r.shared ≡ pinned b
    → is_stored b st.objects ≡ true
    → end_read r (record st { readers = b ∷ st.readers }) ≡ st
unfolding end_read remove_reader
end_read-pinned r b st e kept =
    let rem : remove_reader b (b ∷ st.readers) ≡ st.readers =
      if_pos (dec_buf b b) refl st.readers (b ∷ remove_reader b st.readers) in
    rw (end_read, e)
      (rw (or_true (is_read b (remove_reader b (b ∷ st.readers))) kept)
        (ap (λ cs. record st { readers = cs }) rem))

pub end_read-start_read :
    (r : ReplicaEntry) (st : State)
    → ((b : PoolBuf) → r.shared ≡ pinned b → is_stored b st.objects ≡ true)
    → end_read r (start_read r st) ≡ st
unfolding end_read start_read
end_read-start_read r st h = elim (data-cases r.shared) [
  | inr (ss, id, e) ↦
      let same : start_read r st ≡ st = rw (start_read, e) refl in
      ap (end_read r) same ∙ (rw (end_read, e) refl)
  | inl (b, e) ↦
      let same : start_read r st ≡ record st { readers = b ∷ st.readers } =
        rw (start_read, e) refl in
      ap (end_read r) same ∙ end_read-pinned r b st e (h b e)
]
