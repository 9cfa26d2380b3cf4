-- ===== src/Rdma/Regions/Apart.antt =====
-- Regions that do not overlap.
use pegastore.Prelude.{
  subst, sym, ap, ◌∙◌, inl, inr, Bool-cases, ltb, ltb→lt, ℕ, ◌+◌, ◌≤◌, ◌<◌, ◌≡◌, ◌⊎◌, refl, none,
  some, [], ◌∷◌, arith, All, u64_mod, leb, if◌then◌else◌, Option,
}
use pegastore.Prelude.Order.{nat_ord}
use pegastore.Prelude.Ordered.{insert, range_from}
use pegastore.Rdma.Regions.{
  RegisteredMemoryEntry, Entries, good, insert_entry, predecessor, successor, find_overlap,
  overlaps_prev, overlaps_next, insert_checked,
}

-- Entries under their base, not empty, ascending from a bound with no overlap, within 64 bits.
abbrev pub AreApart : ℕ → Entries → Type 0
AreApart lo [] = Unit {0}
AreApart lo ((k, e) ∷ m) =
    (k ≡ e.base_ptr) × (lo ≤ k) × (0 < e.len) × (k + e.len < u64_mod) × AreApart (k + e.len) m

-- A range shares no address with a region.
abbrev pub IsClear : ℕ → ℕ → ℕ × RegisteredMemoryEntry → Type 0
IsClear base end x = (end ≤ x.0) ⊎ (x.0 + x.1.len ≤ base)

AreApart-le : (lo hi : ℕ) (m : Entries) → lo ≤ hi → AreApart hi m → AreApart lo m
AreApart-le lo hi [] h a = tt
AreApart-le lo hi ((k, e) ∷ m) h a = (a.0, omega arith, a.2, a.3, a.4)

above-All : (base end lo : ℕ) (m : Entries) → AreApart lo m → end ≤ lo → All (IsClear base end) m
above-All base end lo [] a h = tt
above-All base end lo ((k, e) ∷ m) a h =
    (ground arith, above-All base end (k + e.len) m a.4 (omega arith))

pub predecessor-none : (p lo : ℕ) (m : Entries) → AreApart lo m → p < lo → predecessor p m ≡ none
unfolding predecessor
predecessor-none p lo [] a h = refl
predecessor-none p lo ((k, e) ∷ m) a h = ground arith

pub predecessor-some :
    (p lo : ℕ) (m : Entries) (x : RegisteredMemoryEntry)
    → AreApart lo m
    → predecessor p m ≡ some x
    → (lo ≤ x.base_ptr) × (x.base_ptr ≤ p)
unfolding predecessor
predecessor-some p lo [] x a h = absurd (ground arith)
predecessor-some p lo ((k, e) ∷ m) x a h =
    go (predecessor p m) (λ y. predecessor-some p (k + e.len) m y a.4) h
  where
    go :
        (o : Option RegisteredMemoryEntry)
        → ((y : RegisteredMemoryEntry) → o ≡ some y → (k + e.len ≤ y.base_ptr) × (y.base_ptr ≤ p))
        → (if leb k p
            then elim o as (λ _. Option RegisteredMemoryEntry) [
              | none ↦ some e
              | some later ↦ some later
            ]
            else none)
          ≡ some x
        → (lo ≤ x.base_ptr) × (x.base_ptr ≤ p)
    go none ih same = ground arith
    go (some y) ih same = ground (arith, ih y refl)

-- The region at or above the start, if any, is the first of the list.
successor-head :
    (base k : ℕ) (e : RegisteredMemoryEntry) (m : Entries)
    → base ≤ k
    → successor base ((k, e) ∷ m) ≡ some (k, e)
unfolding successor range_from
successor-head base k e m h = ground arith

successor-skip :
    (base k : ℕ) (e : RegisteredMemoryEntry) (m : Entries)
    → k < base
    → successor base ((k, e) ∷ m) ≡ successor base m
unfolding successor range_from
successor-skip base k e m h = ground arith

pub predecessor-step :
    (base k : ℕ) (e : RegisteredMemoryEntry) (m : Entries)
    → k ≤ base
    → predecessor base ((k, e) ∷ m)
      ≡ elim (predecessor base m) [ none ↦ some e | some later ↦ some later ]
unfolding predecessor
predecessor-step base k e m h = ground arith

abbrev overlap_of :
    ℕ
    → ℕ
    → Option RegisteredMemoryEntry
    → Option (ℕ × RegisteredMemoryEntry)
    → Option RegisteredMemoryEntry
overlap_of base end p q = elim (overlaps_prev base p) as (λ _. Option RegisteredMemoryEntry) [
  | some e ↦ some e
  | none ↦ overlaps_next end q
]

overlap_of-none :
    (base end : ℕ) (p : Option RegisteredMemoryEntry) (q : Option (ℕ × RegisteredMemoryEntry))
    → overlap_of base end p q ≡ none
    → (overlaps_prev base p ≡ none) × (overlaps_next end q ≡ none)
overlap_of-none base end p q = go (overlaps_prev base p)
  where
    go :
        (o : Option RegisteredMemoryEntry)
        → elim o as (λ _. Option RegisteredMemoryEntry) [
          | some e ↦ some e
          | none ↦ overlaps_next end q
        ]
          ≡ none
        → (o ≡ none) × (overlaps_next end q ≡ none)
    go none h = (refl, h)
    go (some e) h = absurd (ground arith)

overlaps_next-none :
    (end k : ℕ) (e : RegisteredMemoryEntry) → overlaps_next end (some (k, e)) ≡ none → end ≤ k
unfolding overlaps_next
overlaps_next-none end k e h = ground arith

overlaps_prev-none :
    (base : ℕ) (e : RegisteredMemoryEntry)
    → overlaps_prev base (some e) ≡ none
    → e.base_ptr + e.len ≤ base
unfolding overlaps_prev
overlaps_prev-none base e h = ground arith

-- The search finds nothing only when the range is clear of every region.
find_overlap-none :
    (base end lo : ℕ) (m : Entries)
    → AreApart lo m
    → base < end
    → find_overlap base end m ≡ none
    → All (IsClear base end) m
unfolding find_overlap
find_overlap-none base end lo [] a lt h = tt
find_overlap-none base end lo ((k, e) ∷ m) a lt h = elim (Bool-cases (ltb k base)) [
  | inl t ↦
      let less : k < base = ltb→lt k base t in
      before (predecessor base m) refl less (find_overlap-none base end (k + e.len) m a.4 lt) (
        sym (
          ap (λ p. overlap_of base end p (successor base m))
            (predecessor-step base k e m (omega arith)))
        ∙ sym (
            ap (overlap_of base end (predecessor base ((k, e) ∷ m)))
              (successor-skip base k e m less))
        ∙ h)
  | inr f ↦
      let past : base ≤ k = ground arith in
      let (_, next) = overlap_of-none base end _ _ h in
      let far : end ≤ k =
        overlaps_next-none end k e
          (ap (overlaps_next end) (sym (successor-head base k e m past)) ∙ next) in
      (inl far, above-All base end (k + e.len) m a.4 (omega arith))
]
  where
    before :
        (o : Option RegisteredMemoryEntry)
        → predecessor base m ≡ o
        → k < base
        → (overlap_of base end (predecessor base m) (successor base m) ≡ none
            → All (IsClear base end) m)
        → overlap_of base end
            (elim o as (λ _. Option RegisteredMemoryEntry) [
              | none ↦ some e
              | some later ↦ some later
            ])
            (successor base m)
          ≡ none
        → All (IsClear base end) ((k, e) ∷ m)
    before none e1 less ih same =
        let (prev, next) = overlap_of-none base end (some e) (successor base m) same in
        let under : e.base_ptr + e.len ≤ base = overlaps_prev-none base e prev in
        (inr (omega (arith, a.0)), ih (rw e1 next))
    before (some y) e1 less ih same =
        (inr (omega (arith, predecessor-some base (k + e.len) m y a.4 e1)), ih (rw e1 same))

-- The insertion of a region that is accepted leaves the regions apart, itself among them.
insert-AreApart :
    (x : RegisteredMemoryEntry) (lo : ℕ) (m : Entries)
    → AreApart lo m
    → lo ≤ x.base_ptr
    → 0 < x.len
    → x.base_ptr + x.len < u64_mod
    → All (IsClear x.base_ptr (x.base_ptr + x.len)) m
    → AreApart lo (insert x.base_ptr x m)
unfolding insert
insert-AreApart x lo [] a le pos small clear = (refl, le, pos, small, tt)
insert-AreApart x lo ((k, e) ∷ m) a le pos small clear =
    ground
      (arith, insert-AreApart x (k + e.len) m a.4, AreApart-le (k + e.len) (x.base_ptr + x.len) m)

insert_checked-good :
    (x : RegisteredMemoryEntry) (m m' : Entries) (o : Option RegisteredMemoryEntry)
    → insert_checked x m o ≡ good m'
    → (o ≡ none) × (m' ≡ insert x.base_ptr x m)
unfolding insert_checked
insert_checked-good x m m' none h = (refl, cc)
insert_checked-good x m m' (some e) h = absurd (ground arith)

insert_entry-good :
    (x : RegisteredMemoryEntry) (m m' : Entries)
    → insert_entry x m ≡ good m'
    → (0 < x.len)
      × (x.base_ptr + x.len < u64_mod)
      × (find_overlap x.base_ptr (x.base_ptr + x.len) m ≡ none)
      × (m' ≡ insert x.base_ptr x m)
unfolding insert_entry
insert_entry-good x m m' h =
    ground (arith, insert_checked-good x m m' (find_overlap x.base_ptr (x.base_ptr + x.len) m))

-- From regions that are apart, each not empty and within 64 bits, an insertion that succeeds was of
-- such a region, which shared no address with any of them; its result is the map with the region
-- under its base, and all regions are apart again.
pub insert_entry-AreApart :
    (x : RegisteredMemoryEntry) (m m' : Entries)
    → AreApart 0 m
    → insert_entry x m ≡ good m'
    → (0 < x.len)
      × (x.base_ptr + x.len < u64_mod)
      × All (IsClear x.base_ptr (x.base_ptr + x.len)) m
      × (m' ≡ insert x.base_ptr x m)
      × AreApart 0 m'
insert_entry-AreApart x m m' a h =
    let (pos, small, none_found, same) = insert_entry-good x m m' h in
    let clear = find_overlap-none x.base_ptr (x.base_ptr + x.len) 0 m a (omega arith) none_found in
    (
      pos,
      small,
      clear,
      same,
      subst (AreApart 0) (sym same) (insert-AreApart x 0 m a (omega arith) pos small clear),
    )
