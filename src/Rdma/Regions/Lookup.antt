-- ===== src/Rdma/Regions/Lookup.antt =====
-- The region that covers an address range.
use pegastore.Prelude.{
  ℕ, ◌+◌, ◌≤◌, ◌<◌, ◌≡◌, ◌↔◌, refl, none, some, Option, [], ◌∷◌, arith, u64_mod, leb, if◌then◌else◌,
}
use pegastore.Prelude.Order.{nat_ord}
use pegastore.Prelude.Ordered.{lookup}
use pegastore.Rdma.Regions.{RegisteredMemoryEntry, Entries, predecessor, find_entry}
use pegastore.Rdma.Regions.Apart.{AreApart, predecessor-none, predecessor-some, predecessor-step}

lookup-past :
    (j k : ℕ) (e : RegisteredMemoryEntry) (m : Entries) → k < j → lookup j ((k, e) ∷ m) ≡ lookup j m
unfolding lookup
lookup-past j k e m h = ground arith

predecessor-lookup :
    (p lo : ℕ) (m : Entries) (x : RegisteredMemoryEntry)
    → AreApart lo m
    → predecessor p m ≡ some x
    → lookup x.base_ptr m ≡ some x
unfolding predecessor lookup
predecessor-lookup p lo [] x a h = absurd (ground arith)
predecessor-lookup p lo ((k, e) ∷ m) x a h =
    go (predecessor p m)
      (λ y q.
        let (above, below) = predecessor-some p (k + e.len) m y a.4 q in
        (predecessor-lookup p (k + e.len) m y a.4 q, above, below))
      h
  where
    go :
        (o : Option RegisteredMemoryEntry)
        → ((y : RegisteredMemoryEntry)
            → o ≡ some y
            → (lookup y.base_ptr m ≡ some y) × (k + e.len ≤ y.base_ptr) × (y.base_ptr ≤ p))
        → (if leb k p
            then elim o as (λ _. Option RegisteredMemoryEntry) [
              | none ↦ some e
              | some later ↦ some later
            ]
            else none)
          ≡ some x
        → lookup x.base_ptr ((k, e) ∷ m) ≡ some x
    go none ih same = ground arith
    go (some y) ih same = ground (arith, ih y refl)

predecessor_unique :
    (p j lo : ℕ) (m : Entries) (x : RegisteredMemoryEntry)
    → AreApart lo m
    → lookup j m ≡ some x
    → x.base_ptr ≤ p
    → p < x.base_ptr + x.len
    → predecessor p m ≡ some x
unfolding lookup
predecessor_unique p j lo [] x a h le lt = absurd (ground arith)
predecessor_unique p j lo ((k, e) ∷ m) x a h le lt = ground (
  arith,
  predecessor-none p (k + e.len) m a.4,
  predecessor_unique p j (k + e.len) m x a.4,
  predecessor-some p (k + e.len) m x a.4,
  predecessor-step p k e m,
)

-- Where regions are apart, a range that is not empty and ends within 64 bits resolves to a region
-- exactly when that region is registered under its base and covers the range.
pub find_entry-some_iff :
    (ptr len : ℕ) (m : Entries) (x : RegisteredMemoryEntry)
    → AreApart 0 m
    → 0 < len
    → ptr + len < u64_mod
    → (find_entry ptr len m ≡ some x)
      ↔ ((lookup x.base_ptr m ≡ some x) × (x.base_ptr ≤ ptr) × (ptr + len ≤ x.base_ptr + x.len))
unfolding find_entry
find_entry-some_iff ptr len m x a pos small = ground (
  arith,
  predecessor-lookup ptr 0 m x a,
  predecessor-some ptr 0 m x a,
  predecessor_unique ptr x.base_ptr 0 m x a,
)
