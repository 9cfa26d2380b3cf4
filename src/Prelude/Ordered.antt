-- ===== src/Prelude/Ordered.antt =====
-- `BTreeMap` as a list of entries by ascending key; every operation searches by comparison.
use Prim.Native.Nat.{ℕ, ◌+◌}
use Prim.Native.Nat.Ordering.{lt, eq, gt}
use mathlib.Core.Path.{◌≡◌, refl, sym}
use mathlib.Core.List.{List, [], ◌∷◌}
use mathlib.Core.Option.{Option, none, some}
use native.Mathlib.Omega.{arith}
use pegastore.Prelude.Order.{Ord}
use pegastore.Prelude.Lists.{All}
use mathlib.Core.Path.{subst}
use mathlib.Core.Logic.{◌⊎◌, inl, inr}

module _ {K V : Type 0} ⦃o : Ord K⦄ where
  unfoldable pub lookup : K → List (K × V) → Option V
  lookup k [] = none
  lookup k ((j, v) ∷ m) = elim (o.cmp k j) [ lt ↦ none | eq ↦ some v | gt ↦ lookup k m ]

  unfoldable pub insert : K → V → List (K × V) → List (K × V)
  insert k v [] = (k, v) ∷ []
  insert k v ((j, w) ∷ m) = elim (o.cmp k j) [
    | lt ↦ (k, v) ∷ (j, w) ∷ m
    | eq ↦ (k, v) ∷ m
    | gt ↦ (j, w) ∷ insert k v m
  ]

  unfoldable pub remove : K → List (K × V) → List (K × V)
  remove k [] = []
  remove k ((j, w) ∷ m) = elim (o.cmp k j) [ lt ↦ (j, w) ∷ m | eq ↦ m | gt ↦ (j, w) ∷ remove k m ]

  -- `range(k..)`: the entries from the first key that is not below.
  unfoldable pub range_from : K → List (K × V) → List (K × V)
  range_from k [] = []
  range_from k ((j, w) ∷ m) = elim (o.cmp j k) [ lt ↦ range_from k m | _ ↦ (j, w) ∷ m ]

  -- The total of a measure of the entries follows every write.
  module _ (f : V → ℕ) where
    unfoldable pub total : List (K × V) → ℕ
    total [] = 0
    total ((j, v) ∷ m) = f v + total m

    pub total-insert_new :
        (k : K) (v : V) (m : List (K × V))
        → lookup k m ≡ none
        → total (insert k v m) ≡ f v + total m
    unfolding lookup insert total
    total-insert_new k v [] h = refl
    total-insert_new k v ((j, w) ∷ m) h = ground (arith, total-insert_new k v m)

    pub total-insert :
        (k : K) (v w : V) (m : List (K × V))
        → lookup k m ≡ some w
        → total (insert k v m) + f w ≡ f v + total m
    unfolding lookup insert total
    total-insert k v w [] h = absurd (ground arith)
    total-insert k v w ((j, x) ∷ m) h = ground (arith, total-insert k v w m)

    pub total-remove :
        (k : K) (w : V) (m : List (K × V))
        → lookup k m ≡ some w
        → total (remove k m) + f w ≡ total m
    unfolding lookup remove total
    total-remove k w [] h = absurd (ground arith)
    total-remove k w ((j, x) ∷ m) h = ground (arith, total-remove k w m)

  lookup_cases :
      (k j : K) (w : V) (m : List (K × V)) {v : V}
      → lookup k ((j, w) ∷ m) ≡ some v
      → ((k ≡ j) × (w ≡ v)) ⊎ (lookup k m ≡ some v)
  unfolding lookup
  lookup_cases k j w m h = ground (arith, o.eq_of_cmp k j)

  -- A property of every entry, under reads and writes.
  module _ {κ} (P : K × V → Type κ) where
    pub All-lookup : (k : K) (m : List (K × V)) {v : V} → All P m → lookup k m ≡ some v → P (k, v)
    unfolding lookup
    All-lookup k [] a h = absurd (ground arith)
    All-lookup k ((j, w) ∷ m) {v} a h = elim (lookup_cases k j w m h) [
      | inl (here, same) ↦ subst (λ x. P (k, x)) same (subst (λ x. P (x, w)) (sym here) a.0)
      | inr there ↦ All-lookup k m a.1 there
    ]

    pub All-insert : (k : K) (v : V) (m : List (K × V)) → All P m → P (k, v) → All P (insert k v m)
    unfolding insert
    All-insert k v [] a p = (p, tt)
    All-insert k v ((j, w) ∷ m) a p = ground (arith, All-insert k v m a.1 p)

    pub All-remove : (k : K) (m : List (K × V)) → All P m → All P (remove k m)
    unfolding remove
    All-remove k [] a = tt
    All-remove k ((j, w) ∷ m) a = ground (arith, All-remove k m a.1)
