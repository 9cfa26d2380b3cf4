-- ===== src/Prelude/Sorted.antt =====
-- Maps with ascending keys: what a write keeps, and what later reads see of it.

use Prim.Native.Nat.Ordering.{lt, eq, gt}
use mathlib.Core.Path.{◌≡◌, refl, subst, sym, ap}
use mathlib.Core.Logic.{◌≢◌, ◌⊎◌, inl, inr}
use mathlib.Core.List.{List, [], ◌∷◌}
use mathlib.Core.Option.{none, some}
use native.Mathlib.Omega.{arith}
use pegastore.Prelude.Order.{Ord}
use pegastore.Prelude.Lists.{All}
use pegastore.Prelude.Ordered.{lookup, insert, remove, All-insert, All-remove}
use Prim.Native.Nat.{Ordering}

Ordering-cases : (c : Ordering) → (c ≡ lt) ⊎ ((c ≡ eq) ⊎ (c ≡ gt))
Ordering-cases lt = inl refl
Ordering-cases eq = inr (inl refl)
Ordering-cases gt = inr (inr refl)

gt-absurd : {K : Type 0} ⦃o : Ord K⦄ (k j : K) → o.cmp k j ≡ gt → j ≡ k → ⊥
gt-absurd ⦃o⦄ k j h e = ground (arith, o.cmp_refl k, ap (o.cmp k) e)

module _ {K V : Type 0} ⦃o : Ord K⦄ where
  abbrev pub IsAbove : K → List (K × V) → Type 0
  IsAbove k m = All (λ e. o.cmp k e.0 ≡ lt) m

  abbrev pub IsSorted : List (K × V) → Type 0
  IsSorted [] = Unit {0}
  IsSorted ((k, v) ∷ m) = IsAbove k m × IsSorted m

  IsAbove-trans : (k j : K) (m : List (K × V)) → o.cmp k j ≡ lt → IsAbove j m → IsAbove k m
  IsAbove-trans k j [] h a = tt
  IsAbove-trans k j ((i, v) ∷ m) h a = (o.cmp_trans k j i h a.0, IsAbove-trans k j m h a.1)

  lookup_below : (k : K) (m : List (K × V)) → IsAbove k m → lookup k m ≡ none
  unfolding lookup
  lookup_below k [] a = refl
  lookup_below k ((j, v) ∷ m) a = ground arith

  pub insert-IsSorted : (k : K) (v : V) (m : List (K × V)) → IsSorted m → IsSorted (insert k v m)
  unfolding insert
  insert-IsSorted k v [] s = (tt, tt)
  insert-IsSorted k v ((j, w) ∷ m) s = ground (
    arith,
    o.eq_of_cmp k j,
    o.cmp_gt_lt k j,
    IsAbove-trans k j m,
    All-insert (λ e. o.cmp j e.0 ≡ lt) k v m s.0,
    insert-IsSorted k v m s.1,
  )

  pub remove-IsSorted : (k : K) (m : List (K × V)) → IsSorted m → IsSorted (remove k m)
  unfolding remove
  remove-IsSorted k [] s = tt
  remove-IsSorted k ((j, w) ∷ m) s =
      ground (arith, All-remove (λ e. o.cmp j e.0 ≡ lt) k m s.0, remove-IsSorted k m s.1)

  pub lookup-insert_self : (k : K) (v : V) (m : List (K × V)) → lookup k (insert k v m) ≡ some v
  unfolding lookup insert
  lookup-insert_self k v [] = ground (arith, o.cmp_refl k)
  lookup-insert_self k v ((j, w) ∷ m) = ground (arith, o.cmp_refl k, lookup-insert_self k v m)

  pub lookup-insert_ne :
      (k j : K) (v : V) (m : List (K × V)) → k ≢ j → lookup j (insert k v m) ≡ lookup j m
  unfolding lookup insert
  lookup-insert_ne k j v [] h = ground (arith, o.eq_of_cmp j k)
  lookup-insert_ne k j v ((i, w) ∷ m) h =
      ground
        (arith, o.eq_of_cmp j k, o.eq_of_cmp k i, o.cmp_trans j k i, lookup-insert_ne k j v m h)

  pub lookup-remove_ne :
      (k j : K) (m : List (K × V)) → IsSorted m → k ≢ j → lookup j (remove k m) ≡ lookup j m
  unfolding lookup remove
  lookup-remove_ne k j [] s h = refl
  lookup-remove_ne k j ((i, w) ∷ m) s h = ground (
    arith,
    o.eq_of_cmp j i,
    o.eq_of_cmp k i,
    IsAbove-trans j i m,
    lookup_below j m,
    lookup-remove_ne k j m s.1 h,
  )

  pub lookup-remove_self : (k : K) (m : List (K × V)) → IsSorted m → lookup k (remove k m) ≡ none
  unfolding lookup remove
  lookup-remove_self k [] s = refl
  lookup-remove_self k ((j, w) ∷ m) s =
      ground (arith, o.eq_of_cmp k j, lookup_below j m s.0, lookup-remove_self k m s.1)

  above-absurd {κ} :
      (P : V → Type κ) (k : K) (m : List (K × V)) → IsAbove k m → All (λ e. e.0 ≡ k → P e.1) m
  above-absurd P k [] a = tt
  above-absurd P k ((j, w) ∷ m) a =
      ((λ e. absurd (ground (arith, o.cmp_refl k, ap (o.cmp k) e))), above-absurd P k m a.1)

  -- In a sorted map the entry that a read finds is the only one with its key.
  pub entry_unique {κ} :
      (P : V → Type κ) (k : K) (m : List (K × V)) {v : V}
      → IsSorted m
      → lookup k m ≡ some v
      → P v
      → All (λ e. e.0 ≡ k → P e.1) m
  unfolding lookup
  entry_unique P k [] s h p = tt
  entry_unique P k ((j, w) ∷ m) {v} s h p = elim (Ordering-cases (o.cmp k j)) [
    | inl below ↦ absurd (ground arith)
    | inr (inl same) ↦
        let found : w ≡ v = ground arith in
        (
          (λ e. subst P (sym found) p),
          above-absurd (λ x. P x) k m (subst (λ x. IsAbove x m) (sym (o.eq_of_cmp k j same)) s.0),
        )
    | inr (inr over) ↦
        ((λ e. absurd (gt-absurd k j over e)), entry_unique P k m s.1 (ground arith) p)
  ]
