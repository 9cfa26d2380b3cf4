-- ===== src/Prelude/Order.antt =====
-- Rust's `Ord`: a three-way comparison with its laws, for `u64` and for byte strings.
use Prim.Native.Nat.{ℕ, compare, Ordering}
use Prim.Native.Nat.Ordering.{lt, eq, gt}
use mathlib.Core.Path.{◌≡◌, refl}
use mathlib.Core.List.{List, [], ◌∷◌}
use native.Mathlib.Omega.{arith}

pub record IsOrder {ℓ} {T : Type ℓ} (cmp : T → T → Ordering) : Type ℓ where
  pub cmp_trans : (x y z : T) → cmp x y ≡ lt → cmp y z ≡ lt → cmp x z ≡ lt
  pub cmp_lt_gt : (x y : T) → cmp x y ≡ lt → cmp y x ≡ gt
  pub cmp_gt_lt : (x y : T) → cmp x y ≡ gt → cmp y x ≡ lt
  pub eq_of_cmp : (x y : T) → cmp x y ≡ eq → x ≡ y
  pub cmp_refl : (x : T) → cmp x x ≡ eq

-- A type with a comparison and its laws.
pub record Ord {ℓ} (T : Type ℓ) : Type ℓ where
  pub cmp : T → T → Ordering
  pub laws : IsOrder cmp
  pub open laws use *

pub compare-IsOrder : IsOrder compare
compare-IsOrder = ground arith

instance abbrev pub nat_ord : Ord ℕ
nat_ord = record { cmp = compare; laws = compare-IsOrder }

-- `&[u8]` compares byte by byte, and a prefix is less.
unfoldable pub cmp_bytes : List ℕ → List ℕ → Ordering
cmp_bytes [] [] = eq
cmp_bytes [] (y ∷ ys) = lt
cmp_bytes (x ∷ xs) [] = gt
cmp_bytes (x ∷ xs) (y ∷ ys) = elim (compare x y) [ lt ↦ lt | eq ↦ cmp_bytes xs ys | gt ↦ gt ]

cmp_bytes_refl : (a : List ℕ) → cmp_bytes a a ≡ eq
unfolding cmp_bytes
cmp_bytes_refl [] = refl
cmp_bytes_refl (x ∷ xs) = ground (arith, cmp_bytes_refl xs)

eq_of_cmp_bytes : (a b : List ℕ) → cmp_bytes a b ≡ eq → a ≡ b
unfolding cmp_bytes
eq_of_cmp_bytes [] [] h = refl
eq_of_cmp_bytes [] (y ∷ ys) h = cc
eq_of_cmp_bytes (x ∷ xs) [] h = cc
eq_of_cmp_bytes (x ∷ xs) (y ∷ ys) h = ground (arith, eq_of_cmp_bytes xs ys)

cmp_bytes-lt-gt : (a b : List ℕ) → cmp_bytes a b ≡ lt → cmp_bytes b a ≡ gt
unfolding cmp_bytes
cmp_bytes-lt-gt [] [] h = cc
cmp_bytes-lt-gt [] (y ∷ ys) h = refl
cmp_bytes-lt-gt (x ∷ xs) [] h = cc
cmp_bytes-lt-gt (x ∷ xs) (y ∷ ys) h = ground (arith, cmp_bytes-lt-gt xs ys)

cmp_bytes-gt-lt : (a b : List ℕ) → cmp_bytes a b ≡ gt → cmp_bytes b a ≡ lt
unfolding cmp_bytes
cmp_bytes-gt-lt [] [] h = cc
cmp_bytes-gt-lt [] (y ∷ ys) h = cc
cmp_bytes-gt-lt (x ∷ xs) [] h = refl
cmp_bytes-gt-lt (x ∷ xs) (y ∷ ys) h = ground (arith, cmp_bytes-gt-lt xs ys)

cmp_bytes_trans : (a b c : List ℕ) → cmp_bytes a b ≡ lt → cmp_bytes b c ≡ lt → cmp_bytes a c ≡ lt
unfolding cmp_bytes
cmp_bytes_trans [] [] c h k = cc
cmp_bytes_trans [] (y ∷ ys) [] h k = cc
cmp_bytes_trans [] (y ∷ ys) (z ∷ zs) h k = refl
cmp_bytes_trans (x ∷ xs) [] c h k = cc
cmp_bytes_trans (x ∷ xs) (y ∷ ys) [] h k = cc
cmp_bytes_trans (x ∷ xs) (y ∷ ys) (z ∷ zs) h k = ground (arith, cmp_bytes_trans xs ys zs)

pub cmp_bytes-IsOrder : IsOrder cmp_bytes
cmp_bytes-IsOrder = record {
  cmp_refl = cmp_bytes_refl;
  eq_of_cmp = eq_of_cmp_bytes;
  cmp_lt_gt = cmp_bytes-lt-gt;
  cmp_gt_lt = cmp_bytes-gt-lt;
  cmp_trans = cmp_bytes_trans;
}

instance abbrev pub bytes_ord : Ord (List ℕ)
bytes_ord = record { cmp = cmp_bytes; laws = cmp_bytes-IsOrder }
