-- ===== src/Prelude/Results.antt =====
-- Panics, checked arithmetic on u64 and one-point updates of functions.
use Prim.Native.Nat.{ℕ, ◌+◌, ◌-◌}
use mathlib.Core.Path.{◌≡◌, refl, sym, ◌∙◌}
use mathlib.Core.Logic.{◌≢◌, ◌⊎◌, inl, inr, ite, if_pos, if_neg}
use mathlib.Core.Option.{Option, none, some}
use pegastore.Prelude.Tests.{ltb, if◌then◌else◌}

-- What a Rust call does: it returns, or it panics (a slice index out of range, `unwrap` of `None`).
pub data Run {ℓ} (A : Type ℓ) : Type ℓ where
  done : A → Run A
  panic : Run A

infixl 5 ◌>>=◌
abbrev pub ◌>>=◌ {ℓ κ} : {A : Type ℓ} {B : Type κ} → Run A → (A → Run B) → Run B
done a >>= f = f a
panic >>= f = panic

pub >>=-eq-done {ℓ κ} :
    {A : Type ℓ} {B : Type κ} (m : Run A) (f : A → Run B) {b : B}
    → (m >>= f) ≡ done b
    → (a : A) × (m ≡ done a) × (f a ≡ done b)
>>=-eq-done (done a) f h = (a, refl, h)
>>=-eq-done panic f h = cc

-- `unwrap`, and an index that is checked.
abbrev pub unwrap {ℓ} : {A : Type ℓ} → Option A → Run A
unwrap none = panic
unwrap (some a) = done a

abbrev pub u64_mod : ℕ
u64_mod = 18446744073709551616

-- `u64::checked_add`.
abbrev pub checked_add : ℕ → ℕ → Option ℕ
checked_add a b = if ltb (a + b) u64_mod then some (a + b) else none

-- `u64::saturating_add`.
abbrev pub saturating_add : ℕ → ℕ → ℕ
saturating_add a b = if ltb (a + b) u64_mod then a + b else u64_mod - 1

-- A finite map as a function, with one entry written.
module _ {ℓ κ} {K : Type ℓ} {V : Type κ} (dec : Discrete K) where
  unfoldable pub update : (K → V) → K → V → K → V
  update f k v j = ite (dec j k) v (f j)

  pub update_self : (f : K → V) (k : K) (v : V) → update f k v k ≡ v
  unfolding update
  update_self f k v = if_pos _ refl v (f k)

  pub update_ne : (f : K → V) (k j : K) (v : V) → j ≢ k → update f k v j ≡ f j
  unfolding update
  update_ne f k j v h = if_neg _ h v (f j)

-- What a read finds after a write of `some w`.
pub update_cases {ℓ κ} :
    {K : Type ℓ} {W : Type κ} (dec : Discrete K) (f : K → Option W) (k j : K) (w : W) {x : W}
    → update dec f k (some w) j ≡ some x
    → ((j ≡ k) × (w ≡ x)) ⊎ ((j ≢ k) × (f j ≡ some x))
unfolding update
update_cases dec f k j w {x} h = elim (dec j k) [
  | yes p ↦ let e : some w ≡ some x = sym (if_pos _ p (some w) (f j)) ∙ h in inl (p, cc)
  | no n ↦ inr (n, sym (if_neg _ n (some w) (f j)) ∙ h)
]
