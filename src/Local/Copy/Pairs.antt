-- ===== src/Local/Copy/Pairs.antt =====
-- Segments as lists of addresses, and the byte moves that a list of chunks makes.
use pegastore.Prelude.{
  ℕ, zero, suc, ◌+◌, ◌-◌, ◌%◌, ◌≤◌, ◌≡◌, refl, ap, List, [], ◌∷◌, ◌++◌, arith, u64_mod, length,
  take, drop,
}
use pegastore.Local.Copy.{Seg}

-- The addresses of `n` bytes from `a` on.
unfoldable pub addresses : ℕ → ℕ → List ℕ
addresses a zero = []
addresses a (suc n) = a % u64_mod ∷ addresses (a + 1) n

unfoldable pub seg_addresses : List Seg → List ℕ
seg_addresses [] = []
seg_addresses (s ∷ ss) = addresses s.addr s.len ++ seg_addresses ss

unfoldable pub pairs : List ℕ → List ℕ → List (ℕ × ℕ)
pairs [] ys = []
pairs (x ∷ xs) [] = []
pairs (x ∷ xs) (y ∷ ys) = (x, y) ∷ pairs xs ys

-- A call of the engine: source, destination and length.
unfoldable pub moves : List (ℕ × ℕ × ℕ) → List (ℕ × ℕ)
unfolding addresses pairs
moves [] = []
moves ((a, b, n) ∷ cs) = pairs (addresses a n) (addresses b n) ++ moves cs

addresses_cong : (a b n : ℕ) → a % u64_mod ≡ b % u64_mod → addresses a n ≡ addresses b n
unfolding addresses
addresses_cong a b zero h = refl
addresses_cong a b (suc n) h = rw (h, addresses_cong (a + 1) (b + 1) n (omega arith)) refl

-- An address that has wrapped starts the same bytes.
pub addresses-mod : (a n : ℕ) → addresses (a % u64_mod) n ≡ addresses a n
addresses-mod a n = addresses_cong (a % u64_mod) a n (omega arith)

pub length-addresses : (a n : ℕ) → length (addresses a n) ≡ n
unfolding addresses
length-addresses a zero = refl
length-addresses a (suc n) = ap suc (length-addresses (a + 1) n)

pub drop-addresses :
    (k a n : ℕ) (ys : List ℕ)
    → k ≤ n
    → drop k (addresses a n ++ ys) ≡ addresses (a + k) (n - k) ++ ys
unfolding addresses
drop-addresses zero a n ys h = ground arith
drop-addresses (suc k) a zero ys h = absurd (ground arith)
drop-addresses (suc k) a (suc n) ys h =
    let q : a + suc k ≡ a + 1 + k = omega arith in
    let r : suc n - suc k ≡ n - k = omega arith in
    rw (q, r) (drop-addresses k (a + 1) n ys (omega arith))

pub take-addresses :
    (k a n : ℕ) (ys : List ℕ) → k ≤ n → take k (addresses a n ++ ys) ≡ addresses a k
unfolding addresses
take-addresses zero a n ys h = refl
take-addresses (suc k) a zero ys h = absurd (ground arith)
take-addresses (suc k) a (suc n) ys h = ground (arith, take-addresses k (a + 1) n ys)

pub drop_nil : (n : ℕ) → drop {A = ℕ} n [] ≡ []
drop_nil zero = refl
drop_nil (suc n) = refl

take_nil : (n : ℕ) → take {A = ℕ} n [] ≡ []
take_nil zero = refl
take_nil (suc n) = refl

pub pairs_nil : (xs : List ℕ) → pairs xs [] ≡ []
unfolding pairs
pairs_nil [] = refl
pairs_nil (x ∷ xs) = refl

pub drop-drop : (j k : ℕ) (xs : List ℕ) → drop j (drop k xs) ≡ drop (k + j) xs
drop-drop j zero xs = ground arith
drop-drop j (suc k) [] = let q : suc k + j ≡ suc (k + j) = omega arith in rw (q, drop_nil j) refl
drop-drop j (suc k) (x ∷ xs) =
    let q : suc k + j ≡ suc (k + j) = omega arith in rw q (drop-drop j k xs)

sub_zero : (n : ℕ) → n - 0 ≡ n
sub_zero n = omega arith

-- The pairs of two lists, cut after the first `n`.
pub pairs-cut :
    (n l : ℕ) (xs ys : List ℕ)
    → n ≤ l
    → pairs (take l xs) ys
      ≡ pairs (take n xs) (take n ys) ++ pairs (take (l - n) (drop n xs)) (drop n ys)
unfolding pairs
pairs-cut zero l xs ys h = rw (sub_zero l) refl
pairs-cut (suc n) zero xs ys h = absurd (ground arith)
pairs-cut (suc n) (suc l) [] ys h = rw (take_nil (suc l - suc n)) refl
pairs-cut (suc n) (suc l) (x ∷ xs) [] h = rw (pairs_nil (take (suc l - suc n) (drop n xs))) refl
pairs-cut (suc n) (suc l) (x ∷ xs) (y ∷ ys) h =
    let q : suc l - suc n ≡ l - n = omega arith in
    rw q (ap (λ z. (x, y) ∷ z) (pairs-cut n l xs ys (omega arith)))
