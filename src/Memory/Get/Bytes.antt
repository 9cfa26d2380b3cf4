-- ===== src/Memory/Get/Bytes.antt =====
-- The bytes of a replica, and the bytes that a destination takes, address by address.
use native.Mathlib.Nat.{zero-sub, sub-zero, suc-sub-suc, min-zero, zero-min, suc-min-suc}
use pegastore.Prelude.{
  ℕ, zero, suc, ◌+◌, ◌-◌, ◌≤◌, ◌≡◌, refl, sym, ◌∙◌, ap, false, List, [], ◌∷◌, ◌++◌, map, arith,
  done, length, take, drop, length-take, length-drop, length-append, min, ltb, leb, ◌==◌, ==_iff,
  update, ℕ_discrete, le→leb, Bool-cases, inl, inr,
}
use pegastore.Core.Region.{Iov, as_ptr}
use pegastore.Core.Ops.Validation.{total_len}
use pegastore.Memory.State.{ReplicaData, owned, data_len, segs_len}
use pegastore.Memory.Place.{Ram, read_bytes}
use pegastore.Memory.Get.{write_bytes, scatter, read_segs, read}

-- The addresses of a range, of a segment list, and of a destination list.
abbrev pub range : ℕ → ℕ → List ℕ
range p zero = []
range p (suc n) = p ∷ range (p + 1) n

abbrev pub seg_addresses : List (ℕ × ℕ) → List ℕ
seg_addresses [] = []
seg_addresses ((addr, len) ∷ segs) = range addr len ++ seg_addresses segs

abbrev pub iov_addresses : List Iov → List ℕ
iov_addresses [] = []
iov_addresses (v ∷ vs) = range (as_ptr v) v.len ++ iov_addresses vs

-- The bytes that a replica holds: its own, or those of the memory at the addresses of its segments.
abbrev pub bytes_of : Ram → ReplicaData → List ℕ
bytes_of ram (owned b) = b
bytes_of ram (ReplicaData.external segs id) = map ram (seg_addresses segs)

-- One byte for each address, in order, as long as there are both.
abbrev pub store_all : List ℕ → List ℕ → Ram → Ram
store_all [] bs ram = ram
store_all (a ∷ later) [] ram = ram
store_all (a ∷ later) (b ∷ bs) ram = store_all later bs (update ℕ_discrete ram a b)

module _ {A : Type 0} where
  take-nil : (n : ℕ) → Path (List A) (take n []) []
  take-nil zero = refl
  take-nil (suc n) = refl

  drop-nil : (n : ℕ) → Path (List A) (drop n []) []
  drop-nil zero = refl
  drop-nil (suc n) = refl

  take-append : (n : ℕ) (xs ys : List A) → take n (xs ++ ys) ≡ take n xs ++ take (n - length xs) ys
  take-append zero xs ys = rw zero-sub refl
  take-append (suc n) [] ys = rw sub-zero refl
  take-append (suc n) (x ∷ xs) ys = rw (suc-sub-suc) (ap (λ zs. x ∷ zs) (take-append n xs ys))

  drop-append : (n : ℕ) (xs ys : List A) → drop n (xs ++ ys) ≡ drop n xs ++ drop (n - length xs) ys
  drop-append zero xs ys = rw zero-sub refl
  drop-append (suc n) [] ys = rw sub-zero refl
  drop-append (suc n) (x ∷ xs) ys = rw (suc-sub-suc) (drop-append n xs ys)

length-range : (p n : ℕ) → length (range p n) ≡ n
length-range p zero = refl
length-range p (suc n) = ap suc (length-range (p + 1) n)

module _ (ram : Ram) where
  read_bytes-map : (p n : ℕ) → read_bytes ram p n ≡ map ram (range p n)
  unfolding read_bytes
  read_bytes-map p zero = refl
  read_bytes-map p (suc n) = ap (λ xs. ram p ∷ xs) (read_bytes-map (p + 1) n)

  length-read_bytes : (p n : ℕ) → length (read_bytes ram p n) ≡ n
  unfolding read_bytes
  length-read_bytes p zero = refl
  length-read_bytes p (suc n) = ap suc (length-read_bytes (p + 1) n)

  take-read_bytes : (w p n : ℕ) → take w (read_bytes ram p n) ≡ read_bytes ram p (min n w)
  unfolding read_bytes
  take-read_bytes zero p n = rw min-zero refl
  take-read_bytes (suc w) p zero = rw zero-min refl
  take-read_bytes (suc w) p (suc n) =
      rw suc-min-suc (ap (λ xs. ram p ∷ xs) (take-read_bytes w (p + 1) n))

  drop-read_bytes : (s p n : ℕ) → drop s (read_bytes ram p n) ≡ read_bytes ram (p + s) (n - s)
  unfolding read_bytes
  drop-read_bytes zero p n = let here : p + 0 ≡ p = omega arith in rw (here, sub-zero) refl
  drop-read_bytes (suc s) p zero = rw zero-sub refl
  drop-read_bytes (suc s) p (suc n) =
      let next : p + suc s ≡ p + 1 + s = omega arith in
      rw (next, suc-sub-suc) (drop-read_bytes s (p + 1) n)

  map-append : (xs ys : List ℕ) → map ram (xs ++ ys) ≡ map ram xs ++ map ram ys
  map-append [] ys = refl
  map-append (x ∷ xs) ys = ap (λ zs. ram x ∷ zs) (map-append xs ys)

  -- The part of a range of memory that another list follows.
  part_lem :
      (addr n : ℕ) (ys : List ℕ) (skip want : ℕ)
      → take want (drop skip (read_bytes ram addr n ++ ys))
        ≡ read_bytes ram (addr + skip) (min (n - skip) want)
          ++ take (want - (n - skip)) (drop (skip - n) ys)
  part_lem addr n ys skip want =
      ap (take want) (drop-append skip (read_bytes ram addr n) ys)
      ∙ take-append want (drop skip (read_bytes ram addr n)) _
      ∙ rw
          (
            drop-read_bytes skip addr n,
            take-read_bytes want (addr + skip) (n - skip),
            length-read_bytes addr n,
            length-read_bytes (addr + skip) (n - skip),
          )
          refl

  -- The walk over segments takes the wanted part of all their bytes.
  read_segs-bytes :
      (segs : List (ℕ × ℕ)) (skip want : ℕ)
      → read_segs ram segs skip want ≡ take want (drop skip (map ram (seg_addresses segs)))
  unfolding read_segs read_bytes
  read_segs-bytes [] skip want = sym (ap (take want) (drop-nil skip) ∙ take-nil want)
  read_segs-bytes ((addr, n) ∷ segs) skip want =
      let ys = map ram (seg_addresses segs) in
      let whole : map ram (seg_addresses ((addr, n) ∷ segs)) ≡ read_bytes ram addr n ++ ys =
        map-append (range addr n) (seg_addresses segs)
        ∙ ap (λ xs. xs ++ ys) (sym (read_bytes-map addr n)) in
      let split = part_lem addr n ys skip want in
      let full : take want (drop skip (map ram (seg_addresses ((addr, n) ∷ segs))))
          ≡ read_bytes ram (addr + skip) (min (n - skip) want)
            ++ take (want - (n - skip)) (drop (skip - n) ys) =
        ap (λ xs. take want (drop skip xs)) whole ∙ split in
      elim (Bool-cases (want == 0)) [
        | inl t ↦
            let none_wanted : want ≡ 0 = (==_iff want 0).0 t in
            rw t (
              sym (
                ap (λ w. take w (drop skip (map ram (seg_addresses ((addr, n) ∷ segs)))))
                  none_wanted))
        | inr some_wanted ↦ elim (Bool-cases (leb n skip)) [
          | inl past ↦
              let nothing : n - skip ≡ 0 = ground arith in
              let rest : read_bytes ram (addr + skip) (min (n - skip) want)
                    ++ take (want - (n - skip)) (drop (skip - n) ys)
                  ≡ take want (drop (skip - n) ys) =
                rw (nothing, zero-min, sub-zero) refl in
              rw (some_wanted, past) (read_segs-bytes segs (skip - n) want ∙ sym (full ∙ rest))
          | inr within ↦
              let over : skip - n ≡ 0 = ground arith in
              let left : want - min (n - skip) want ≡ want - (n - skip) = omega arith in
              let rest : take (want - (n - skip)) (drop (skip - n) ys)
                  ≡ take (want - min (n - skip) want) ys =
                rw (over, left) refl in
              rw (some_wanted, within)
                (ap (λ xs. read_bytes ram (addr + skip) (min (n - skip) want) ++ xs)
                    (read_segs-bytes segs 0 (want - min (n - skip) want) ∙ sym rest)
                  ∙ sym full)
        ]
      ]

  -- A read is the wanted part of the bytes of the replica.
  pub read-bytes_of :
      (b : ReplicaData) (offset len : ℕ)
      → offset + len ≤ data_len b
      → read ram b offset len ≡ done (take len (drop offset (bytes_of ram b)))
  unfolding read data_len
  read-bytes_of (owned b) offset len h = rw (le→leb (offset + len) (length b) h) refl
  read-bytes_of (ReplicaData.external segs id) offset len h =
      ap done (read_segs-bytes segs offset len)

  length-seg_addresses : (segs : List (ℕ × ℕ)) → length (seg_addresses segs) ≡ segs_len segs
  unfolding segs_len
  length-seg_addresses [] = refl
  length-seg_addresses ((addr, n) ∷ segs) = omega (
    arith,
    length-append (range addr n) (seg_addresses segs),
    length-range addr n,
    length-seg_addresses segs,
  )

  length-map : (xs : List ℕ) → length (map ram xs) ≡ length xs
  length-map [] = refl
  length-map (x ∷ xs) = ap suc (length-map xs)

  pub length-bytes_of : (b : ReplicaData) → length (bytes_of ram b) ≡ data_len b
  unfolding data_len
  length-bytes_of (owned b) = refl
  length-bytes_of (ReplicaData.external segs id) =
      length-map (seg_addresses segs) ∙ length-seg_addresses segs

store_all-nil : (xs : List ℕ) (ram : Ram) → store_all xs [] ram ≡ ram
store_all-nil [] ram = refl
store_all-nil (x ∷ xs) ram = refl

store_all-append :
    (xs ys : List ℕ) (src : List ℕ) (ram : Ram)
    → store_all (xs ++ ys) src ram
      ≡ store_all ys (drop (length xs) src) (store_all xs (take (length xs) src) ram)
store_all-append [] ys src ram = refl
store_all-append (x ∷ xs) ys [] ram = sym (store_all-nil ys ram)
store_all-append (x ∷ xs) ys (b ∷ src) ram = store_all-append xs ys src (update ℕ_discrete ram x b)

write_bytes-store_all :
    (bs : List ℕ) (p : ℕ) (ram : Ram)
    → write_bytes ram p bs ≡ store_all (range p (length bs)) bs ram
unfolding write_bytes
write_bytes-store_all [] p ram = refl
write_bytes-store_all (b ∷ bs) p ram = write_bytes-store_all bs (p + 1) (update ℕ_discrete ram p b)

-- A scatter stores one byte at each address of the destination, in order.
pub scatter-store_all :
    (src : List ℕ) (vs : List Iov) (ram : Ram)
    → total_len vs ≤ length src
    → scatter src vs ram ≡ done (store_all (iov_addresses vs) src ram)
unfolding scatter
scatter-store_all src [] ram h = refl
scatter-store_all src (v ∷ vs) ram h =
    let small : ltb (length src) v.len ≡ false = ground arith in
    let here : length (take v.len src) ≡ v.len = omega (arith, length-take v.len src) in
    let ahead : write_bytes ram (as_ptr v) (take v.len src)
        ≡ store_all (range (as_ptr v) v.len) (take v.len src) ram =
      write_bytes-store_all (take v.len src) (as_ptr v) ram
      ∙ ap (λ n. store_all (range (as_ptr v) n) (take v.len src) ram) here in
    let split = store_all-append (range (as_ptr v) v.len) (iov_addresses vs) src ram in
    let at = length-range (as_ptr v) v.len in
    rw small (
      scatter-store_all (drop v.len src) vs (write_bytes ram (as_ptr v) (take v.len src))
        (omega (arith, length-drop v.len src))
      ∙ ap (λ m. done (store_all (iov_addresses vs) (drop v.len src) m)) ahead
      ∙ ap
          (λ n. done (
            store_all (iov_addresses vs) (drop n src)
              (store_all (range (as_ptr v) v.len) (take n src) ram)))
          (sym at)
      ∙ ap done (sym split))
