-- ===== src/Local/Copy/Walk.antt =====
-- The walk of `zip_copy` over two segment lists: what it calls the engine with, and that it ends.
use pegastore.Prelude.{
  ℕ, zero, suc, ◌+◌, ◌-◌, ◌%◌, ◌≤◌, ◌<◌, ◌≡◌, refl, sym, ◌∙◌, ap, Option, some, List, [], ◌∷◌, ◌++◌,
  arith, u64_mod, length, take, drop, min, ◌⊎◌, inl, inr, leb, ◌==◌, Bool-cases, length-append,
  length-drop,
}
use pegastore.Core.Error.{Result, ok, err}
use pegastore.Local.Copy.{Seg, Engine, skip, advance, ran_past, after_copy, zip_loop, zip_copy}
use pegastore.Local.Copy.Pairs.{
  addresses, seg_addresses, pairs, moves, addresses-mod, length-addresses, drop-addresses,
  take-addresses, drop-drop, pairs-cut, drop_nil, pairs_nil,
}

after : {W : Type 0} → W × Result (Unit {0}) → (W → W × Result (Unit {0})) → W × Result (Unit {0})
after (w, ok u) next = next w
after (w, err e) next = (w, err e)

-- The engine on each chunk in turn, up to its first error, and then the reply.
unfoldable pub perform :
    {W : Type 0} → Engine W → List (ℕ × ℕ × ℕ) → Result (Unit {0}) → W → W × Result (Unit {0})
unfolding after
perform f [] end w = (w, end)
perform f ((a, b, n) ∷ cs) end w = after (f a b n w) λ w'. perform f cs end w'

-- How a copy of `left` bytes from the addresses `S` to the addresses `D` ends.
abbrev pub Ends : ℕ → List ℕ → List ℕ → Result (Unit {0}) → Type 0
Ends left S D end =
    ((left ≤ length S) × (left ≤ length D) × (end ≡ ok tt))
    ⊎ ((min (length S) (length D) < left) × (end ≡ err ran_past))

-- What a walk comes to, whatever the engine.
abbrev pub Copies :
    ℕ → List ℕ → List ℕ → ((W : Type 0) → Engine W → W → Option (W × Result (Unit {0}))) → Type 1
Copies left S D run =
    (cs : List (ℕ × ℕ × ℕ)) × (end : Result (Unit {0})) × (moves cs ≡ pairs (take left S) D)
    × Ends left S D end
    × ((W : Type 0) (f : Engine W) (w : W) → run W f w ≡ some (perform f cs end w))

-- The addresses that are left, from an offset into the first segment on.
unfoldable pub rest_of : List Seg × ℕ → List ℕ
rest_of (ss, off) = drop off (seg_addresses ss)

IsWithin : List Seg × ℕ → Type 0
IsWithin ([], off) = Unit
IsWithin (s ∷ ss, off) = off ≤ s.len

rest-first :
    (s : Seg) (ss : List Seg) (off : ℕ)
    → off ≤ s.len
    → rest_of (s ∷ ss, off) ≡ addresses (s.addr + off) (s.len - off) ++ seg_addresses ss
unfolding rest_of seg_addresses
rest-first s ss off h = drop-addresses off s.addr s.len (seg_addresses ss) h

sub_self : (n : ℕ) → n - n ≡ 0
sub_self n = omega arith

rest-advance :
    (s : Seg) (ss : List Seg) (off : ℕ)
    → off ≤ s.len
    → rest_of (advance s ss off) ≡ rest_of (s ∷ ss, off)
unfolding advance
rest-advance s ss off h = elim (Bool-cases (off == s.len)) [
  | inr f ↦ rw f refl
  | inl t ↦
      let q : off ≡ s.len = ground arith in
      rw t (sym (rest-first s ss off h ∙ (rw (q, sub_self s.len) unfold rest_of addresses in refl)))
]

advance-IsWithin : (s : Seg) (ss : List Seg) (off : ℕ) → off ≤ s.len → IsWithin (advance s ss off)
unfolding advance IsWithin
advance-IsWithin s [] off h = ground arith
advance-IsWithin s (t ∷ ts) off h = ground arith

length-advance :
    (s : Seg) (ss : List Seg) (off : ℕ)
    → (length (advance s ss off).0 ≤ suc (length ss))
      × (off ≡ s.len → length (advance s ss off).0 ≡ length ss)
unfolding advance
length-advance s ss off = ground arith

perform-chunk :
    {W : Type 0} (x : W × Result (Unit {0})) (k : W → Option (W × Result (Unit {0})))
    (g : W → W × Result (Unit {0}))
    → ((w : W) → k w ≡ some (g w))
    → after_copy x k ≡ some (after x g)
unfolding after_copy after
perform-chunk (w, ok u) k g h = h w
perform-chunk (w, err e) k g h = refl

-- One round in front of a walk.
round :
    (n left a b : ℕ) (S D : List ℕ)
    (run : (W : Type 0) → Engine W → W → Option (W × Result (Unit {0})))
    → n ≤ left
    → take n S ≡ addresses a n
    → take n D ≡ addresses b n
    → n ≤ length S
    → n ≤ length D
    → Copies (left - n) (drop n S) (drop n D) run
    → Copies left S D (λ W f w. after_copy (f a b n w) (λ w'. run W f w'))
unfolding perform moves
round n left a b S D run h p q hs hd (cs, end, same, ends, runs) = (
  (a, b, n) ∷ cs,
  end,
  rw (same, pairs-cut n left S D h, p, q) refl,
  ground (arith, length-drop n S, length-drop n D),
  λ W f w.
      perform-chunk (f a b n w) (λ w'. run W f w') (λ w'. perform f cs end w') (λ w'. runs W f w'),
)

-- The segment that `n` bytes from an offset lie in.
module _ (s : Seg) (ss : List Seg) (off n : ℕ) (h : off + n ≤ s.len) where
  within : off ≤ s.len
  within = omega arith

  take-first : take n (rest_of (s ∷ ss, off)) ≡ addresses ((s.addr + off) % u64_mod) n
  take-first =
      ap (take n) (rest-first s ss off within)
      ∙ take-addresses n (s.addr + off) (s.len - off) (seg_addresses ss) (omega arith)
      ∙ sym (addresses-mod (s.addr + off) n)

  length-first : n ≤ length (rest_of (s ∷ ss, off))
  length-first = rw (rest-first s ss off within) (
      omega (
        arith,
        length-append (addresses (s.addr + off) (s.len - off)) (seg_addresses ss),
        length-addresses (s.addr + off) (s.len - off),
      ))

  drop-first : rest_of (advance s ss (off + n)) ≡ drop n (rest_of (s ∷ ss, off))
  drop-first =
      rest-advance s ss (off + n) h
      ∙ unfold rest_of in sym (drop-drop n off (seg_addresses (s ∷ ss)))

no_segments : (off : ℕ) → rest_of ([], off) ≡ []
unfolding rest_of seg_addresses
no_segments off = drop_nil off

-- A round ends a segment or the copy.
enough :
    (s d : Seg) (ss ds : List Seg) (s_off d_off m fuel : ℕ)
    → min (suc m) 1 + suc (length ss) + suc (length ds) ≤ suc fuel
    → s_off ≤ s.len
    → d_off ≤ d.len
    → min (suc m - min (min (s.len - s_off) (d.len - d_off)) (suc m)) 1
        + length (advance s ss (s_off + min (min (s.len - s_off) (d.len - d_off)) (suc m))).0
        + length (advance d ds (d_off + min (min (s.len - s_off) (d.len - d_off)) (suc m))).0
      ≤ fuel
enough s d ss ds s_off d_off m fuel h hs hd =
    let n = min (min (s.len - s_off) (d.len - d_off)) (suc m) in
    let a = length-advance s ss (s_off + n) in
    let b = length-advance d ds (d_off + n) in ground (arith, a, b)

walk :
    (fuel left : ℕ) (src dst : List Seg) (s_off d_off : ℕ)
    → IsWithin (src, s_off)
    → IsWithin (dst, d_off)
    → min left 1 + length src + length dst ≤ fuel
    → Copies left
        (rest_of (src, s_off))
        (rest_of (dst, d_off))
        (λ W f w. zip_loop f fuel src s_off dst d_off left w)
unfolding zip_loop perform moves pairs
walk fuel zero src dst s_off d_off hs hd h = ([], ok tt, refl, ground arith, λ W f w. refl)
walk zero (suc m) src dst s_off d_off hs hd h = absurd (omega arith)
walk (suc fuel) (suc m) [] dst s_off d_off hs hd h =
    ([], err ran_past, rw nothing refl, inr (rw nothing (omega arith), refl), λ W f w. refl)
  where
    nothing : rest_of ([], s_off) ≡ []
    nothing = no_segments s_off
walk (suc fuel) (suc m) (s ∷ ss) [] s_off d_off hs hd h = (
  [],
  err ran_past,
  rw (no_segments d_off) (sym (pairs_nil _)),
  inr (rw (no_segments d_off) (omega arith), refl),
  λ W f w. refl,
)
walk (suc fuel) (suc m) (s ∷ ss) (d ∷ ds) s_off d_off hs hd h =
    let n = min (min (s.len - s_off) (d.len - d_off)) (suc m) in
    let hs' : s_off + n ≤ s.len = unfold IsWithin in omega arith in
    let hd' : d_off + n ≤ d.len = unfold IsWithin in omega arith in
    let next =
      walk fuel (suc m - n) (advance s ss (s_off + n)).0 (advance d ds (d_off + n)).0
        (advance s ss (s_off + n)).1 (advance d ds (d_off + n)).1
        (advance-IsWithin s ss (s_off + n) hs') (advance-IsWithin d ds (d_off + n) hd')
        (enough s d ss ds s_off d_off m fuel h (unfold IsWithin in hs) (unfold IsWithin in hd)) in
    round n (suc m) ((s.addr + s_off) % u64_mod) ((d.addr + d_off) % u64_mod)
      (rest_of (s ∷ ss, s_off)) (rest_of (d ∷ ds, d_off)) _ (omega arith)
      (take-first s ss s_off n hs') (take-first d ds d_off n hd') (length-first s ss s_off n hs')
      (length-first d ds d_off n hd')
      (rw (sym (drop-first s ss s_off n hs'), sym (drop-first d ds d_off n hd')) next)

past_first :
    (s : Seg) (ss : List Seg) (off : ℕ)
    → s.len ≤ off
    → drop (off - s.len) (seg_addresses ss) ≡ drop off (seg_addresses (s ∷ ss))
past_first s ss off h =
    let q : s.len + (off - s.len) ≡ off = omega arith in
    ap (drop (off - s.len))
      (sym (rest-first s ss s.len (omega arith) ∙ (rw (sub_self s.len) unfold addresses in refl)))
    ∙ unfold rest_of in
      drop-drop (off - s.len) s.len (seg_addresses (s ∷ ss))
      ∙ ap (λ n. drop n (seg_addresses (s ∷ ss))) q

skipped :
    (src : List Seg) (off : ℕ)
    → IsWithin (skip src off)
      × (rest_of (skip src off) ≡ drop off (seg_addresses src))
      × (length (skip src off).0 ≤ length src)
unfolding skip rest_of
skipped [] off = (unfold IsWithin in tt, refl, omega arith)
skipped (s ∷ ss) off = elim (Bool-cases (leb s.len off)) [
  | inr f ↦ rw f (unfold IsWithin in ground arith, refl, omega arith)
  | inl t ↦
      let (h, same, shorter) = skipped ss (off - s.len) in
      rw t (h, same ∙ past_first s ss off (ground arith), omega arith)
]

starts : (dst : List Seg) → IsWithin (dst, 0)
unfolding IsWithin
starts [] = tt
starts (d ∷ ds) = omega arith

-- `zip_copy` ends, whatever the two segment lists, the offset, the length and the engine. It calls
-- the engine on chunks that together pair each of the first `total` source addresses from the
-- offset on with the destination address of the same index, in order, and up to the first error of
-- the engine; after the last chunk it answers with success exactly if both lists hold `total` bytes.
pub zip_copy-Copies :
    (src dst : List Seg) (off total : ℕ)
    → Copies total
        (drop off (seg_addresses src))
        (seg_addresses dst)
        (λ W f w. zip_copy f src off dst total w)
unfolding zip_copy skip seg_addresses rest_of
zip_copy-Copies src dst off total =
    let (h, same, shorter) = skipped src off in
    rw (sym same) (
      walk (length src + length dst + 1) total (skip src off).0 dst (skip src off).1 0 h
        (starts dst) (omega arith))
