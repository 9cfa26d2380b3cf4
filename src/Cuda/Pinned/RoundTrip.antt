-- ===== src/Cuda/Pinned/RoundTrip.antt =====
-- Allocations from a pool and their release.
use pegastore.Prelude.{
  ℕ, ◌+◌, ◌≤◌, ◌<◌, ◌≡◌, ◌≢◌, ◌∙◌, sym, refl, ap, Option, some, none, arith, u64_mod, Option-cases,
  inl, inr, ◌⊎◌, ◌↔◌, [],
}
use pegastore.Cuda.Pinned.{
  Free, PinnedPool, PinnedBuf, alloc, drop_buf, round_up, free_bytes, largest_free, take_first,
  align,
}
use pegastore.Cuda.Pinned.FreeList.{IsFree, Takes, take_first-Takes, take_first-none_iff}

-- Within 64 bits the rounded length is the least multiple of 2 MiB that is not below.
round_up-bounds :
    (bytes : ℕ)
    → bytes + align ≤ u64_mod
    → (bytes ≤ round_up bytes) × (round_up bytes < bytes + align)
unfolding round_up
round_up-bounds bytes h = (omega arith, omega arith)

alloc-some :
    (pool : PinnedPool) (bytes off : ℕ) (gs : Free)
    → take_first (round_up bytes) pool.free ≡ some (off, gs)
    → alloc pool bytes
      ≡ some
          (record pool { free = gs }, record { off = off; reserved = round_up bytes; len = bytes })
unfolding alloc
alloc-some pool bytes off gs e = rw (alloc, e) refl

alloc-none :
    (pool : PinnedPool) (bytes : ℕ) {r : PinnedPool × PinnedBuf}
    → take_first (round_up bytes) pool.free ≡ none
    → alloc pool bytes ≢ some r
unfolding alloc
alloc-none pool bytes e h = ground arith

-- A pool and a buffer as an allocation leaves them.
abbrev pub Hands : PinnedPool → ℕ → PinnedPool → PinnedBuf → Type 0
Hands pool bytes pool' buf =
    (drop_buf buf pool' ≡ pool)
    × IsFree 0 pool'.free
    × (bytes ≤ buf.reserved)
    × (free_bytes pool.free ≡ buf.reserved + free_bytes pool'.free)

handed :
    (pool pool' : PinnedPool) (buf : PinnedBuf) (bytes off : ℕ) (gs : Free)
    → bytes + align ≤ u64_mod
    → Takes 0 (round_up bytes) pool.free off gs
    → Path
        (Option (PinnedPool × PinnedBuf))
        (some
          (record pool { free = gs }, record { off = off; reserved = round_up bytes; len = bytes }))
        (some (pool', buf))
    → Hands pool bytes pool' buf
unfolding drop_buf
handed pool pool' buf bytes off gs small (above, free, sum, back) same =
    let e1 : record pool { free = gs } ≡ pool' = cc in
    let e2 : record { off = off; reserved = round_up bytes; len = bytes } ≡ buf = cc in
    rw (← e1, ← e2)
      (ap (λ fs. record pool { free = fs }) back, free, omega (arith, round_up-bounds bytes), sum)

-- From a pool whose free list is in order, an allocation of some bytes, few enough for 64 bits,
-- hands out a reserved range at least as long, which leaves the total of the free bytes; the list is
-- in order after it; and the drop of the buffer right away gives back the pool as it was.
pub alloc-drop_buf :
    (pool pool' : PinnedPool) (buf : PinnedBuf) (bytes : ℕ)
    → IsFree 0 pool.free
    → 0 < bytes
    → bytes + align ≤ u64_mod
    → alloc pool bytes ≡ some (pool', buf)
    → Hands pool bytes pool' buf
alloc-drop_buf pool pool' buf bytes f pos small h =
    elim (Option-cases (take_first (round_up bytes) pool.free)) [
      | inl nothing ↦ absurd (alloc-none pool bytes nothing h)
      | inr ((off, gs), e) ↦
          handed pool pool' buf bytes off gs small
            (take_first-Takes (round_up bytes) 0 pool.free off gs
              (omega (arith, round_up-bounds bytes)) f e)
            (sym (alloc-some pool bytes off gs e) ∙ h)
    ]

-- An allocation of any length fails exactly when the pool has no free range at all, or the largest
-- of them is shorter than the length rounded up to 2 MiB, in 64 bits.
pub alloc-none_iff :
    (pool : PinnedPool) (bytes : ℕ)
    → (alloc pool bytes ≡ none) ↔ ((largest_free pool.free < round_up bytes) ⊎ (pool.free ≡ []))
unfolding alloc
alloc-none_iff pool bytes = elim (Option-cases (take_first (round_up bytes) pool.free)) [
  | inl e ↦ (λ h. (take_first-none_iff (round_up bytes) pool.free).0 e, λ h. rw (alloc, e) refl)
  | inr ((off, gs), e) ↦ (
    λ h. absurd (ground arith),
    λ h. let gone = (take_first-none_iff (round_up bytes) pool.free).1 h in absurd (ground arith),
  )
]
