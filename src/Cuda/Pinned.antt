-- ===== src/Cuda/Pinned.antt =====
-- crates/pegastore-cuda/src/pinned.rs: the free list of a pool, first fit and coalescing.
pub mod FreeList
pub mod RoundTrip
use pegastore.Prelude.{
  ℕ, ◌+◌, ◌-◌, ◌*◌, ◌%◌, Bool, Option, none, some, List, [], ◌∷◌, ltb, leb, ◌==◌, if◌then◌else◌,
  u64_mod,
}
use Prim.Native.Nat.{◌/◌}

-- 2 MiB.
abbrev pub align : ℕ
align = 2097152

-- `bytes.div_ceil(ALIGN) * ALIGN`, where the product wraps.
unfoldable pub round_up : ℕ → ℕ
round_up bytes = ((bytes + (align - 1)) / align * align) % u64_mod

-- The free ranges, (offset, length), by offset.
abbrev pub Free : Type 0
Free = List (ℕ × ℕ)

pub record PinnedPool : Type 0 where
  pub numa : ℕ
  pub base : ℕ
  pub len : ℕ
  pub registered : Bool
  pub free : Free

-- `PinnedPool::new` after the mapping, whose address and registration are the system's.
unfoldable pub new_pool : ℕ → ℕ → ℕ → Bool → PinnedPool
new_pool numa base bytes registered = record {
  numa = numa;
  base = base;
  len = round_up bytes;
  registered = registered;
  free = (0, round_up bytes) ∷ [];
}

unfoldable pub free_bytes : Free → ℕ
free_bytes [] = 0
free_bytes ((off, l) ∷ fs) = l + free_bytes fs

-- `max().unwrap_or(0)`.
unfoldable pub largest_free : Free → ℕ
largest_free [] = 0
largest_free ((off, l) ∷ fs) = let rest = largest_free fs in if leb l rest then rest else l

-- The first range that is long enough: its offset, and what is left.
unfoldable pub take_first : ℕ → Free → Option (ℕ × Free)
take_first need [] = none
take_first need ((off, l) ∷ fs) =
    let later = take_first need fs in
    if leb need l
    then some (off, if l == need then fs else (off + need, l - need) ∷ fs)
    else elim later [ none ↦ none | some r ↦ some (r.0, (off, l) ∷ r.1) ]

-- A handed-out range.
pub record PinnedBuf : Type 0 where
  pub off : ℕ
  pub reserved : ℕ
  pub len : ℕ

unfoldable pub alloc : PinnedPool → ℕ → Option (PinnedPool × PinnedBuf)
alloc pool bytes = elim (take_first (round_up bytes) pool.free) [
  | none ↦ none
  | some r ↦
      some
        (record pool { free = r.1 }, record { off = r.0; reserved = round_up bytes; len = bytes })
]

-- The ranges before and after the `partition_point` of an offset.
take_below : ℕ → Free → Free
take_below off [] = []
take_below off ((o, l) ∷ fs) =
    let rest = take_below off fs in if ltb o off then (o, l) ∷ rest else []

drop_below : ℕ → Free → Free
drop_below off [] = []
drop_below off ((o, l) ∷ fs) =
    let rest = drop_below off fs in if ltb o off then rest else (o, l) ∷ fs

-- The range goes in before its successors, and takes in the first of them if it touches it.
join_next : ℕ → ℕ → Free → Free
join_next off len [] = (off, len) ∷ []
join_next off len ((o, l) ∷ fs) =
    if off + len == o then (off, len + l) ∷ fs else (off, len) ∷ (o, l) ∷ fs

-- A predecessor takes in the head of the rest if it touches it.
join_prev : ℕ → ℕ → Free → Free
join_prev o l [] = (o, l) ∷ []
join_prev o l ((off, len) ∷ fs) =
    if o + l == off then (o, l + len) ∷ fs else (o, l) ∷ (off, len) ∷ fs

-- The last of the predecessors is joined.
join_last : Free → Free → Free
join_last [] rest = rest
join_last ((o, l) ∷ []) rest = join_prev o l rest
join_last (b ∷ b' ∷ bs) rest = b ∷ join_last (b' ∷ bs) rest

-- `PinnedPool::release`.
unfoldable pub release : ℕ → ℕ → Free → Free
unfolding take_below drop_below join_next join_prev join_last
release off len fs = join_last (take_below off fs) (join_next off len (drop_below off fs))

-- `Drop for PinnedBuf`.
unfoldable pub drop_buf : PinnedBuf → PinnedPool → PinnedPool
drop_buf buf pool = record pool { free = release buf.off buf.reserved pool.free }

unfoldable pub buf_as_ptr : PinnedPool → PinnedBuf → ℕ
buf_as_ptr pool buf = (pool.base + buf.off) % u64_mod

unfoldable pub buf_is_empty : PinnedBuf → Bool
buf_is_empty buf = buf.len == 0
