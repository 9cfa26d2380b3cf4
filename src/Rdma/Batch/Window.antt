-- ===== src/Rdma/Batch/Window.antt =====
-- The window of a batch: every step keeps its bound and the account of the bytes.
use pegastore.Prelude.{
  ℕ, zero, suc, ◌+◌, ◌%◌, ◌≤◌, ◌<◌, ◌≡◌, refl, ap, none, some, List, [], ◌∷◌, arith, u64_mod,
  saturating_add, length, take, drop, All, inl, inr, ◌⊎◌, Option-cases, Bool-cases, length-take,
  length-drop,
}
use pegastore.Prelude.Order.{nat_ord}
use pegastore.Prelude.Ordered.{
  lookup, insert, remove, total, total-insert_new, total-remove, All-insert, All-remove,
}
use pegastore.Rdma.Regions.{Outcome, good, bad, TransferError, backend}
use pegastore.Rdma.Batch.{
  RdmaOp, WorkCompletion, Poll, completed, queue_empty, poll_failed, Batch, track, chain_len,
  after_post, complete, after_poll, max_send_wr,
}

unfoldable pub sum_len : List RdmaOp → ℕ
sum_len [] = 0
sum_len (o ∷ os) = o.len + sum_len os

-- The bytes in flight.
unfoldable pub bytes_of : List (ℕ × ℕ) → ℕ
bytes_of m = total (λ n. n) m

lookup-fresh : (k : ℕ) (m : List (ℕ × ℕ)) → All (λ e. e.0 < k) m → lookup k m ≡ none
unfolding lookup
lookup-fresh k [] a = refl
lookup-fresh k ((j, w) ∷ m) a = ground (arith, lookup-fresh k m a.1)

length-insert_new :
    (k v : ℕ) (m : List (ℕ × ℕ)) → lookup k m ≡ none → length (insert k v m) ≡ suc (length m)
unfolding lookup insert
length-insert_new k v [] h = refl
length-insert_new k v ((j, w) ∷ m) h = ground (arith, length-insert_new k v m)

pub length-remove :
    (k v : ℕ) (m : List (ℕ × ℕ)) → lookup k m ≡ some v → suc (length (remove k m)) ≡ length m
unfolding lookup remove
length-remove k v [] h = absurd (ground arith)
length-remove k v ((j, w) ∷ m) h = ground (arith, length-remove k v m)

sum_len-split : (n : ℕ) (os : List RdmaOp) → sum_len (take n os) + sum_len (drop n os) ≡ sum_len os
unfolding sum_len
sum_len-split zero os = omega arith
sum_len-split (suc n) [] = omega arith
sum_len-split (suc n) (o ∷ os) = omega (arith, sum_len-split n os)

All-below : (m : List (ℕ × ℕ)) (j k : ℕ) → j ≤ k → All (λ e. e.0 < j) m → All (λ e. e.0 < k) m
All-below [] j k h a = tt
All-below (e ∷ m) j k h a = (omega (arith, a.0), All-below m j k h a.1)

track-cons :
    (o : RdmaOp) (os : List RdmaOp) (wr_id : ℕ) (m : List (ℕ × ℕ))
    → wr_id + 1 < u64_mod
    → track (o ∷ os) wr_id m ≡ track os (wr_id + 1) (insert wr_id o.len m)
unfolding track
track-cons o os wr_id m h =
    let q : (wr_id + 1) % u64_mod ≡ wr_id + 1 = omega arith in
    ap (λ i. track os i (insert wr_id o.len m)) q

-- What posting adds: as many entries as operations, with fresh ids.
pub track_lem :
    (os : List RdmaOp) (wr_id : ℕ) (m : List (ℕ × ℕ))
    → All (λ e. e.0 < wr_id) m
    → wr_id + length os < u64_mod
    → ((track os wr_id m).0 ≡ wr_id + length os)
      × (length (track os wr_id m).1 ≡ length m + length os)
      × (bytes_of (track os wr_id m).1 ≡ bytes_of m + sum_len os)
      × All (λ e. e.0 < (track os wr_id m).0) (track os wr_id m).1
unfolding track sum_len bytes_of
track_lem [] wr_id m a h = (omega arith, omega arith, omega arith, a)
track_lem (o ∷ os) wr_id m a h =
    let fresh = lookup-fresh wr_id m a in
    let (i, l, b, c) =
      track_lem os (wr_id + 1) (insert wr_id o.len m)
        (All-insert (λ e. e.0 < wr_id + 1) wr_id o.len m
          (All-below m wr_id (wr_id + 1) (omega arith) a) (omega arith))
        (omega arith) in
    rw (track-cons o os wr_id m (omega arith)) (
      omega arith,
      omega (arith, length-insert_new wr_id o.len m fresh),
      omega (arith, total-insert_new (λ n. n) wr_id o.len m fresh),
      c,
    )

-- `all` is the number of bytes of the `count` operations of the batch: what has been transferred,
-- what is in flight and what is left add up to it; ids are fresh; the window is not exceeded.
pub record IsBalanced (all count : ℕ) (b : Batch) : Type 0 where
  pub bytes : b.transferred + bytes_of b.inflight + sum_len b.rest ≡ all
  pub ids : b.next_wr_id + length b.rest ≡ count + 1
  pub fresh : All (λ e. e.0 < b.next_wr_id) b.inflight
  pub room : length b.inflight ≤ max_send_wr

module _ (all count : ℕ) (small : all < u64_mod) (few : count + 1 < u64_mod) where
  pub after_post-IsBalanced :
      (n : ℕ) (b : Batch)
      → n ≤ chain_len b
      → IsBalanced all count b
      → IsBalanced all count (after_post n b)
  unfolding after_post chain_len
  after_post-IsBalanced n b h v =
      let k = length-take n b.rest in
      let k' = length-drop n b.rest in
      let (i, l, s, a) =
        track_lem (take n b.rest) b.next_wr_id b.inflight v.fresh (omega (arith, k, v.ids)) in
      record {
        bytes = omega (arith, v.bytes, s, sum_len-split n b.rest);
        ids = omega (arith, v.ids, i, k, k');
        fresh = a;
        room = omega (arith, v.room, l, k);
      }

  pub completed-IsBalanced :
      (k bytes : ℕ) (b : Batch)
      → lookup k b.inflight ≡ some bytes
      → IsBalanced all count b
      → IsBalanced all count (record b {
        inflight = remove k b.inflight;
        transferred = saturating_add b.transferred bytes;
      })
  unfolding bytes_of
  completed-IsBalanced k bytes b h v =
      let t = total-remove (λ n. n) k bytes b.inflight h in
      let e = v.bytes in
      let s : saturating_add b.transferred bytes ≡ b.transferred + bytes = ground arith in
      record {
        bytes = omega (arith, s, t, v.bytes);
        ids = v.ids;
        fresh = All-remove (λ e. e.0 < b.next_wr_id) k b.inflight v.fresh;
        room = omega (arith, v.room, length-remove k bytes b.inflight h);
      }

  -- The completions of a poll keep the account, and post nothing.
  unfoldable pub Completes : Batch → Outcome Batch → Type 0
  Completes b r =
      ((e : TransferError) × (r ≡ bad e))
      ⊎ ((c : Batch) × (r ≡ good c) × IsBalanced all count c × (c.rest ≡ b.rest))

  complete-Completes :
      (qpn : ℕ) (wcs : List WorkCompletion) (b : Batch)
      → IsBalanced all count b
      → Completes b (complete qpn wcs b)
  unfolding complete Completes
  complete-Completes qpn [] b v = inr (b, refl, v, refl)
  complete-Completes qpn (wc ∷ wcs) b v = elim (Option-cases (lookup wc.wr_id b.inflight)) [
    | inl unknown ↦ rw (complete, unknown) (complete-Completes qpn wcs b v)
    | inr (bytes, known) ↦ elim (Bool-cases wc.success) [
      | inr failed ↦ inl (
        backend "send completion failed" (qpn ∷ wc.status ∷ wc.opcode ∷ wc.vendor_err ∷ []),
        rw (complete, known, failed) refl,
      )
      | inl succeeded ↦
          rw (complete, known, succeeded)
            (complete-Completes qpn wcs _ (completed-IsBalanced wc.wr_id bytes b known v))
    ]
  ]

  pub after_poll-Completes :
      (qpn : ℕ) (p : Poll) (b : Batch) → IsBalanced all count b → Completes b (after_poll qpn p b)
  unfolding after_poll Completes
  after_poll-Completes qpn (completed wcs) b v = complete-Completes qpn wcs b v
  after_poll-Completes qpn queue_empty b v = inr (b, refl, v, refl)
  after_poll-Completes qpn (poll_failed e) b v = inl (_, refl)
