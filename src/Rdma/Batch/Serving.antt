-- ===== src/Rdma/Batch/Serving.antt =====
-- A queue pair that serves its requests.
use pegastore.Prelude.{
  none, Option-cases, inl, inr, ◌⊎◌, sym, ◌∙◌, ap, saturating_add, ℕ, zero, suc, ◌+◌, ◌≤◌, ◌<◌, ◌≡◌,
  refl, true, false, List, [], ◌∷◌, arith, u64_mod, length, take, drop, ltb, All, ◌%◌,
}
use pegastore.Prelude.Order.{nat_ord}
use pegastore.Prelude.Ordered.{lookup, remove}
use pegastore.Rdma.Engine.{TransferOp}
use pegastore.Rdma.Regions.{good}
use pegastore.Rdma.Batch.{
  RdmaOp, WorkRequest, WorkCompletion, completed, queue_empty, Batch, complete, max_send_wr, Verbs,
  chain_wrs, post_wrs, post_rdma_wr_chain, track, u32_max,
}
use pegastore.Rdma.Batch.Window.{IsBalanced, completed-IsBalanced}

-- The requests that are in flight after some completions.
abbrev pub without : List WorkCompletion → List (ℕ × ℕ) → List (ℕ × ℕ)
without [] m = m
without (wc ∷ wcs) m = without wcs (remove wc.wr_id m)

-- What the queue pair is relied on for: its send queue has room for `max_send_wr` requests, every
-- request that it has taken completes, with success, and the wait for a completion is finite. A
-- queue pair in the state `Serves k w m` has the requests of `m` in flight, by id and length, and at
-- most `k` polls in a row come back before one completes any of them; `patience` bounds that number.
-- A poll may find the queue empty, or bring completions of some requests, in any order.
pub record IsServing {W : Type 0} (verbs : Verbs W) (op : TransferOp) (patience : ℕ)
    (Serves : ℕ → W → List (ℕ × ℕ) → Type 0) : Type 0 where
  pub posts :
      (os : List RdmaOp) (id : ℕ) (wrs : List WorkRequest) (m : List (ℕ × ℕ)) (k : ℕ) (w : W)
      → chain_wrs op id os ≡ good wrs
      → length m + length os ≤ max_send_wr
      → Serves k w m
      → (k' : ℕ) × ((verbs.post wrs w).1 ≡ good tt)
        × (k' ≤ patience)
        × Serves k' (verbs.post wrs w).0 (track os id m).1
  pub polls :
      (m : List (ℕ × ℕ)) (k : ℕ) (w : W)
      → 0 < length m
      → Serves k w m
      → ((k' : ℕ) × ((verbs.poll w).1 ≡ queue_empty) × (k' < k) × Serves k' (verbs.poll w).0 m)
        ⊎ ((k' : ℕ) × (wcs : List WorkCompletion) × ((verbs.poll w).1 ≡ completed wcs)
            × All (λ wc. wc.success ≡ true) wcs
            × (k' ≤ patience)
            × (length (without wcs m) < length m)
            × Serves k' (verbs.poll w).0 (without wcs m))

-- Lengths that fit an SGE.
abbrev pub AreShort : List RdmaOp → Type 0
AreShort os = All (λ o. o.len ≤ u32_max) os

chain_wrs-good :
    (op : TransferOp) (id : ℕ) (os : List RdmaOp)
    → AreShort os
    → (wrs : List WorkRequest) × (chain_wrs op id os ≡ good wrs)
unfolding chain_wrs
chain_wrs-good op id [] a = ([], refl)
chain_wrs-good op id (o ∷ os) a =
    let (wrs, h) = chain_wrs-good op ((id + 1) % u64_mod) os a.1 in
    let fits : ltb u32_max o.len ≡ false = let le = a.0 in ground arith in
    (record { wr_id = id; op = op; rdma_op = o } ∷ wrs, rw (chain_wrs, h) (rw fits refl))

pub AreShort-take : (n : ℕ) (os : List RdmaOp) → AreShort os → AreShort (take n os)
AreShort-take zero os a = tt
AreShort-take (suc n) [] a = tt
AreShort-take (suc n) (o ∷ os) a = (a.0, AreShort-take n os a.1)

pub AreShort-drop : (n : ℕ) (os : List RdmaOp) → AreShort os → AreShort (drop n os)
AreShort-drop zero os a = a
AreShort-drop (suc n) [] a = a
AreShort-drop (suc n) (o ∷ os) a = AreShort-drop n os a.1

module _ {W : Type 0} (verbs : Verbs W) (op : TransferOp) (patience : ℕ)
    (Serves : ℕ → W → List (ℕ × ℕ) → Type 0) (serving : IsServing verbs op patience Serves) where
  pub post-good :
      (os : List RdmaOp) (id : ℕ) (m : List (ℕ × ℕ)) (k : ℕ) (w : W)
      → AreShort os
      → 0 < length os
      → length m + length os ≤ max_send_wr
      → Serves k w m
      → (w' : W) × (k' : ℕ) × (post_rdma_wr_chain verbs op os id w ≡ (w', good (length os)))
        × (k' ≤ patience)
        × Serves k' w' (track os id m).1
  unfolding post_rdma_wr_chain
  post-good [] id m k w a pos room s = absurd (omega arith)
  post-good (o ∷ os) id m k w a pos room s =
      let (wrs, h) = chain_wrs-good op id (o ∷ os) a in
      let (k', posted, le, s') = serving.posts (o ∷ os) id wrs m k w h room s in
      ((verbs.post wrs w).0, k', rw h (rw (post_wrs, posted) refl), le, s')

remove-absent : (k : ℕ) (m : List (ℕ × ℕ)) → lookup k m ≡ none → remove k m ≡ m
unfolding lookup remove
remove-absent k [] h = refl
remove-absent k ((j, n) ∷ m) h = ground (arith, remove-absent k m)

-- Completions with success leave a balanced batch, without their requests.
module _ (all count : ℕ) (small : all < u64_mod) (few : count + 1 < u64_mod) where
  pub complete-good :
      (qpn : ℕ) (wcs : List WorkCompletion) (b : Batch)
      → All (λ wc. wc.success ≡ true) wcs
      → IsBalanced all count b
      → (c : Batch) × (complete qpn wcs b ≡ good c)
        × IsBalanced all count c
        × (c.rest ≡ b.rest)
        × (c.inflight ≡ without wcs b.inflight)
  unfolding complete
  complete-good qpn [] b a v = (b, refl, v, refl, refl)
  complete-good qpn (wc ∷ wcs) b a v = elim (Option-cases (lookup wc.wr_id b.inflight)) [
    | inl unknown ↦
        let (c, e, v', r, i) = complete-good qpn wcs b a.1 v in
        let same = remove-absent wc.wr_id b.inflight unknown in
        (c, rw (complete, unknown) e, v', r, i ∙ ap (without wcs) (sym same))
    | inr (bytes, known) ↦
        let (c, e, v', r, i) =
          complete-good qpn wcs
            (record b {
              inflight = remove wc.wr_id b.inflight;
              transferred = saturating_add b.transferred bytes;
            })
            a.1 (completed-IsBalanced all count small few wc.wr_id bytes b known v) in
        (c, rw (complete, known, a.0) e, v', r, i)
  ]
