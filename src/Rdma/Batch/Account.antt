-- ===== src/Rdma/Batch/Account.antt =====
-- A batch that succeeds has transferred every byte of its operations.
use pegastore.Prelude.{
  ℕ, zero, suc, ◌+◌, ◌≤◌, ◌<◌, ◌≡◌, refl, ap, true, false, Option, none, some, List, [], ◌∷◌, arith,
  u64_mod, length, take, inl, inr, ◌⊎◌, Bool-cases, length-take, length-drop, leb, leb→le,
}
use pegastore.Prelude.Order.{nat_ord}
use pegastore.Prelude.Ordered.{total}
use pegastore.Rdma.Engine.{TransferOp}
use pegastore.Rdma.Regions.{Outcome, good, bad, TransferError}
use pegastore.Rdma.Batch.{
  RdmaOp, Verbs, Batch, chain_wrs, chain_len, after_post, max_send_wr, max_wr_chain_ops, post_wrs,
  post_rdma_wr_chain, filled, fill, polled, round, again, is_done, batch_loop, start_batch,
  execute_batch,
}
use pegastore.Rdma.Batch.Window.{
  sum_len, bytes_of, IsBalanced, after_post-IsBalanced, Completes, after_poll-Completes,
}

pub Outcome-cases :
    {A : Type 0} (r : Outcome A) → ((a : A) × (r ≡ good a)) ⊎ ((e : TransferError) × (r ≡ bad e))
Outcome-cases (good a) = inl (a, refl)
Outcome-cases (bad e) = inr (e, refl)

pub rest-cases :
    (os : List RdmaOp) → (os ≡ []) ⊎ ((o : RdmaOp) × (rest : List RdmaOp) × (os ≡ o ∷ rest))
rest-cases [] = inl refl
rest-cases (o ∷ os) = inr (o, os, refl)

pub nonempty :
    {A : Type 0} {o : RdmaOp} {os : List RdmaOp} (x y : A) (xs : List RdmaOp)
    → xs ≡ o ∷ os
    → (elim xs [ [] ↦ x | p ∷ ps ↦ y ]) ≡ y
nonempty x y [] e = absurd cc
nonempty x y (p ∷ ps) e = refl

pub empty :
    {A : Type 0} (x y : A) (xs : List RdmaOp) → xs ≡ [] → (elim xs [ [] ↦ x | p ∷ ps ↦ y ]) ≡ x
empty x y [] e = refl
empty x y (p ∷ ps) e = absurd cc

nothing_left :
    (os : List RdmaOp) (m : List (ℕ × ℕ))
    → (elim os [ [] ↦ elim m [ [] ↦ true | e ∷ es ↦ false ] | o ∷ os' ↦ false ]) ≡ true
    → (sum_len os ≡ 0) × (bytes_of m ≡ 0)
unfolding sum_len bytes_of total
nothing_left [] [] h = (refl, refl)
nothing_left [] (e ∷ es) h = absurd cc
nothing_left (o ∷ os) m h = absurd cc

done-parts : (b : Batch) → is_done b ≡ true → (sum_len b.rest ≡ 0) × (bytes_of b.inflight ≡ 0)
unfolding is_done
done-parts b h = nothing_left b.rest b.inflight h

-- What the inner loop comes to: an error, or a balanced batch whose window is full unless all
-- operations are posted.
abbrev pub Fills : {W : Type 0} → ℕ → ℕ → W × Outcome Batch → Type 0
Fills {W} all count r =
    ((w : W) × (e : TransferError) × (r ≡ (w, bad e)))
    ⊎ ((w : W) × (c : Batch) × (r ≡ (w, good c))
        × IsBalanced all count c
        × ((c.rest ≡ []) ⊎ (max_send_wr ≤ length c.inflight)))

-- The reply of the loop, if it has one.
abbrev pub Replies : {W : Type 0} → ℕ → Option (W × Outcome ℕ) → Type 0
Replies {W} all r =
    (r ≡ none)
    ⊎ ((w : W) × (e : TransferError) × (r ≡ some (w, bad e)))
    ⊎ ((w : W) × (r ≡ some (w, good all)))

module _ {W : Type 0} (verbs : Verbs W) (op : TransferOp) where
  -- A chain is posted whole or not at all.
  Posts : ℕ → W × Outcome ℕ → Type 0
  Posts n r = ((w : W) × (e : TransferError) × (r ≡ (w, bad e))) ⊎ ((w : W) × (r ≡ (w, good n)))

  post-Posts :
      (os : List RdmaOp) (id : ℕ) (w : W) → Posts (length os) (post_rdma_wr_chain verbs op os id w)
  unfolding post_rdma_wr_chain Posts
  post-Posts [] id w = inr (w, refl)
  post-Posts (o ∷ os) id w = elim (Outcome-cases (chain_wrs op id (o ∷ os))) [
    | inr (e, h) ↦ inl (w, e, rw h refl)
    | inl (wrs, h) ↦ elim (Outcome-cases (verbs.post wrs w).1) [
      | inr (e, h') ↦ inl ((verbs.post wrs w).0, e, rw h (rw (post_wrs, h') refl))
      | inl (u, h') ↦ inr ((verbs.post wrs w).0, rw h (rw (post_wrs, h') refl))
    ]
  ]

  module _ (all count : ℕ) (small : all < u64_mod) (few : count + 1 < u64_mod) where
    pub positive :
        (n : ℕ) (b : Batch) (w : W) (next : ℕ → W → W × Outcome Batch)
        → 0 < n
        → Fills all count (next n w)
        → Fills all count (filled verbs op (w, good n) b next)
    unfolding filled
    positive zero b w next pos h = absurd (omega arith)
    positive (suc n) b w next pos h = h

    posted-Fills :
        (n : ℕ) (b : Batch) (r : W × Outcome ℕ) (next : ℕ → W → W × Outcome Batch)
        → 0 < n
        → Posts n r
        → ((w : W) → Fills all count (next n w))
        → Fills all count (filled verbs op r b next)
    unfolding filled Posts
    posted-Fills n b r next pos p h = elim p [
      | inl (w, e, q) ↦ inl (w, e, rw q refl)
      | inr (w, q) ↦ rw q (positive n b w next pos (h w))
    ]

    pub fill-step :
        (fuel : ℕ) (b : Batch) (w : W) {o : RdmaOp} {os : List RdmaOp}
        → leb max_send_wr (length b.inflight) ≡ false
        → b.rest ≡ o ∷ os
        → fill verbs op (suc fuel) b w
          ≡ filled verbs op
              (post_rdma_wr_chain verbs op (take (chain_len b) b.rest) b.next_wr_id w)
              b
              (λ n w'. fill verbs op fuel (after_post n b) w')
    unfolding fill
    fill-step fuel b w room e = rw (fill, room) (nonempty _ _ b.rest e)

    pub chain_len-pos :
        (b : Batch) {o : RdmaOp} {os : List RdmaOp}
        → leb max_send_wr (length b.inflight) ≡ false
        → b.rest ≡ o ∷ os
        → (0 < length (take (chain_len b) b.rest))
          × (length (take (chain_len b) b.rest) ≤ chain_len b)
          × (chain_len b ≤ max_wr_chain_ops)
    unfolding chain_len
    chain_len-pos b room e =
        let l = ap length e in
        let t = length-take (chain_len b) b.rest in
        let r : length b.inflight < max_send_wr = ground arith in
        (omega (arith, l, t, r), omega (arith, t), omega arith)

    -- The inner loop, from a batch that is balanced: it ends within as many rounds as operations are
    -- left, either with an error, or with a balanced batch, so at most 128 requests in flight, whose
    -- window is full unless every operation has been posted.
    pub fill-Fills :
        (fuel : ℕ) (b : Batch) (w : W)
        → length b.rest ≤ fuel
        → IsBalanced all count b
        → Fills all count (fill verbs op fuel b w)
    unfolding fill
    fill-Fills zero b w h v = elim (rest-cases b.rest) [
      | inl none_left ↦ inr (w, b, refl, v, inl none_left)
      | inr (o, os, e) ↦ absurd (omega (arith, ap length e))
    ]
    fill-Fills (suc fuel) b w h v = elim (Bool-cases (leb max_send_wr (length b.inflight))) [
      | inl full ↦ inr (w, b, rw (fill, full) refl, v, inr (leb→le _ _ full))
      | inr room ↦ elim (rest-cases b.rest) [
        | inl none_left ↦ inr (w, b, rw (fill, room) (empty _ _ b.rest none_left), v, inl none_left)
        | inr (o, os, e) ↦
            let (pos, le, _) = chain_len-pos b room e in
            let n = length (take (chain_len b) b.rest) in
            let next : (w' : W) → Fills all count (fill verbs op fuel (after_post n b) w') = λ w'.
              fill-Fills fuel (after_post n b) w'
                (unfold after_post in omega (arith, length-drop n b.rest))
                (after_post-IsBalanced all count small few n b le v) in
            rw (fill-step fuel b w room e) (
              posted-Fills n b
                (post_rdma_wr_chain verbs op (take (chain_len b) b.rest) b.next_wr_id w)
                (λ m w'. fill verbs op fuel (after_post m b) w') pos
                (post-Posts (take (chain_len b) b.rest) b.next_wr_id w) next)
      ]
    ]

    -- One round keeps the account, or is an error.
    Rounds : W × Outcome Batch → Type 0
    Rounds r =
        ((w : W) × (e : TransferError) × (r ≡ (w, bad e)))
        ⊎ ((w : W) × (c : Batch) × (r ≡ (w, good c)) × IsBalanced all count c)

    round-Rounds : (b : Batch) (w : W) → IsBalanced all count b → Rounds (round verbs op b w)
    unfolding round polled Rounds Completes
    round-Rounds b w v = elim (fill-Fills (length b.rest) b w (omega arith) v) [
      | inl (w', e, h) ↦ inl (w', e, rw h refl)
      | inr (w', c, h, v', full) ↦
          elim (after_poll-Completes all count small few verbs.local_qpn (verbs.poll w').1 c v') [
            | inl (e, h') ↦ inl ((verbs.poll w').0, e, rw h (rw h' refl))
            | inr (c', h', v'', _) ↦ inr ((verbs.poll w').0, c', rw h (rw h' refl), v'')
          ]
    ]

    pub done-all : (b : Batch) → is_done b ≡ true → IsBalanced all count b → b.transferred ≡ all
    done-all b h v = let (r, i) = done-parts b h in omega (arith, v.bytes, r, i)

    batch_loop-Replies :
        (fuel : ℕ) (b : Batch) (w : W)
        → IsBalanced all count b
        → Replies all (batch_loop verbs op fuel b w)
    unfolding batch_loop again Rounds
    batch_loop-Replies zero b w v = elim (Bool-cases (is_done b)) [
      | inl t ↦ inr (inr (w, rw (batch_loop, t) (ap (λ n. some (w, good n)) (done-all b t v))))
      | inr f ↦ inl (rw (batch_loop, f) refl)
    ]
    batch_loop-Replies (suc fuel) b w v = elim (Bool-cases (is_done b)) [
      | inl t ↦ inr (inr (w, rw (batch_loop, t) (ap (λ n. some (w, good n)) (done-all b t v))))
      | inr f ↦ elim (round-Rounds b w v) [
        | inl (w', e, h) ↦ inr (inl (w', e, rw (batch_loop, f) (rw h refl)))
        | inr (w', c, h, v') ↦ rw (batch_loop, f) (rw h (batch_loop-Replies fuel c w' v'))
      ]
    ]

pub start-IsBalanced : (ops : List RdmaOp) → IsBalanced (sum_len ops) (length ops) (start_batch ops)
unfolding start_batch bytes_of total
start-IsBalanced ops = record {
  bytes = omega arith;
  ids = omega arith;
  fresh = tt;
  room = omega arith;
}

-- If the bytes of the operations add up to a 64-bit number and their number is one, then a batch
-- that is through, however long it waited and whatever the verbs did, has either failed, or it
-- replies with the number of all the bytes: none is lost or counted twice, whatever the order of
-- the completions and whatever completions of other requests arrive.
pub execute_batch-Replies :
    {W : Type 0} (verbs : Verbs W) (op : TransferOp) (fuel : ℕ) (ops : List RdmaOp) (w : W)
    → sum_len ops < u64_mod
    → length ops + 1 < u64_mod
    → Replies (sum_len ops) (execute_batch verbs op fuel ops w)
unfolding execute_batch sum_len
execute_batch-Replies verbs op fuel [] w small few = inr (inr (w, refl))
execute_batch-Replies verbs op fuel (o ∷ os) w small few =
    batch_loop-Replies verbs op (sum_len (o ∷ os)) (length (o ∷ os)) small few fuel
      (start_batch (o ∷ os)) w (start-IsBalanced (o ∷ os))
