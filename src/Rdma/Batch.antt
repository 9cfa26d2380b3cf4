-- ===== src/Rdma/Batch.antt =====
-- `RcSession::execute_batch` and `post_rdma_wr_chain` of rc_backend/session.rs: a window of work
-- requests over one queue pair. The verbs calls are parameters: they act on a world, which holds
-- the queues. `ops[next_idx..]` is the list of the operations that are left.
pub mod Window
pub mod Account
pub mod Serving
pub mod Progress
use Prim.Native.String.{◌++◌}
use pegastore.Prelude.{
  ℕ, zero, suc, ◌+◌, ◌-◌, ◌%◌, min, Bool, true, false, Option, none, some, List, [], ◌∷◌, String,
  ltb, leb, ◌==◌, if◌then◌else◌, u64_mod, saturating_add, length, take, drop,
}
use pegastore.Prelude.Order.{nat_ord}
use pegastore.Prelude.Ordered.{lookup, insert, remove}
use pegastore.Rdma.Engine.{TransferOp}
use pegastore.Rdma.Regions.{TransferError, invalid_argument, backend, Outcome, good, bad}

abbrev pub max_wr_chain_ops : ℕ
max_wr_chain_ops = 4

abbrev pub max_send_wr : ℕ
max_send_wr = 128

abbrev pub u32_max : ℕ
u32_max = 4294967295

-- The local memory region is its key.
pub record RdmaOp : Type 0 where
  pub local_mr : ℕ
  pub local_ptr : ℕ
  pub remote_ptr : ℕ
  pub len : ℕ
  pub remote_rkey : ℕ

-- A signalled work request.
pub record WorkRequest : Type 0 where
  pub wr_id : ℕ
  pub op : TransferOp
  pub rdma_op : RdmaOp

-- `success` is the comparison of the status with the library's code of success.
pub record WorkCompletion : Type 0 where
  pub wr_id : ℕ
  pub success : Bool
  pub status : ℕ
  pub opcode : ℕ
  pub vendor_err : ℕ

pub data Poll : Type 0 where
  completed : List WorkCompletion → Poll
  queue_empty : Poll
  poll_failed : String → Poll

-- `guard.post()` and `send_cq.start_poll()`, and the number of the local queue pair.
pub record Verbs (W : Type 0) : Type 0 where
  pub local_qpn : ℕ
  pub post : List WorkRequest → W → W × Outcome (Unit {0})
  pub poll : W → W × Poll

-- The work requests of a chain; the first operation that is too long ends it.
unfoldable pub chain_wrs : TransferOp → ℕ → List RdmaOp → Outcome (List WorkRequest)
chain_wrs op wr_id [] = good []
chain_wrs op wr_id (o ∷ os) =
    let rest = chain_wrs op ((wr_id + 1) % u64_mod) os in
    if ltb u32_max o.len
    then bad (invalid_argument "len exceeds RDMA SGE length limit")
    else (elim rest [
      | bad e ↦ bad e
      | good wrs ↦ good (record { wr_id = wr_id; op = op; rdma_op = o } ∷ wrs)
    ])

-- The variables of the loop.
pub record Batch : Type 0 where
  pub rest : List RdmaOp
  pub next_wr_id : ℕ
  pub inflight : List (ℕ × ℕ)
  pub transferred : ℕ

-- The posted operations go into the map of what is in flight.
unfoldable pub track : List RdmaOp → ℕ → List (ℕ × ℕ) → ℕ × List (ℕ × ℕ)
track [] wr_id inflight = (wr_id, inflight)
track (o ∷ os) wr_id inflight = track os ((wr_id + 1) % u64_mod) (insert wr_id o.len inflight)

unfoldable pub chain_len : Batch → ℕ
chain_len b = min (min max_wr_chain_ops (max_send_wr - length b.inflight)) (length b.rest)

unfoldable pub after_post : ℕ → Batch → Batch
after_post n b =
    let t = track (take n b.rest) b.next_wr_id b.inflight in
    record b { rest = drop n b.rest; next_wr_id = t.0; inflight = t.1 }

-- The completions of one poll, in order; those of unknown requests are skipped.
unfoldable pub complete : ℕ → List WorkCompletion → Batch → Outcome Batch
complete qpn [] b = good b
complete qpn (wc ∷ wcs) b = elim (lookup wc.wr_id b.inflight) [
  | none ↦ complete qpn wcs b
  | some bytes ↦
      let next = complete qpn wcs (record b {
        inflight = remove wc.wr_id b.inflight;
        transferred = saturating_add b.transferred bytes;
      }) in
      if wc.success
      then next
      else bad (backend "send completion failed" (qpn ∷ wc.status ∷ wc.opcode ∷ wc.vendor_err ∷ []))
]

-- The text of a poll error is kept after that of the message.
unfoldable pub after_poll : ℕ → Poll → Batch → Outcome Batch
after_poll qpn (completed wcs) b = complete qpn wcs b
after_poll qpn queue_empty b = good b
after_poll qpn (poll_failed e) b = bad (backend ("poll send CQ failed: " ++ e) (qpn ∷ []))

unfoldable pub is_done : Batch → Bool
is_done b = elim b.rest [ [] ↦ elim b.inflight [ [] ↦ true | e ∷ es ↦ false ] | o ∷ os ↦ false ]

unfoldable pub start_batch : List RdmaOp → Batch
start_batch ops = record { rest = ops; next_wr_id = 1; inflight = []; transferred = 0 }

module _ {W : Type 0} (verbs : Verbs W) (op : TransferOp) where
  post_wrs : ℕ → Outcome (List WorkRequest) → W → W × Outcome ℕ
  post_wrs n (bad e) w = (w, bad e)
  post_wrs n (good wrs) w = elim (verbs.post wrs w).1 [
    | bad e ↦ ((verbs.post wrs w).0, bad e)
    | good u ↦ ((verbs.post wrs w).0, good n)
  ]

  unfoldable pub post_rdma_wr_chain : List RdmaOp → ℕ → W → W × Outcome ℕ
  unfolding post_wrs
  post_rdma_wr_chain [] first_wr_id w = (w, good 0)
  post_rdma_wr_chain (o ∷ os) first_wr_id w =
      post_wrs (length (o ∷ os)) (chain_wrs op first_wr_id (o ∷ os)) w

  unfoldable pub filled : W × Outcome ℕ → Batch → (ℕ → W → W × Outcome Batch) → W × Outcome Batch
  filled (w, bad e) b next = (w, bad e)
  filled (w, good zero) b next = (w, good b)
  filled (w, good (suc n)) b next = next (suc n) w

  -- The inner loop. A round posts an operation, so their number is fuel enough.
  unfoldable pub fill : ℕ → Batch → W → W × Outcome Batch
  unfolding filled
  fill zero b w = (w, good b)
  fill (suc fuel) b w =
      let next =
        filled (post_rdma_wr_chain (take (chain_len b) b.rest) b.next_wr_id w) b
          (λ n w'. fill fuel (after_post n b) w') in
      if leb max_send_wr (length b.inflight)
      then (w, good b)
      else (elim b.rest [ [] ↦ (w, good b) | o ∷ os ↦ next ])

  polled : W × Outcome Batch → W × Outcome Batch
  polled (w, bad e) = (w, bad e)
  polled (w, good b) = ((verbs.poll w).0, after_poll verbs.local_qpn (verbs.poll w).1 b)

  -- One round of the outer loop.
  unfoldable pub round : Batch → W → W × Outcome Batch
  unfolding polled
  round b w = polled (fill (length b.rest) b w)

  again : W × Outcome Batch → (Batch → W → Option (W × Outcome ℕ)) → Option (W × Outcome ℕ)
  again (w, bad e) next = some (w, bad e)
  again (w, good b) next = next b w

  -- The outer loop on fuel; `none` is a loop that is still waiting for completions.
  unfoldable pub batch_loop : ℕ → Batch → W → Option (W × Outcome ℕ)
  unfolding again
  batch_loop zero b w = if is_done b then some (w, good b.transferred) else none
  batch_loop (suc fuel) b w =
      let next = again (round b w) (λ b' w'. batch_loop fuel b' w') in
      if is_done b then some (w, good b.transferred) else next

  -- An empty batch returns before the loop.
  unfoldable pub execute_batch : ℕ → List RdmaOp → W → Option (W × Outcome ℕ)
  execute_batch fuel [] w = some (w, good 0)
  execute_batch fuel (o ∷ os) w = batch_loop fuel (start_batch (o ∷ os)) w
