-- ===== src/Tests/Batches.antt =====
-- The theorems of a batch, over a queue pair that completes its requests in
-- order, each after a poll that finds nothing.
use pegastore.Prelude.{
  zero, suc, ◌⊎◌, All, leb, if◌then◌else◌, ℕ, ◌+◌, ◌≡◌, ◌≤◌, ◌<◌, List, [], ◌∷◌, true, arith,
  length, u64_mod,
}
use pegastore.Prelude.Order.{nat_ord}
use pegastore.Prelude.Ordered.{insert, remove}
use pegastore.Rdma.Engine.{TransferOp}
use pegastore.Rdma.Regions.{Outcome, good, bad, invalid_argument}
use pegastore.Rdma.Batch.{
  RdmaOp, WorkRequest, WorkCompletion, max_send_wr, Poll, completed, queue_empty, Verbs,
  start_batch, fill, execute_batch,
}
use pegastore.Rdma.Batch.Window.{sum_len}
use pegastore.Rdma.Batch.Account.{
  Fills, Replies, fill-Fills, execute_batch-Replies, start-IsBalanced,
}
use pegastore.Rdma.Batch.Serving.{without}

-- The requests in flight, and the number of polls that come back empty before the next completion.
abbrev Queue : Type 0
Queue = ℕ × List (ℕ × ℕ)

accept : List WorkRequest → List (ℕ × ℕ) → List (ℕ × ℕ)
accept [] m = m
accept (wr ∷ wrs) m = accept wrs (insert wr.wr_id wr.rdma_op.len m)

-- A full queue refuses.
post : List WorkRequest → Queue → Queue × Outcome (Unit {0})
unfolding accept
post wrs (k, m) =
    if leb (length m + length wrs) max_send_wr
    then ((1, accept wrs m), good tt)
    else ((k, m), bad (invalid_argument "send queue full"))

answer : Queue → Queue × Poll
answer (k, []) = ((k, []), queue_empty)
answer (suc k, e ∷ m) = ((k, e ∷ m), queue_empty)
answer (zero, (i, n) ∷ m) = (
  (1, remove i ((i, n) ∷ m)),
  completed (record { wr_id = i; success = true; status = 0; opcode = 0; vendor_err = 0 } ∷ []),
)

queue_pair : Verbs Queue
unfolding post answer
queue_pair = record { local_qpn = 17; post = post; poll = answer }

Serves : ℕ → Queue → List (ℕ × ℕ) → Type 0
Serves k w m = w ≡ (k, m)

abbrev Answers : ℕ → Queue → List (ℕ × ℕ) → Type 0
Answers k w m =
    ((k' : ℕ) × ((answer w).1 ≡ queue_empty) × (k' < k) × Serves k' (answer w).0 m)
    ⊎ ((k' : ℕ) × (wcs : List WorkCompletion) × ((answer w).1 ≡ completed wcs)
        × All (λ wc. wc.success ≡ true) wcs
        × (k' ≤ 1)
        × (length (without wcs m) < length m)
        × Serves k' (answer w).0 (without wcs m))

abbrev two_ops : List RdmaOp
two_ops =
    record { local_mr = 1; local_ptr = 100; remote_ptr = 500; len = 3; remote_rkey = 7 }
    ∷ record { local_mr = 1; local_ptr = 200; remote_ptr = 600; len = 4; remote_rkey = 7 }
    ∷ []

two_left : length (start_batch two_ops).rest ≤ 2
unfolding start_batch
two_left = omega arith

two_sum : sum_len two_ops < u64_mod
unfolding sum_len
two_sum = omega arith

execute_batch-Replies_example :
    Replies (sum_len two_ops) (execute_batch queue_pair TransferOp.write 5 two_ops (1, []))
execute_batch-Replies_example =
    execute_batch-Replies queue_pair TransferOp.write 5 two_ops (1, []) two_sum (omega arith)

fill-Fills_example :
    Fills (sum_len two_ops) 2 (fill queue_pair TransferOp.write 2 (start_batch two_ops) (1, []))
fill-Fills_example =
    fill-Fills queue_pair TransferOp.write (sum_len two_ops) 2 two_sum (omega arith) 2
      (start_batch two_ops) (1, []) two_left (start-IsBalanced two_ops)
