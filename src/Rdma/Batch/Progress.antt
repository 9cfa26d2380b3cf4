-- ===== src/Rdma/Batch/Progress.antt =====
-- A batch over a queue pair that serves its requests comes to an end.
use pegastore.Prelude.{
  ◌*◌, ℕ, suc, ◌+◌, ◌≤◌, ◌<◌, ◌≡◌, Option, some, List, [], u64_mod, length, ◌⊎◌,
}
use pegastore.Prelude.Order.{nat_ord}
use pegastore.Rdma.Engine.{TransferOp}
use pegastore.Rdma.Regions.{Outcome, good}
use pegastore.Rdma.Batch.{Verbs, Batch, max_send_wr}
use pegastore.Rdma.Batch.Window.{IsBalanced}
use pegastore.Rdma.Batch.Serving.{IsServing, AreShort}

-- The operations that are left or in flight.
unfoldable pub pending : Batch → ℕ
pending b = length b.rest + length b.inflight

-- What is left to do, counted so that each poll takes something off: an operation that is left counts
-- twice, one in flight once, and each of these weighs more than the polls that may come back empty.
unfoldable pub load : ℕ → ℕ → Batch → ℕ
load patience k b = (length b.rest + pending b) * suc patience + k

module _ {W : Type 0} (verbs : Verbs W) (op : TransferOp) (patience : ℕ)
    (Serves : ℕ → W → List (ℕ × ℕ) → Type 0) (serving : IsServing verbs op patience Serves) where
  module _ (all count : ℕ) (small : all < u64_mod) (few : count + 1 < u64_mod) where
    -- A balanced batch over the queue pair.
    IsGoing : ℕ → W → Batch → Type 0
    IsGoing k w b = IsBalanced all count b × AreShort b.rest × Serves k w b.inflight

    FillsUp : ℕ → Batch → W × Outcome Batch → Type 0
    FillsUp k b r =
        (w : W) × (c : Batch) × (k' : ℕ) × (r ≡ (w, good c))
        × IsGoing k' w c
        × ((c.rest ≡ []) ⊎ (max_send_wr ≤ length c.inflight))
        × (load patience k' c ≤ load patience k b)
        × (pending c ≡ pending b)

    RoundsOff : ℕ → Batch → W × Outcome Batch → Type 0
    RoundsOff k b r =
        (w : W) × (c : Batch) × (k' : ℕ) × (r ≡ (w, good c))
        × IsGoing k' w c
        × (load patience k' c < load patience k b)

    Finishes : Option (W × Outcome ℕ) → Type 0
    Finishes r = (w : W) × (r ≡ some (w, good all))
