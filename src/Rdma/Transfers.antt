-- ===== src/Rdma/Transfers.antt =====
-- The resolution of the operations of a batch in `RcBackend::batch_transfer_async` of
-- crates/pegastore-rdma/src/rc_backend/mod.rs: the loop over the descriptors.
pub mod Served
pub mod Resolved
use pegastore.Prelude.{
  ℕ, Bool, true, false, Option, none, some, List, [], ◌∷◌, ◌++◌, ◌==◌, if◌then◌else◌, get_elem?,
  modify, Run, done, unwrap, ◌>>=◌, replicate,
}
use pegastore.Rdma.Regions.{
  RegisteredMemoryEntry, Entries, find_entry, TransferError, invalid_argument,
  memory_not_registered, Outcome, good, bad,
}
use pegastore.Rdma.Engine.{TransferDesc, contains}
use pegastore.Rdma.Batch.{RdmaOp}
use pegastore.Rdma.Nics.{NumaRoundRobin, pick}

abbrev Resolution : Type 0
Resolution = Run {0} (NumaRoundRobin × Outcome (ℕ × RdmaOp))

-- The operation on a NIC; `entry.mrs[nic_idx]` panics where the entry has no registration for it.
unfoldable pub op_on :
    RegisteredMemoryEntry → TransferDesc → ℕ → NumaRoundRobin → Option ℕ → Resolution
op_on entry desc nic rr none =
    done (rr, bad (invalid_argument "region descriptor has no rkey for paired NIC"))
op_on entry desc nic rr (some rkey) = unwrap (get_elem? entry.mrs nic) >>= λ mr. done (
  rr,
  good (
    nic,
    record {
      local_mr = mr;
      local_ptr = desc.local;
      remote_ptr = desc.remote;
      len = desc.len;
      remote_rkey = rkey;
    },
  ),
)

unfoldable pub resolve_in :
    TransferDesc → NumaRoundRobin → Option RegisteredMemoryEntry → Resolution
resolve_in desc rr none = done (rr, bad (memory_not_registered desc.local))
resolve_in desc rr (some entry) =
    if contains desc.region desc.remote desc.len
    then (pick rr entry.numa >>= λ (nic, rr').
        op_on entry desc nic rr' (get_elem? desc.region.rkeys nic))
    else done (rr, bad (invalid_argument "remote range not covered by its region descriptor"))

-- One round of the loop, up to the push.
unfoldable pub resolve_desc : Entries → TransferDesc → NumaRoundRobin → Resolution
resolve_desc registered desc rr =
    if desc.len == 0
    then done (rr, bad (invalid_argument "len must be non-zero"))
    else resolve_in desc rr (find_entry desc.local desc.len registered)

push_op :
    Outcome (ℕ × RdmaOp)
    → List (List RdmaOp)
    → (List (List RdmaOp) → Run {0} (NumaRoundRobin × Outcome (List (List RdmaOp))))
    → NumaRoundRobin
    → Run {0} (NumaRoundRobin × Outcome (List (List RdmaOp)))
push_op (bad e) per_nic next rr = done (rr, bad e)
push_op (good (nic, op)) per_nic next rr =
    unwrap (get_elem? per_nic nic) >>= λ ops. next (modify per_nic nic (λ ops. ops ++ op ∷ []))

unfoldable pub resolve_all :
    Entries
    → List TransferDesc
    → List (List RdmaOp)
    → NumaRoundRobin
    → Run {0} (NumaRoundRobin × Outcome (List (List RdmaOp)))
unfolding push_op
resolve_all registered [] per_nic rr = done (rr, good per_nic)
resolve_all registered (desc ∷ descs) per_nic rr = resolve_desc registered desc rr >>= λ (rr', o).
    push_op o per_nic (λ per_nic'. resolve_all registered descs per_nic' rr') rr'
