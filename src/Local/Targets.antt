-- ===== src/Local/Targets.antt =====
-- Phase 1 of `Access::put` in local.rs, which claims slots, and the placement of a slot in `put_slot`.
use pegastore.Prelude.{
  ℕ, Bool, true, false, none, some, List, [], ◌∷◌, map, ite, length, if◌then◌else◌, replicate,
  ℕ_discrete,
}
use pegastore.Prelude.Order.{bytes_ord}
use pegastore.Prelude.Ordered.{lookup, insert}
use pegastore.Core.Types.{
  Key, Device, cpu, gpu, dec_spec, ObjectSpec, Placement, strict, prefer, anywhere,
}
use pegastore.Core.Error.{
  Error, Result, ok, err, new, with_context, Shown, spec_mismatch, invalid_input, ◌>>=◌,
}
use pegastore.Local.State.{Slot, Object, State, Inner}
use pegastore.Local.Evict.{is_vacant, no_pool}

unfoldable pub claim_slot : Slot → Slot
claim_slot s = if is_vacant s then record s { writing = true } else s

unfoldable pub claim_object : Key → Object → State → State × List Bool
claim_object kb obj st = (
  record st { objects = insert kb (record obj { slots = map claim_slot obj.slots }) st.objects },
  map is_vacant obj.slots,
)

unfoldable pub new_object : ObjectSpec → Object
new_object spec = record {
  spec = spec;
  slots = replicate (length spec.slots) (record { replicas = []; writing = false });
}

unfoldable pub spec_differs : Key → Error
spec_differs kb =
    with_context (new spec_mismatch "existing object has a different spec") "key" (Shown.key kb)

unfoldable pub claim : Key → ObjectSpec → State → Result (State × List Bool)
claim kb spec st = elim (lookup kb st.objects) [
  | some obj ↦ ite (dec_spec obj.spec spec) (ok (claim_object kb obj st)) (err (spec_differs kb))
  | none ↦ ok (claim_object kb (new_object spec) st)
]

-- `numa_of`: a CPU device with a pool.
unfoldable pub numa_of : State → Device → Result ℕ
numa_of st (cpu numa) = elim (st.pools numa) [
  | none ↦ err (no_pool (cpu numa))
  | some pool ↦ ok numa
]
numa_of st (gpu index) = err (
    with_context (new invalid_input "GPU memory is not a store tier; use publish") "device"
      (Shown.device (gpu index)))

other_pools : ℕ → List ℕ → List (ℕ × Bool)
other_pools n [] = []
other_pools n (x ∷ xs) = let rest = other_pools n xs in ite (ℕ_discrete x n) rest ((x, true) ∷ rest)

each_pool : State → List Device → Result (List (ℕ × Bool))
each_pool st [] = ok []
each_pool st (d ∷ ds) = numa_of st d >>= λ n. each_pool st ds >>= λ ns. ok ((n, false) ∷ ns)

-- The pools to try, each with the flag of a replica that lands there.
unfoldable pub targets : Inner → State → Placement → Result (List (ℕ × Bool))
unfolding other_pools each_pool
targets inner st (strict d) = numa_of st d >>= λ n. ok ((n, false) ∷ [])
targets inner st (Placement.each ds) = each_pool st ds
targets inner st (prefer d) = numa_of st d >>= λ n. ok ((n, false) ∷ other_pools n inner.pool_order)
targets inner st anywhere = ok (map (λ n. (n, false)) inner.pool_order)
