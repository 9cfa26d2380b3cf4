-- ===== src/Local/Evict.antt =====
-- `Inner::alloc_or_evict` of local.rs. The inner loop is a recursion on the queue, the outer loop
-- is on fuel; fuel that runs out is a panic here. One run has the lock to itself.
pub mod Emptied
pub mod Pass
pub mod Until
use pegastore.Prelude.{
  ℕ, zero, suc, ◌+◌, Bool, true, false, not, ◌&&◌, Option, none, some, List, [], ◌∷◌, ◌++◌, ltb,
  if◌then◌else◌, ite, update, length, get_elem?, modify, Run, done, panic, unwrap, ◌>>=◌,
  ℕ_discrete,
}
use pegastore.Prelude.Order.{bytes_ord}
use pegastore.Prelude.Ordered.{lookup, insert, remove}
use pegastore.Core.Types.{Key, Device, cpu, dec_device, Retention, cache, explicit}
use pegastore.Core.Error.{
  Error, new, with_context, Shown, Result, ok, err, ErrorKind, invalid_input,
}
use pegastore.Cuda.Pinned.{PinnedPool, PinnedBuf, alloc}
use pegastore.Memory.State.{dec_key}
use pegastore.Local.State.{
  PoolBuf, pinned, external, ReplicaEntry, Slot, Object, State, retain, drop_replicas,
}

unfoldable pub no_pool : Device → Error
no_pool d = with_context (new invalid_input "no pool on device") "device" (Shown.device d)

unfoldable pub no_space : ℕ → ℕ → Error
no_space numa len =
    with_context
      (with_context (new ErrorKind.no_space "pool cannot fit slot") "device"
        (Shown.device (cpu numa)))
      "len" (Shown.number len)

unfoldable pub is_pinned_on : Device → ReplicaEntry → Bool
is_pinned_on device r =
    ite (dec_device r.device device)
      (elim r.shared [ pinned b ↦ true | external ss region_id ↦ false ]) false

-- What `retain` leaves, and what it takes out.
unfoldable pub evict_slot : Device → Slot → Slot
evict_slot device s = record s { replicas = retain (λ r. not (is_pinned_on device r)) s.replicas }

unfoldable pub evicted_of : Device → Slot → List ReplicaEntry
evicted_of device s = retain (is_pinned_on device) s.replicas

unfoldable pub is_vacant : Slot → Bool
is_vacant s = (elim s.replicas [ [] ↦ true | r ∷ rs ↦ false ]) && not s.writing

unfoldable pub all_vacant : List Slot → Bool
all_vacant [] = true
all_vacant (s ∷ ss) = is_vacant s && all_vacant ss

unfoldable pub write_back : Key → Object → List (Key × Object) → List (Key × Object)
write_back k obj objects = if all_vacant obj.slots then remove k objects else insert k obj objects

unfoldable pub is_none : List ReplicaEntry → Bool
is_none [] = true
is_none (r ∷ rs) = false

-- The variables of the inner loop beside the queue.
pub record Passing : Type 0 where
  pub state : State
  pub deferred : List (Key × ℕ)

-- The slot of a cached object; the answer is `evicted_any`.
unfoldable pub evict_cached : Device → Key → ℕ → Object → Passing → Run (Passing × Bool)
evict_cached device k i obj s = do
  slot ← unwrap (get_elem? obj.slots i)
  done (
    record s {
      state = drop_replicas (evicted_of device slot) (record s.state {
        objects =
            write_back k (record obj { slots = modify obj.slots i (evict_slot device) })
              s.state.objects;
      });
    },
    not (is_none (evicted_of device slot)),
  )

unfoldable pub evict_found : Device → Key → ℕ → Object → Retention → Passing → Run (Passing × Bool)
evict_found device k i obj explicit s = done (s, false)
evict_found device k i obj cache s = evict_cached device k i obj s

unfoldable pub evict_entry : Device → Key → Key → ℕ → Passing → Run (Passing × Bool)
evict_entry device protect k i s =
    ite (dec_key k protect) (done (record s { deferred = s.deferred ++ (k, i) ∷ [] }, false))
      (elim (lookup k s.state.objects) [
        | none ↦ done (s, false)
        | some obj ↦ evict_found device k i obj obj.spec.retention s
      ])

-- The variables at the end of the inner loop, the rest of the queue, and whether it evicted.
unfoldable pub evict_pass :
    Device → Key → List (Key × ℕ) → Passing → Run (Passing × List (Key × ℕ) × Bool)
evict_pass device protect [] s = done (s, [], false)
evict_pass device protect ((k, i) ∷ q) s = evict_entry device protect k i s >>= λ (s', evicted).
    elim evicted [ true ↦ done (s', q, true) | false ↦ evict_pass device protect q s' ]

-- The deferred entries go back to the front, in their order.
unfoldable pub requeue : Device → List (Key × ℕ) → Passing → State
requeue device rest s = record s.state {
  fifo = update dec_device s.state.fifo device (some (s.deferred ++ rest));
}

-- `pool.alloc(len)`.
unfoldable pub alloc_in : ℕ → PinnedPool → ℕ → State → Option (State × PoolBuf)
alloc_in numa pool len st = elim (alloc pool len) [
  | none ↦ none
  | some r ↦ some (
    record st { pools = update ℕ_discrete st.pools numa (some r.0) },
    record { numa = numa; base = pool.base; buf = r.1 },
  )
]

unfoldable pub try_alloc : ℕ → ℕ → State → Run (Option (State × PoolBuf))
try_alloc numa len st = unwrap (st.pools numa) >>= λ pool. done (alloc_in numa pool len st)

-- After a pass: the allocation, the error if nothing was evicted, or another round.
unfoldable pub after_pass :
    ℕ
    → ℕ
    → State
    → Bool
    → Option (State × PoolBuf)
    → Run (State × Result PoolBuf)
    → Run (State × Result PoolBuf)
after_pass numa len st evicted (some r) again = done (r.0, ok r.1)
after_pass numa len st true none again = again
after_pass numa len st false none again = done (st, err (no_space numa len))

unfoldable pub evict_until : ℕ → ℕ → ℕ → Key → State → Run (State × Result PoolBuf)
evict_until zero numa len protect st = panic
evict_until (suc fuel) numa len protect st = unwrap (st.fifo (cpu numa)) >>= λ q.
    evict_pass (cpu numa) protect q (record { state = st; deferred = [] }) >>= λ (s, rest, evicted).
    try_alloc numa len (requeue (cpu numa) rest s) >>= λ got.
    after_pass numa len (requeue (cpu numa) rest s) evicted got
      (evict_until fuel numa len protect (requeue (cpu numa) rest s))

-- An evicting round takes an entry off the queue, so the queue is fuel enough.
unfoldable pub queue_len : State → ℕ → ℕ
queue_len st numa = elim (st.fifo (cpu numa)) [ none ↦ 0 | some q ↦ length q ]

unfoldable pub alloc_pooled :
    ℕ → ℕ → Key → State → PinnedPool → Option (State × PoolBuf) → Run (State × Result PoolBuf)
alloc_pooled numa len protect st pool (some r) = done (r.0, ok r.1)
alloc_pooled numa len protect st pool none =
    if ltb pool.len len
    then done (st, err (no_space numa len))
    else evict_until (queue_len st numa + 1) numa len protect st

unfoldable pub alloc_or_evict : ℕ → ℕ → Key → State → Run (State × Result PoolBuf)
alloc_or_evict numa len protect st = elim (st.pools numa) [
  | none ↦ done (st, err (no_pool (cpu numa)))
  | some pool ↦ alloc_pooled numa len protect st pool (alloc_in numa pool len st)
]
