-- ===== src/Memory/Evict.antt =====
-- `State::make_room`: eviction in FIFO order. The loop pops one queue entry in each round, so it is
-- a recursion on the queue.
use pegastore.Prelude.{
  ℕ, ◌+◌, Bool, true, false, Option, none, some, List, [], ◌∷◌, ◌++◌, leb, ltb, if◌then◌else◌, ite,
  update, length, get_elem?, modify, Run, done, unwrap, ◌>>=◌, ◌&&◌,
}
use pegastore.Prelude.Order.{bytes_ord}
use pegastore.Prelude.Ordered.{lookup, insert, remove}
use pegastore.Core.Types.{Key, Device, dec_device, Retention, cache, explicit}
use pegastore.Memory.State.{
  owned, external, ReplicaEntry, Slot, Object, Pool, State, dec_key, sub_used,
}

-- The bytes of a replica that the eviction on a device frees: its own, if it is there and owned.
unfoldable pub replica_bytes : Device → ReplicaEntry → ℕ
replica_bytes device r =
    ite (dec_device r.device device) (elim r.bytes [ owned b ↦ length b | external segs id ↦ 0 ]) 0

unfoldable pub stays : Device → ReplicaEntry → Bool
stays device r =
    ite (dec_device r.device device) (elim r.bytes [ owned b ↦ false | external segs id ↦ true ])
      true

unfoldable pub freed : Device → List ReplicaEntry → ℕ
freed device [] = 0
freed device (r ∷ rs) = replica_bytes device r + freed device rs

unfoldable pub kept : Device → List ReplicaEntry → List ReplicaEntry
kept device [] = []
kept device (r ∷ rs) = let rest = kept device rs in if stays device r then r ∷ rest else rest

unfoldable pub evict_slot : Device → Slot → Slot
evict_slot device s = record { replicas = kept device s.replicas }

unfoldable pub all_empty : List Slot → Bool
all_empty [] = true
all_empty (s ∷ ss) = (elim s.replicas [ [] ↦ true | r ∷ rs ↦ false ]) && all_empty ss

-- The variables of the loop beside the queue.
pub record Evicting : Type 0 where
  pub objects : List (Key × Object)
  pub used : ℕ
  pub deferred : List (Key × ℕ)

-- The object after the eviction of one slot is written back, or removed if no replica is left.
unfoldable pub write_back : Key → Object → List (Key × Object) → List (Key × Object)
write_back k obj objects = if all_empty obj.slots then remove k objects else insert k obj objects

unfoldable pub evict_cached : Device → Key → ℕ → Object → Evicting → Run Evicting
evict_cached device k i obj s = do
  slot ← unwrap (get_elem? obj.slots i)
  used ← sub_used s.used (freed device slot.replicas)
  done (record s {
    objects =
        write_back k (record obj { slots = modify obj.slots i (evict_slot device) }) s.objects;
    used = used;
  })

unfoldable pub evict_found : Device → Key → ℕ → Object → Retention → Evicting → Run Evicting
evict_found device k i obj explicit s = done s
evict_found device k i obj cache s = evict_cached device k i obj s

unfoldable pub evict_entry : Device → Key → Key → ℕ → Evicting → Run Evicting
evict_entry device protect k i s =
    ite (dec_key k protect) (done (record s { deferred = s.deferred ++ (k, i) ∷ [] }))
      (elim (lookup k s.objects) [
        | none ↦ done s
        | some obj ↦ evict_found device k i obj obj.spec.retention s
      ])

-- The rest of the queue comes back beside the variables.
unfoldable pub evict_loop :
    Device → ℕ → ℕ → Key → List (Key × ℕ) → Evicting → Run (Evicting × List (Key × ℕ))
evict_loop device need limit protect [] s = done (s, [])
evict_loop device need limit protect ((k, i) ∷ fifo) s =
    let more =
      evict_entry device protect k i s >>= λ s'. evict_loop device need limit protect fifo s' in
    if ltb limit (s.used + need) then more else done (s, (k, i) ∷ fifo)

-- The pools after the loop: the deferred entries go back to the front of the queue, in their order.
unfoldable pub settle : Device → Pool → Evicting → List (Key × ℕ) → State → State
settle device pool s rest st = record st {
  objects = s.objects;
  pools =
      update dec_device st.pools device
        (some (record pool { used = s.used; fifo = s.deferred ++ rest }));
}

unfoldable pub evict_for : Device → ℕ → Key → Pool → ℕ → State → Run (State × Bool)
evict_for device need protect pool limit st =
    if ltb limit need
    then done (st, false)
    else (evict_loop device need limit protect pool.fifo
          (record { objects = st.objects; used = pool.used; deferred = [] })
        >>= λ (s, rest). done (settle device pool s rest st, leb (s.used + need) limit))

unfoldable pub make_room_in : Device → ℕ → Key → Pool → Option ℕ → State → Run (State × Bool)
make_room_in device need protect pool none st = done (st, true)
make_room_in device need protect pool (some limit) st = evict_for device need protect pool limit st

unfoldable pub make_room : Device → ℕ → Key → State → Run (State × Bool)
unfolding evict_for make_room_in
make_room device need protect st = do
  pool ← unwrap (st.pools device)
  make_room_in device need protect pool pool.capacity st
