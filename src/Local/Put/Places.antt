-- ===== src/Local/Put/Places.antt =====
-- The target loop of `put_slot` in local.rs: a run of evictions and allocations, and what it places.
use pegastore.Prelude.{
  ℕ, ◌≡◌, refl, ◌∙◌, ap, Bool, true, false, not, some, List, [], ◌∷◌, ◌++◌, All, All-append, Run,
  done, Option-cases, inl, inr,
}
use pegastore.Prelude.Order.{bytes_ord}
use pegastore.Prelude.Ordered.{lookup}
use pegastore.Core.Types.{Key, cpu}
use pegastore.Core.Error.{Result, ok, err, Result-cases}
use pegastore.Local.State.{PoolBuf, State}
use pegastore.Local.Evict.{alloc_or_evict, no_pool}
use pegastore.Local.Evict.Until.{alloc_or_evict-Allocates}
use pegastore.Local.Put.{Placing, after_alloc, place}
use pegastore.Local.Sound.{has_pool, All-map}
use pegastore.Local.Claims.{Ticket, Step, Reaches, stop, step, allocates, IsExclusive}
use pegastore.Local.Claims.Steps.{interleaved-IsExclusive}

-- Buffers of a length that have pools.
abbrev pub AreBufs : ℕ → State → List (Bool × PoolBuf) → Type 0
AreBufs len st bs = All (λ b. (has_pool st b.1.numa ≡ true) × (b.1.buf.len ≡ len)) bs

-- What the loop comes to: a run of steps that leaves the tickets and the object of the put alone.
abbrev pub Places : Key → ℕ → List Ticket → Placing → Run Placing → Type 0
Places kb len ts p r =
    (q : Placing) × (r ≡ done q)
    × Reaches (p.state, ts) (q.state, ts)
    × (lookup kb q.state.objects ≡ lookup kb p.state.objects)
    × AreBufs len q.state q.placed

pub Reaches-trans : (c d e : State × List Ticket) → Reaches c d → Reaches d e → Reaches c e
Reaches-trans c d e p stop = p
Reaches-trans c d e p (step q last) = step (Reaches-trans c d _ p q) last

pool_of_alloc :
    (numa len : ℕ) (protect : Key) (st st' : State) (b : PoolBuf)
    → alloc_or_evict numa len protect st ≡ done (st', ok b)
    → has_pool st numa ≡ true
unfolding alloc_or_evict has_pool
pool_of_alloc numa len protect st st' b h = elim (Option-cases (st.pools numa)) [
  | inr (pool, at) ↦ rw (has_pool, at) refl
  | inl gone ↦
      let e : alloc_or_evict numa len protect st ≡ done (st, err (no_pool (cpu numa))) =
        rw (alloc_or_evict, gone) refl in
      let q : ◌≡◌ {A = State × Result PoolBuf} (st, err (no_pool (cpu numa))) (st', ok b) = cc in
      let r : err (no_pool (cpu numa)) ≡ ok b = ap (λ (y : State × Result PoolBuf). y.1) q in
      absurd cc
]

module _ (kb : Key) (len : ℕ) (ts : List Ticket) (each : Bool) where
  continue-Places :
      (p q : Placing) (stops : Bool) (more : Run Placing)
      → Reaches (p.state, ts) (q.state, ts)
      → lookup kb q.state.objects ≡ lookup kb p.state.objects
      → AreBufs len q.state q.placed
      → Places kb len ts q more
      → Places kb len ts p (elim stops [ true ↦ done q | false ↦ more ])
  continue-Places p q true more path same bufs next = (q, refl, path, same, bufs)
  continue-Places p q false more path same bufs (r, e, path', same', bufs') =
      (r, e, Reaches-trans _ _ _ path path', same' ∙ same, bufs')

  pub place-Places :
      (targets : List (ℕ × Bool)) (p : Placing)
      → IsExclusive (p.state, ts)
      → AreBufs len p.state p.placed
      → Places kb len ts p (place each len kb targets p)
  unfolding place after_alloc
  place-Places [] p x bufs = (p, refl, stop, refl, bufs)
  place-Places ((numa, misplaced) ∷ targets) p x bufs =
      let (st, a, e, sound, leaves, size) = alloc_or_evict-Allocates numa len kb p.state x.sound in
      let taken : Step (p.state, ts) (st, ts) = allocates numa len kb p.state st a ts e in
      let x' = interleaved-IsExclusive (p.state, ts) (st, ts) x (step stop taken) in
      let kept : AreBufs len st p.placed =
        All-map _ _ p.placed (λ b h. (leaves.pooled b.1.numa ∙ h.0, h.1)) bufs in
      elim (Result-cases a) [
        | inl (b, good) ↦
            let q : Placing = record p { state = st; placed = p.placed ++ (misplaced, b) ∷ [] } in
            let has = pool_of_alloc numa len kb p.state st b (e ∙ ap (λ r. done (st, r)) good) in
            let (on, long) = size b good in
            let bufs' : AreBufs len st (p.placed ++ (misplaced, b) ∷ []) =
              All-append _ p.placed ((misplaced, b) ∷ []) kept
                ((ap (has_pool st) on ∙ leaves.pooled numa ∙ has, long), tt) in
            rw e (
              rw good (
                continue-Places p q (not each) (place each len kb targets q) (step stop taken)
                  leaves.protected bufs' (place-Places targets q x' bufs')))
        | inr (f, bad) ↦
            let q : Placing = record p { state = st; failure = some f } in
            rw e (
              rw bad (
                continue-Places p q each (place each len kb targets q) (step stop taken)
                  leaves.protected kept (place-Places targets q x' kept)))
      ]
