-- ===== src/Local/Evict/Until.antt =====
-- The outer loop of `alloc_or_evict`.
use pegastore.Prelude.{
  ℕ, zero, suc, ◌+◌, ◌<◌, ◌≡◌, refl, sym, ◌∙◌, ap, Bool, true, Option, some, List, [], ◌++◌, arith,
  length, length-append, All, All-append, Run, done, ◌>>=◌, Bool-cases, Option-cases, inl, inr,
  update, update_cases, update_self, ltb, subst, ℕ_discrete,
}
use pegastore.Prelude.Order.{bytes_ord}
use pegastore.Core.Types.{Key, Device, cpu, dec_device}
use pegastore.Core.Error.{Error, Result, ok, err}
use pegastore.Cuda.Pinned.{PinnedPool, PinnedBuf, alloc}
use pegastore.Local.State.{PoolBuf, State}
use pegastore.Local.Evict.{
  Passing, requeue, alloc_in, try_alloc, after_pass, evict_until, queue_len, alloc_pooled,
  alloc_or_evict,
}
use pegastore.Local.Evict.Pass.{IsGood, evict_pass-Passes}
use pegastore.Local.Sound.{
  IsInRange, IsSound, Leaves, Leaves-refl, Leaves-trans, IsInRange-Leaves, All-map, has_pool,
  update-some, pools-IsSound, pools-Leaves,
}

-- What an allocation comes to.
abbrev pub Allocates : ℕ → ℕ → Key → State → Run (State × Result PoolBuf) → Type 0
Allocates numa len protect st r =
    (st' : State) × (a : Result PoolBuf) × (r ≡ done (st', a))
    × IsSound st'
    × Leaves protect st st'
    × ((b : PoolBuf) → a ≡ ok b → (b.numa ≡ numa) × (b.buf.len ≡ len))

module _ (d : Device) (protect : Key) (st : State) (sound : IsSound st) (q : List (Key × ℕ))
    (here : st.fifo d ≡ some q) where
  start-IsGood : IsGood (record { state = st; deferred = [] })
  start-IsGood = record { sorted = sound.sorted; fit = sound.fit; deferred = tt }

  -- After a pass the queue has been put back.
  module _ (t : Passing) (rest : List (Key × ℕ)) (good : IsGood t)
      (leaves : Leaves protect st t.state) (same : t.state.fifo ≡ st.fifo)
      (range : All (IsInRange t.state.objects) rest) where
    requeued-queues :
        (n : ℕ)
        → has_pool (requeue d rest t) n ≡ true
        → (p : List (Key × ℕ)) × ((requeue d rest t).fifo (cpu n) ≡ some p)
    unfolding requeue has_pool update
    requeued-queues n h =
        let (p, e) = sound.queues n (sym (leaves.pooled n) ∙ h) in
        update-some dec_device t.state.fifo d (cpu n) (t.deferred ++ rest)
          (ap (λ (g : Device → Option (List (Key × ℕ))). g (cpu n)) same ∙ e)

    requeued-IsSound : IsSound (requeue d rest t)
    unfolding requeue
    requeued-IsSound = record {
      sorted = good.sorted;
      fit = good.fit;
      queues = requeued-queues;
      queued = λ e p h. elim (update_cases dec_device t.state.fifo d e (t.deferred ++ rest) h) [
        | inl (_, is) ↦
            subst (All (IsInRange t.state.objects)) is
              (All-append _ t.deferred rest good.deferred range)
        | inr (_, old) ↦
            All-map _ _ p (λ x. IsInRange-Leaves protect st t.state x leaves)
              (sound.queued e p
                (ap (λ (g : Device → Option (List (Key × ℕ))). g e) (sym same) ∙ old))
      ];
    }

    requeued-Leaves : Leaves protect st (requeue d rest t)
    unfolding requeue has_pool
    requeued-Leaves = record {
      wears = leaves.wears;
      protected = leaves.protected;
      pooled = leaves.pooled;
      reading = leaves.reading;
    }

-- An allocation is about the pools only.
alloc-len :
    (pool : PinnedPool) (n : ℕ) (r : PinnedPool × PinnedBuf) → alloc pool n ≡ some r → r.1.len ≡ n
unfolding alloc
alloc-len pool n r h = ground arith

module _ (numa : ℕ) (pool : PinnedPool) (len : ℕ) (protect : Key) (st : State)
    (at : st.pools numa ≡ some pool) (sound : IsSound st) where
  pool_kept :
      (new : PinnedPool) (n : ℕ)
      → has_pool (record st { pools = update ℕ_discrete st.pools numa (some new) }) n
        ≡ has_pool st n
  unfolding has_pool update
  pool_kept new n = ground arith

  alloc_in-Allocates :
      (r : State × PoolBuf)
      → alloc_in numa pool len st ≡ some r
      → Allocates numa len protect st (done (r.0, ok r.1))
  unfolding alloc_in
  alloc_in-Allocates r h = elim (Option-cases (alloc pool len)) [
    | inl nothing ↦ absurd (ground arith)
    | inr (x, found) ↦
        let made : ◌≡◌ {A = Option (State × PoolBuf)}
            (some (
              record st { pools = update ℕ_discrete st.pools numa (some x.0) },
              record { numa = numa; base = pool.base; buf = x.1 },
            ))
            (some r) =
          sym (rw (alloc_in, found) refl) ∙ h in
        let e : (
          record st { pools = update ℕ_discrete st.pools numa (some x.0) },
          record { numa = numa; base = pool.base; buf = x.1 },
        )
            ≡ r =
          cc in
        subst (λ (y : State × PoolBuf). Allocates numa len protect st (done (y.0, ok y.1))) e
          (
            record st { pools = update ℕ_discrete st.pools numa (some x.0) },
            ok (record { numa = numa; base = pool.base; buf = x.1 }),
            refl,
            pools-IsSound st _ (pool_kept x.0) sound,
            pools-Leaves st _ (pool_kept x.0) protect,
            λ b q.
                let same : record { numa = numa; base = pool.base; buf = x.1 } ≡ b = cc in
                (
                  ap (λ (c : PoolBuf). c.numa) (sym same),
                  ap (λ (c : PoolBuf). c.buf.len) (sym same) ∙ alloc-len pool len x found,
                ),
          )
  ]

refused-Allocates :
    (numa len : ℕ) (protect : Key) (st : State) (e : Error)
    → IsSound st
    → Allocates numa len protect st (done (st, err e))
refused-Allocates numa len protect st e sound =
    (st, err e, refl, sound, Leaves-refl protect st, λ b h. absurd cc)

Allocates-after :
    (numa len : ℕ) (protect : Key) (st st' : State) (r : Run (State × Result PoolBuf))
    → Leaves protect st st'
    → Allocates numa len protect st' r
    → Allocates numa len protect st r
Allocates-after numa len protect st st' r l (u, a, e, sound, l', size) =
    (u, a, e, sound, Leaves-trans protect st st' u l l', size)

pool-of_has_pool :
    (st : State) (n : ℕ) → has_pool st n ≡ true → (p : PinnedPool) × (st.pools n ≡ some p)
unfolding has_pool
pool-of_has_pool st n h = elim (Option-cases (st.pools n)) [
  | inl gone ↦ absurd (ground arith)
  | inr there ↦ there
]

-- The end of a round: the allocation, the error, or the next round.
round-Allocates :
    (numa len : ℕ) (protect : Key) (st : State) (b : Bool) (again : Run (State × Result PoolBuf))
    → IsSound st
    → has_pool st numa ≡ true
    → (b ≡ true → Allocates numa len protect st again)
    → Allocates numa len protect st
        (try_alloc numa len st >>= λ got. after_pass numa len st b got again)
unfolding try_alloc after_pass
round-Allocates numa len protect st b again sound has next =
    let (pool, at) = pool-of_has_pool st numa has in
    elim (Option-cases (alloc_in numa pool len st)) [
      | inr (r, got) ↦ rw (at, got) (alloc_in-Allocates numa pool len protect st at sound r got)
      | inl nothing ↦ elim (Bool-cases b) [
        | inl t ↦ rw (at, nothing, t) (next t)
        | inr f ↦ rw (at, nothing, f) (refused-Allocates numa len protect st _ sound)
      ]
    ]

evict_until-Allocates :
    (fuel numa len : ℕ) (protect : Key) (st : State) (q : List (Key × ℕ))
    → IsSound st
    → has_pool st numa ≡ true
    → st.fifo (cpu numa) ≡ some q
    → length q < fuel
    → Allocates numa len protect st (evict_until fuel numa len protect st)
unfolding evict_until
evict_until-Allocates zero numa len protect st q sound has here h = absurd (ground arith)
evict_until-Allocates (suc fuel) numa len protect st q sound has here h =
    let (t, rest, b, e, good, leaves, same, range, shorter) =
      evict_pass-Passes (cpu numa) protect q (record { state = st; deferred = [] })
        (sound.queued (cpu numa) q here) (start-IsGood (cpu numa) protect st sound q here) in
    let sound' =
      requeued-IsSound (cpu numa) protect st sound q here t rest good leaves same range in
    let leaves' =
      requeued-Leaves (cpu numa) protect st sound q here t rest good leaves same range in
    let has' : has_pool (requeue (cpu numa) rest t) numa ≡ true = leaves'.pooled numa ∙ has in
    let again : b ≡ true
        → Allocates numa len protect (requeue (cpu numa) rest t)
            (evict_until fuel numa len protect (requeue (cpu numa) rest t)) =
      λ b_true.
        evict_until-Allocates fuel numa len protect (requeue (cpu numa) rest t) (t.deferred ++ rest)
          sound' has'
          (unfold requeue in
            update_self dec_device t.state.fifo (cpu numa) (some (t.deferred ++ rest)))
          (ground (arith, length-append t.deferred rest)) in
    rw (here, e)
      (Allocates-after numa len protect st (requeue (cpu numa) rest t) _ leaves'
        (round-Allocates numa len protect (requeue (cpu numa) rest t) b _ sound' has' again))

has_pool_at : (st : State) (n : ℕ) {p : PinnedPool} → st.pools n ≡ some p → has_pool st n ≡ true
unfolding has_pool
has_pool_at st n h = rw (has_pool, h) refl

queue_len_at :
    (st : State) (n : ℕ) (q : List (Key × ℕ)) → st.fifo (cpu n) ≡ some q → queue_len st n ≡ length q
unfolding queue_len
queue_len_at st n q h = rw (queue_len, h) refl

-- In a sound state `alloc_or_evict` returns: its fuel is enough, and no index and no queue is
-- missing. The state stays sound; the protected object, the readers and the set of pools are
-- untouched; no object changes its number of slots, and none goes while one of its slots is being
-- written; a buffer that is handed out has the length asked for, on the node asked for.
pub alloc_or_evict-Allocates :
    (numa len : ℕ) (protect : Key) (st : State)
    → IsSound st
    → Allocates numa len protect st (alloc_or_evict numa len protect st)
unfolding alloc_or_evict alloc_pooled
alloc_or_evict-Allocates numa len protect st sound = elim (Option-cases (st.pools numa)) [
  | inl gone ↦ rw (alloc_or_evict, gone) (refused-Allocates numa len protect st _ sound)
  | inr (pool, at) ↦ elim (Option-cases (alloc_in numa pool len st)) [
    | inr (r, got) ↦
        rw (alloc_or_evict, at, got) (alloc_in-Allocates numa pool len protect st at sound r got)
    | inl nothing ↦ elim (Bool-cases (ltb pool.len len)) [
      | inl big ↦
          rw (alloc_or_evict, at, nothing, big) (refused-Allocates numa len protect st _ sound)
      | inr small ↦
          let has : has_pool st numa ≡ true = has_pool_at st numa at in
          let (q, here) = sound.queues numa has in
          rw (alloc_or_evict, at, nothing, small)
            (evict_until-Allocates (queue_len st numa + 1) numa len protect st q sound has here
              (omega (arith, queue_len_at st numa q here)))
    ]
  ]
]
