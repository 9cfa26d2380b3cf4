-- ===== src/Local/Evict/Pass.antt =====
-- The inner loop of `alloc_or_evict`: it returns, and leaves sound what was sound.
use pegastore.Prelude.{
  ℕ, ◌+◌, ◌≤◌, ◌≡◌, refl, ◌∙◌, ◌≢◌, ap, Bool, true, false, not, some, List, [], ◌∷◌, ◌++◌, arith,
  length, get_elem?, get_elem?-lt, length-append, All, All-append, Run, done, Bool-cases,
  Option-cases, inl, inr, if_pos, if_neg, if◌then◌else◌,
}
use pegastore.Prelude.Order.{bytes_ord}
use pegastore.Prelude.Ordered.{lookup, All-lookup}
use pegastore.Prelude.Sorted.{IsSorted}
use pegastore.Core.Types.{Key, Device, Retention, cache, explicit}
use pegastore.Memory.State.{dec_key}
use pegastore.Local.State.{Slot, Object, State, drop_replicas}
use pegastore.Local.Evict.{
  evicted_of, write_back, is_none, Passing, evict_cached, evict_found, evict_entry, evict_pass,
}
use pegastore.Local.Evict.Emptied.{
  emptied, write_back-Wears, lookup-elsewhere, write_back-IsSorted, write_back-AreFit,
  emptied-IsAligned,
}
use pegastore.Local.Sound.{
  IsInRange, AreFit, Leaves, Leaves-refl, Leaves-trans, IsInRange-Leaves, All-map,
  drop_replicas_lem, has_pool,
}

-- What a run of the loop needs, beside the queue: keys ascend, slots fit, deferred entries are good.
pub record IsGood (s : Passing) : Type 0 where
  pub sorted : IsSorted s.state.objects
  pub fit : AreFit s.state.objects
  pub deferred : All (IsInRange s.state.objects) s.deferred

-- One entry: the run returns, and what is in range stays so.
abbrev Enters : Key → Passing → Run (Passing × Bool) → Type 0
Enters protect s r =
    (t : Passing) × (b : Bool) × (r ≡ done (t, b))
    × IsGood t
    × Leaves protect s.state t.state
    × (t.state.fifo ≡ s.state.fifo)
    × (length t.deferred + (if b then 1 else 0) ≤ length s.deferred + 1)

Enters-same : (protect : Key) (s : Passing) → IsGood s → Enters protect s (done (s, false))
Enters-same protect s g = (s, false, refl, g, Leaves-refl protect s.state, refl, omega arith)

defer-Enters :
    (protect : Key) (e : Key × ℕ) (s : Passing)
    → IsInRange s.state.objects e
    → IsGood s
    → Enters protect s (done (record s { deferred = s.deferred ++ e ∷ [] }, false))
defer-Enters protect e s range g = (
  record s { deferred = s.deferred ++ e ∷ [] },
  false,
  refl,
  record {
    sorted = g.sorted;
    fit = g.fit;
    deferred = All-append _ s.deferred (e ∷ []) g.deferred (range, tt);
  },
  Leaves-refl protect s.state,
  refl,
  omega (arith, length-append s.deferred (e ∷ [])),
)

module _ (d : Device) (protect k : Key) (i : ℕ) (obj : Object) (s : Passing) where
  wiped : Slot → State
  wiped slot = record s.state { objects = write_back k (emptied d i obj) s.state.objects }

  after_evict : Slot → Passing
  after_evict slot = record s { state = drop_replicas (evicted_of d slot) (wiped slot) }

  module _ {slot : Slot} (here : lookup k s.state.objects ≡ some obj)
      (at : get_elem? obj.slots i ≡ some slot) where
    after-objects :
        (after_evict slot).state.objects ≡ write_back k (emptied d i obj) s.state.objects
    unfolding after_evict wiped has_pool
    after-objects = (drop_replicas_lem (evicted_of d slot) (wiped slot)).0

    after-Leaves :
        IsSorted s.state.objects → k ≢ protect → Leaves protect s.state (after_evict slot).state
    unfolding after_evict wiped has_pool
    after-Leaves sorted ne =
        let (o, f, r, p) = drop_replicas_lem (evicted_of d slot) (wiped slot) in
        record {
          wears = λ j. rw o (write_back-Wears d k i obj s.state.objects sorted here j);
          protected =
              ap (lookup protect) o
              ∙ lookup-elsewhere d k i obj s.state.objects sorted here protect ne;
          pooled = λ n. p n ∙ refl;
          reading = r;
        }

    evict_cached-Enters : k ≢ protect → IsGood s → Enters protect s (evict_cached d k i obj s)
    unfolding evict_cached after_evict wiped emptied
    evict_cached-Enters ne g =
        let leaves = after-Leaves g.sorted ne in
        (
          after_evict slot,
          not (is_none (evicted_of d slot)),
          rw at refl,
          record {
            sorted = rw after-objects (write_back-IsSorted d k i obj s.state.objects g.sorted here);
            fit = rw after-objects (
                write_back-AreFit d k i obj s.state.objects g.sorted here g.fit (
                  emptied-IsAligned d i obj.slots obj.spec.slots
                    (All-lookup _ k s.state.objects g.fit here)));
            deferred =
                All-map _ _ s.deferred
                  (λ e. IsInRange-Leaves protect s.state (after_evict slot).state e leaves)
                  g.deferred;
          },
          leaves,
          (drop_replicas_lem (evicted_of d slot) (wiped slot)).1,
          ground arith,
        )

evict_found-Enters :
    (d : Device) (protect k : Key) (i : ℕ) (obj : Object) (r : Retention) (s : Passing)
    → lookup k s.state.objects ≡ some obj
    → IsInRange s.state.objects (k, i)
    → k ≢ protect
    → IsGood s
    → Enters protect s (evict_found d k i obj r s)
unfolding evict_found
evict_found-Enters d protect k i obj explicit s here range ne g = Enters-same protect s g
evict_found-Enters d protect k i obj cache s here range ne g =
    let (slot, at) = get_elem?-lt obj.slots i (range obj here) in
    evict_cached-Enters d protect k i obj s here at ne g

evict_entry-Enters :
    (d : Device) (protect k : Key) (i : ℕ) (s : Passing)
    → IsInRange s.state.objects (k, i)
    → IsGood s
    → Enters protect s (evict_entry d protect k i s)
unfolding evict_entry
evict_entry-Enters d protect k i s range g = elim (dec_key k protect) [
  | yes same ↦ rw (if_pos _ same) (defer-Enters protect (k, i) s range g)
  | no ne ↦ rw (if_neg _ ne) (elim (Option-cases (lookup k s.state.objects)) [
    | inl gone ↦ rw gone (Enters-same protect s g)
    | inr (obj, here) ↦
        rw here (evict_found-Enters d protect k i obj obj.spec.retention s here range ne g)
  ])
]

-- The whole loop: besides, the entries that are left are fewer by one if it evicted.
abbrev pub Passes : Key → List (Key × ℕ) → Passing → Run (Passing × List (Key × ℕ) × Bool) → Type 0
Passes protect q s r =
    (t : Passing) × (rest : List (Key × ℕ)) × (b : Bool) × (r ≡ done (t, rest, b))
    × IsGood t
    × Leaves protect s.state t.state
    × (t.state.fifo ≡ s.state.fifo)
    × All (IsInRange t.state.objects) rest
    × (length t.deferred + length rest + (if b then 1 else 0) ≤ length s.deferred + length q)

pub evict_pass-Passes :
    (d : Device) (protect : Key) (q : List (Key × ℕ)) (s : Passing)
    → All (IsInRange s.state.objects) q
    → IsGood s
    → Passes protect q s (evict_pass d protect q s)
unfolding evict_pass
evict_pass-Passes d protect [] s a g =
    (s, [], false, refl, g, Leaves-refl protect s.state, refl, tt, omega arith)
evict_pass-Passes d protect ((k, i) ∷ q) s a g =
    let (t, b, e, good, leaves, same, n) = evict_entry-Enters d protect k i s a.0 g in
    let keep : (e : Key × ℕ) → IsInRange s.state.objects e → IsInRange t.state.objects e =
      λ e. IsInRange-Leaves protect s.state t.state e leaves in
    elim (Bool-cases b) [
      | inl yes_b ↦
          (t, q, true, rw (e, yes_b) refl, good, leaves, same, All-map _ _ q keep a.1, ground arith)
      | inr no_b ↦
          let (u, rest, c, e', good', leaves', same', range, n') =
            evict_pass-Passes d protect q t (All-map _ _ q keep a.1) good in
          (
            u,
            rest,
            c,
            rw (e, no_b) e',
            good',
            Leaves-trans protect s.state t.state u.state leaves leaves',
            same' ∙ same,
            range,
            ground arith,
          )
    ]
