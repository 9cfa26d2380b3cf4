-- ===== src/Memory/Room.antt =====
-- `make_room` returns, keeps the invariant, and where it answers true the bytes fit.
use pegastore.Prelude.{
  ℕ, ◌+◌, ◌≤◌, ◌≡◌, refl, sym, ◌∙◌, ap, Bool, true, false, Option, none, some, List, [], arith, All,
  All-append, Run, done, leb, ltb, Bool-cases, inl, inr, update, update_self, leb→le,
}
use pegastore.Prelude.Order.{bytes_ord}
use pegastore.Prelude.Ordered.{lookup}
use pegastore.Core.Types.{Key, Device, dec_device}
use pegastore.Memory.State.{Pool, State, used_on}
use pegastore.Memory.Evict.{Evicting, settle, evict_for, make_room_in, make_room}
use pegastore.Memory.Sound.{IsInRange, IsSound, IsSound-update}
use pegastore.Memory.Eviction.{IsCounted, Leaves, evict_loop-Returns}

-- The bound of a device's pool: `none` without a pool, `some none` for a pool without a bound.
unfoldable pub capacity_at : State → Device → Option (Option ℕ)
capacity_at st d = elim (st.pools d) [ none ↦ none | some p ↦ some p.capacity ]

abbrev pub HasRoom : State → Device → ℕ → Type 0
HasRoom st d n = (c : ℕ) → capacity_at st d ≡ some (some c) → used_on st d + n ≤ c

-- What making room leaves alone.
pub record Keeps (kb : Key) (st st' : State) : Type 0 where
  pub protected : lookup kb st'.objects ≡ lookup kb st.objects
  pub in_range : (e : Key × ℕ) → IsInRange st.objects e → IsInRange st'.objects e
  pub shape : (d : Device) → capacity_at st' d ≡ capacity_at st d
  pub less : (d : Device) → used_on st' d ≤ used_on st d

pub Keeps-refl : (kb : Key) (st : State) → Keeps kb st st
Keeps-refl kb st = record {
  protected = refl;
  in_range = λ e h. h;
  shape = λ d. refl;
  less = λ d. omega arith;
}

pub Keeps-trans :
    (kb : Key) (st st' st'' : State) → Keeps kb st st' → Keeps kb st' st'' → Keeps kb st st''
Keeps-trans kb st st' st'' f g = record {
  protected = g.protected ∙ f.protected;
  in_range = λ e h. g.in_range e (f.in_range e h);
  shape = λ d. g.shape d ∙ f.shape d;
  less = λ d. omega (arith, f.less d, g.less d);
}

pub HasRoom-Keeps :
    (kb : Key) (st st' : State) (d : Device) (n : ℕ)
    → Keeps kb st st'
    → HasRoom st d n
    → HasRoom st' d n
HasRoom-Keeps kb st st' d n k h c e = omega (arith, k.less d, h c (sym (k.shape d) ∙ e))

-- What a call of `make_room` comes to.
abbrev pub Makes : Device → ℕ → Key → State → Run (State × Bool) → Type 0
Makes d need protect st r =
    (st' : State) × (b : Bool) × (r ≡ done (st', b))
    × IsSound st'
    × Keeps protect st st'
    × (b ≡ true → HasRoom st' d need)

module _ (d : Device) (need : ℕ) (protect : Key) (st : State) (p : Pool)
    (here : st.pools d ≡ some p) (sound : IsSound st) where
  Makes-nothing :
      (b : Bool) → (b ≡ true → HasRoom st d need) → Makes d need protect st (done (st, b))
  Makes-nothing b h = (st, b, refl, sound, Keeps-refl protect st, h)

  start : Evicting
  start = record { objects = st.objects; used = p.used; deferred = [] }

  module _ (t : Evicting) (rest : List (Key × ℕ)) (ct : IsCounted d t)
      (lt : Leaves d protect start t) (queue : All (IsInRange t.objects) rest) where
    settled : State
    settled = settle d p t rest st

    settled-IsSound : IsSound settled
    unfolding settled settle start
    settled-IsSound =
        IsSound-update st t.objects d _ sound ct.sorted ct.fit ct.exact lt.elsewhere lt.in_range
          (All-append _ t.deferred rest ct.deferred queue)

    settled-capacity : (e : Device) → capacity_at settled e ≡ capacity_at st e
    unfolding settled settle capacity_at update
    settled-capacity e = ground arith

    settled-used : (e : Device) → used_on settled e ≤ used_on st e
    unfolding settled settle used_on update start
    settled-used e = ground arith

    settled-used_here : used_on settled d ≡ t.used
    unfolding settled settle used_on
    settled-used_here = rw (update_self dec_device st.pools d _, used_on)

    settled-Keeps : Keeps protect st settled
    settled-Keeps = record {
      protected = unfold settled settle start in lt.protected;
      in_range = unfold settled settle start in lt.in_range;
      shape = settled-capacity;
      less = settled-used;
    }

  capacity_here : capacity_at st d ≡ some p.capacity
  unfolding capacity_at
  capacity_here = rw (here, capacity_at)

  start-IsCounted : IsCounted d start
  unfolding start
  start-IsCounted = record {
    exact = sound.accounted d p here;
    sorted = sound.sorted;
    fit = sound.fit;
    deferred = tt;
  }

  start-queue : All (IsInRange start.objects) p.fifo
  unfolding start
  start-queue = sound.queued d p here

  module _ (limit : ℕ) (bounded : p.capacity ≡ some limit) where
    module _ (t : Evicting) (rest : List (Key × ℕ)) (ct : IsCounted d t)
        (lt : Leaves d protect start t) (queue : All (IsInRange t.objects) rest) where
      settled-HasRoom :
          leb (t.used + need) limit ≡ true → HasRoom (settled t rest ct lt queue) d need
      settled-HasRoom fits c e =
          let q : some (some limit) ≡ some (some c) =
            ap some (sym bounded)
            ∙ sym capacity_here
            ∙ sym (settled-capacity t rest ct lt queue d)
            ∙ e in
          let same : limit ≡ c = cc in
          omega (arith, leb→le _ _ fits, settled-used_here t rest ct lt queue)

    evict_for-Makes : Makes d need protect st (evict_for d need protect p limit st)
    unfolding evict_for settled start
    evict_for-Makes = elim (Bool-cases (ltb limit need)) [
      | inl big ↦ rw big (Makes-nothing false (λ e. cc))
      | inr small ↦
          let (t, rest, e, ct, lt, queue) =
            evict_loop-Returns d need limit protect p.fifo start start-queue start-IsCounted in
          (
            settled t rest ct lt queue,
            leb (t.used + need) limit,
            rw (small, e),
            settled-IsSound t rest ct lt queue,
            settled-Keeps t rest ct lt queue,
            settled-HasRoom t rest ct lt queue,
          )
    ]

  in_pool :
      (c : Option ℕ) → p.capacity ≡ c → Makes d need protect st (make_room_in d need protect p c st)
  unfolding make_room_in
  in_pool none e = Makes-nothing true λ t c h.
      let q : ◌≡◌ {A = Option (Option ℕ)} (some none) (some (some c)) =
        ap some (sym e) ∙ sym capacity_here ∙ h in
      cc
  in_pool (some limit) e = evict_for-Makes limit e

-- On a device with a pool, in a sound state, making room returns: the state stays sound, the
-- protected object is untouched, no pool changes its bound or grows, and if the answer is true the
-- bytes fit into the pool.
pub make_room-Makes :
    (d : Device) (need : ℕ) (protect : Key) (st : State) (p : Pool)
    → st.pools d ≡ some p
    → IsSound st
    → Makes d need protect st (make_room d need protect st)
unfolding make_room
make_room-Makes d need protect st p here sound =
    rw here (in_pool d need protect st p here sound p.capacity refl)
