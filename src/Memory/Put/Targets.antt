-- ===== src/Memory/Put/Targets.antt =====
-- The candidate loop and the targets that it takes.
use pegastore.Prelude.{
  ℕ, ◌≤◌, ◌≡◌, refl, sym, ◌∙◌, ap, ◌⊎◌, Bool, true, false, not, Option, some, List, [], ◌∷◌, ◌++◌,
  arith, All, Run, done, ◌>>=◌, Option-cases, inl, inr, length, append_assoc, append-nil,
}
use pegastore.Core.Types.{Key, Device}
use pegastore.Memory.State.{Pool, State}
use pegastore.Memory.Sound.{IsSound}
use pegastore.Memory.Room.{
  capacity_at, HasRoom, Keeps, Keeps-refl, Keeps-trans, HasRoom-Keeps, Makes, make_room-Makes,
}
use pegastore.Memory.Evict.{make_room}
use pegastore.Memory.Place.{Placing, after_room, try_device, place, cannot_fit, unknown_device}

abbrev pub HasPool : State → Device → Type 0
HasPool st d = (c : Option ℕ) × (capacity_at st d ≡ some c)

pub HasPool-pool : (st : State) (d : Device) → HasPool st d → (p : Pool) × (st.pools d ≡ some p)
unfolding capacity_at
HasPool-pool st d (c, h) = elim (Option-cases (st.pools d)) [
  | inl e ↦ absurd (ground arith)
  | inr found ↦ found
]

-- A target has a pool, and the bytes fit into it.
abbrev pub IsOpen : State → ℕ → Device × Bool → Type 0
IsOpen st len t = HasPool st t.0 × HasRoom st t.0 len

IsOpen-Keeps :
    (kb : Key) (st st' : State) (len : ℕ)
    → Keeps kb st st'
    → (t : Device × Bool) → IsOpen st len t
    → IsOpen st' len t
IsOpen-Keeps kb st st' len k t (pool, room) =
    ((pool.0, k.shape t.0 ∙ pool.1), HasRoom-Keeps kb st st' t.0 len k room)

-- The targets are candidates, in their order.
pub data Sub : List (Device × Bool) → List (Device × Bool) → Type 0 where
  nothing : {cs : List (Device × Bool)} → Sub [] cs
  take : {ts cs : List (Device × Bool)} (c : Device × Bool) → Sub ts cs → Sub (c ∷ ts) (c ∷ cs)
  skip : {ts cs : List (Device × Bool)} (c : Device × Bool) → Sub ts cs → Sub ts (c ∷ cs)

-- What one round comes to: it leaves the targets, or takes the device; then it stops or goes on.
abbrev Tries : Bool → ℕ → Key → Device × Bool → Placing → Run (Placing × Bool) → Type 0
Tries each len kb c p r =
    (q : Placing) × (stop : Bool) × (r ≡ done (q, stop))
    × IsSound q.state
    × Keeps kb p.state q.state
    × (((q.targets ≡ p.targets) × (stop ≡ each))
        ⊎ ((q.targets ≡ p.targets ++ c ∷ []) × (stop ≡ not each) × IsOpen q.state len c))

Tries-room :
    (each : Bool) (len : ℕ) (kb : Key) (d : Device) (m : Bool) (p : Placing)
    → HasPool p.state d
    → Makes d len kb p.state (make_room d len kb p.state)
    → Tries each len kb
        (d, m)
        p
        (make_room d len kb p.state >>= λ r. done (after_room each len d m p r))
unfolding after_room
Tries-room each len kb d m p pool (st, true, e, sound, keeps, room) = (
  record p { state = st; targets = p.targets ++ (d, m) ∷ [] },
  not each,
  rw e,
  sound,
  keeps,
  inr (refl, refl, ((pool.0, keeps.shape d ∙ pool.1), room refl)),
)
Tries-room each len kb d m p pool (st, false, e, sound, keeps, room) = (
  record p { state = st; failure = some (cannot_fit d len) },
  each,
  rw e,
  sound,
  keeps,
  inl (refl, refl),
)

try_device-Tries :
    (each : Bool) (len : ℕ) (kb : Key) (d : Device) (m : Bool) (p : Placing)
    → IsSound p.state
    → Tries each len kb (d, m) p (try_device each len kb d m p)
unfolding try_device capacity_at
try_device-Tries each len kb d m p sound = elim (Option-cases (p.state.pools d)) [
  | inl e ↦ (
    record p { failure = some (unknown_device d) },
    each,
    rw (e, try_device),
    sound,
    Keeps-refl kb p.state,
    inl (refl, refl),
  )
  | inr (pool, e) ↦
      rw (e, try_device)
        (Tries-room each len kb d m p (pool.capacity, rw (e, capacity_at))
          (make_room-Makes d len kb p.state pool e sound))
]

-- What the loop comes to: it adds some of the candidates to the targets, and at most one unless
-- every candidate is wanted; the new targets are open in the final state.
abbrev pub Places : Bool → ℕ → Key → List (Device × Bool) → Placing → Run Placing → Type 0
Places each len kb cs p r =
    (q : Placing) × (ts : List (Device × Bool)) × (r ≡ done q)
    × IsSound q.state
    × Keeps kb p.state q.state
    × (q.targets ≡ p.targets ++ ts)
    × Sub ts cs
    × (each ≡ false → length ts ≤ 1)
    × All (IsOpen q.state len) ts

module _ (each : Bool) (len : ℕ) (kb : Key) (c : Device × Bool) (cs : List (Device × Bool))
    (p q : Placing) (sound : IsSound q.state) (keeps : Keeps kb p.state q.state) where
  stop_here :
      ((q.targets ≡ p.targets)
        ⊎ ((q.targets ≡ p.targets ++ c ∷ []) × (true ≡ not each) × IsOpen q.state len c))
      → Places each len kb (c ∷ cs) p (done q)
  stop_here (inl same) =
      (q, [], refl, sound, keeps, same ∙ sym (append-nil p.targets), nothing, λ e. omega arith, tt)
  stop_here (inr (more, alone, open_now)) =
      (q, c ∷ [], refl, sound, keeps, more, take c nothing, λ e. omega arith, (open_now, tt))

  go_on :
      (r : Run Placing)
      → ((q.targets ≡ p.targets)
          ⊎ ((q.targets ≡ p.targets ++ c ∷ []) × (false ≡ not each) × IsOpen q.state len c))
      → Places each len kb cs q r
      → Places each len kb (c ∷ cs) p r
  go_on r (inl same) (u, ts, e, su, ku, targets, sub, alone, opens) = (
    u,
    ts,
    e,
    su,
    Keeps-trans kb p.state q.state u.state keeps ku,
    targets ∙ ap (λ xs. xs ++ ts) same,
    skip c sub,
    alone,
    opens,
  )
  go_on r (inr (more, all, open_now)) (u, ts, e, su, ku, targets, sub, alone, opens) = (
    u,
    c ∷ ts,
    e,
    su,
    Keeps-trans kb p.state q.state u.state keeps ku,
    targets ∙ ap (λ xs. xs ++ ts) more ∙ append_assoc p.targets (c ∷ []) ts,
    take c sub,
    λ one. ground arith,
    (IsOpen-Keeps kb q.state u.state len ku c open_now, opens),
  )

pub place-Places :
    (each : Bool) (len : ℕ) (kb : Key) (cs : List (Device × Bool)) (p : Placing)
    → IsSound p.state
    → Places each len kb cs p (place each len kb cs p)
unfolding place
place-Places each len kb [] p sound = (
  p,
  [],
  refl,
  sound,
  Keeps-refl kb p.state,
  sym (append-nil p.targets),
  nothing,
  λ e. omega arith,
  tt,
)
place-Places each len kb ((d, m) ∷ cs) p sound =
    step (try_device-Tries each len kb d m p sound) λ q s. place-Places each len kb cs q s
  where
    step :
        Tries each len kb (d, m) p (try_device each len kb d m p)
        → ((q : Placing) → IsSound q.state → Places each len kb cs q (place each len kb cs q))
        → Places each len kb ((d, m) ∷ cs) p (place each len kb ((d, m) ∷ cs) p)
    step (q, true, e, sq, kq, inl (same, s)) rest =
        rw e (stop_here each len kb (d, m) cs p q sq kq (inl same))
    step (q, true, e, sq, kq, inr (more, s, o)) rest =
        rw e (stop_here each len kb (d, m) cs p q sq kq (inr (more, s, o)))
    step (q, false, e, sq, kq, inl (same, s)) rest =
        rw e (go_on each len kb (d, m) cs p q sq kq _ (inl same) (rest q sq))
    step (q, false, e, sq, kq, inr (more, s, o)) rest =
        rw e (go_on each len kb (d, m) cs p q sq kq _ (inr (more, s, o)) (rest q sq))
