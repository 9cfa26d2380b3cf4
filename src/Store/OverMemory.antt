-- ===== src/Store/OverMemory.antt =====
-- The store over the reference backend: `Memory` as an `Access`, whose world is the counter of
-- region ids, the memory of the process, and the state of the backend.
use pegastore.Prelude.{ℕ, ◌≡◌, refl, ◌⊎◌, inl, inr, length, All, Run, done, ◌>>=◌}
use pegastore.Core.Types.{Key, Device}
use pegastore.Core.Error.{Error, Result, err, with_operation, Result-cases}
use pegastore.Core.Ops.{OpPut, RpPut}
use pegastore.Memory.State.{State, Inner}
use pegastore.Memory.Sound.{IsSound}
use pegastore.Memory.Place.{Ram}
use pegastore.Memory.Put as P
use pegastore.Memory.Get as G
use pegastore.Memory.Lifecycle as L
use pegastore.Memory.Room.{capacity_at}
use pegastore.Memory.Put.Distinct.{IsPlain, IsBounded}
use pegastore.Memory.Put.Total.{CanReserve, KeepsWritten, put-PutsObject}
use pegastore.Store.{Access, put_options, check_put, checked, tag}
use pegastore.Store.Checks.{CanPut, check_put-ok_iff}

pub record World : Type 0 where
  pub counter : ℕ
  pub ram : Ram
  pub state : State

abbrev on_state : {A : Type 0} → World → Run (State × A) → Run (World × A)
on_state w r = r >>= λ (st, a). done (record w { state = st }, a)

-- `impl Access for Memory`.
unfoldable pub memory : Inner → Access World
memory inner = record {
  info = inner.info;
  register = λ ptr len device w.
      let (counter, r) = L.register inner w.counter ptr len device in
      done (record w { counter = counter }, r);
  put = λ key op w. on_state w (P.put inner w.ram key op w.state);
  publish = λ key op w. on_state w (L.publish key op w.state);
  stat = λ keys w. done (w, L.stat inner w.state keys);
  get =
      λ key op w. G.get inner w.state w.ram key op >>= λ (ram, r). done (record w { ram = ram }, r);
  remove = λ keys w. on_state w (L.remove_keys keys w.state);
  remove_prefix = λ prefix w. on_state w (L.remove_prefix prefix w.state);
}

-- A put through the store.
abbrev pub PutsThrough : Inner → Key → OpPut → World → Run (World × Result RpPut) → Type 0
PutsThrough inner kb op w r =
    ((e : Error) × (r ≡ done (w, err e)))
    ⊎ ((w' : World) × (q : Result RpPut) × (r ≡ done (w', q))
        × CanPut inner.info.capability op
        × IsSound w'.state
        × ((d : Device) → capacity_at w'.state d ≡ capacity_at w.state d)
        × (All (λ s. IsPlain s.spec.placement) op.slots → IsBounded w.state → IsBounded w'.state)
        × KeepsWritten kb w.state w'.state)

-- Through the store too a put returns, in a sound state where a new key has no left-over queue
-- entries that it is too short for: either a check refuses it, with an error and no change of the
-- world; or the put is well formed and within the capability of the backend, and after it the
-- invariant and all capacities hold, slots that had replicas keep them, and bounded pools stay
-- bounded if no placement lists a device twice.
pub put_options-PutsThrough :
    (inner : Inner) (kb : Key) (op : OpPut) (w : World)
    → IsSound w.state
    → CanReserve kb (length op.slots) w.state
    → PutsThrough inner kb op w (put_options (memory inner) kb op w)
unfolding put_options checked memory
put_options-PutsThrough inner kb op w v c =
    elim (Result-cases (check_put inner.info.capability op)) [
      | inl (u, h) ↦
          let (st', q, e, sound, shape, bound, keep) =
            put-PutsObject inner w.ram kb op w.state v c in
          inr (
            record w { state = st' },
            tag "put" q,
            rw h (rw e refl),
            (check_put-ok_iff inner.info.capability op).0 h,
            sound,
            shape,
            bound,
            keep,
          )
      | inr (e, h) ↦ inl (with_operation e "put", rw h refl)
    ]
