-- ===== src/Local/Engines.antt =====
-- `Inner::copy` and `Inner::gpu` of local.rs. The CUDA calls are parameters: each acts on a world,
-- which holds the memory of the host and of the GPUs.
use pegastore.Prelude.{
  ℕ, Bool, true, false, Option, none, some, List, [], ◌∷◌, ite, ℕ_discrete, if◌then◌else◌,
}
use pegastore.Core.Types.{Device, cpu, gpu}
use pegastore.Core.Error.{Error, new, with_context, Shown, Result, ok, err, invalid_input}
use pegastore.Local.Copy.{Seg, Engine, zip_copy}
use pegastore.Local.State.{Inner}

-- The host copy cannot fail; the others answer like `cuda::h2d_async`, `d2h_async`, `peer_async`
-- (destination GPU first) and `sync`. The arguments of a copy are source, destination and length.
pub record Engines (W : Type 0) : Type 0 where
  pub host : ℕ → ℕ → ℕ → W → W
  pub h2d : ℕ → Engine W
  pub d2h : ℕ → Engine W
  pub peer : ℕ → ℕ → Engine W
  pub sync : ℕ → W → W × Result (Unit {0})

is_served : ℕ → List ℕ → Bool
is_served index [] = false
is_served index (g ∷ gs) = ite (ℕ_discrete index g) true (is_served index gs)

not_served : ℕ → Error
not_served index = with_context (new invalid_input "gpu not served") "gpu" (Shown.number index)

-- `Inner::gpu`, whose answer stands for the GPU of that index.
unfoldable pub gpu_at : Inner → ℕ → Result ℕ
unfolding is_served not_served
gpu_at inner index = if is_served index inner.gpus then ok index else err (not_served index)

module _ {W : Type 0} (engines : Engines W) where
  host_copy : Engine W
  host_copy s d n w = (engines.host s d n w, ok tt)

  -- The stream is synchronised after a walk that succeeded.
  unfoldable pub synced : ℕ → Option (W × Result (Unit {0})) → Option (W × Result (Unit {0}))
  synced index none = none
  synced index (some (w, ok u)) = some (engines.sync index w)
  synced index (some (w, err e)) = some (w, err e)

  on_gpu : Result ℕ → W → (ℕ → Option (W × Result (Unit {0}))) → Option (W × Result (Unit {0}))
  on_gpu (ok index) w run = synced index (run index)
  on_gpu (err e) w run = some (w, err e)

  between_gpus :
      Result ℕ
      → Result ℕ
      → W
      → (ℕ → ℕ → Option (W × Result (Unit {0})))
      → Option (W × Result (Unit {0}))
  between_gpus (ok si) (ok di) w run = synced di (run si di)
  between_gpus (ok si) (err e) w run = some (w, err e)
  between_gpus (err e) dg w run = some (w, err e)

  -- `none` is a walk that is still running.
  unfoldable pub copy :
      Inner → Device → List Seg → ℕ → Device → List Seg → ℕ → W → Option (W × Result (Unit {0}))
  unfolding host_copy synced on_gpu between_gpus
  copy inner (cpu m) src src_offset (cpu n) dst total w =
      zip_copy host_copy src src_offset dst total w
  copy inner (cpu m) src src_offset (gpu index) dst total w =
      on_gpu (gpu_at inner index) w λ g. zip_copy (engines.h2d g) src src_offset dst total w
  copy inner (gpu index) src src_offset (cpu n) dst total w =
      on_gpu (gpu_at inner index) w λ g. zip_copy (engines.d2h g) src src_offset dst total w
  copy inner (gpu si) src src_offset (gpu di) dst total w =
      between_gpus (gpu_at inner si) (gpu_at inner di) w
        λ sg dg. zip_copy (engines.peer dg sg) src src_offset dst total w
