-- ===== src/Store.antt =====
-- crates/pegastore/src/store.rs: the checks of a request against the capability of the backend, and
-- the delegation. The trait `Access` of access.rs is a record of functions over the world `W` that
-- a backend changes; a future runs to its end in one step.
pub mod Checks
pub mod OverMemory
pub mod Forward
use Prim.Native.String.{◌++◌}
use pegastore.Prelude.{
  ℕ, ◌+◌, Bool, true, false, not, ◌&&◌, Option, none, some, List, [], ◌∷◌, ltb, if◌then◌else◌,
  length, Run, done, ◌>>=◌, String,
}
use pegastore.Core.Types.{
  Key, Device, is_gpu, Placement, strict, Retention, explicit, cache, AccessInfo, Capability,
  ObjectInfo,
}
use pegastore.Core.Error.{
  Error, ErrorKind, Result, ok, err, ◌>>◌, ◌>>=◌ as ◌>>=?◌, new, with_context, with_operation,
  Shown, map_err,
}
use pegastore.Core.Region.{MemoryRegion, Iov}
use pegastore.Core.Ops.{
  PutSlot, OpPut, RpPut, OpGet, RpGet, OpPublish, validate_put, validate_get, validate_publish,
  new_put, new_get,
}

-- `trait Access`.
pub record Access (W : Type 0) : Type 0 where
  pub info : AccessInfo
  pub register : ℕ → ℕ → Device → W → Run (W × Result MemoryRegion)
  pub put : Key → OpPut → W → Run (W × Result RpPut)
  pub publish : Key → OpPublish → W → Run (W × Result (Unit {0}))
  pub stat : List Key → W → Run (W × Result (List (Option ObjectInfo)))
  pub get : Key → OpGet → W → Run (W × Result RpGet)
  pub remove : List Key → W → Run (W × Result (Unit {0}))
  pub remove_prefix : Key → W → Run (W × Result ℕ)

unfoldable pub unsupported : String → Error
unsupported what = new ErrorKind.unsupported ("backend does not support " ++ what)

-- A limit that is there and is exceeded.
unfoldable pub exceeds : Option ℕ → ℕ → Bool
exceeds none n = false
exceeds (some max) n = ltb max n

-- The limit, for the context of an error.
abbrev limit_of : Option ℕ → ℕ
limit_of none = 0
limit_of (some max) = max

unfoldable pub check_iov_count : Capability → ℕ → Result (Unit {0})
check_iov_count limits n =
    if exceeds limits.max_iov n
    then err (
        with_context (unsupported "too many iov segments") "max_iov"
          (Shown.number (limit_of limits.max_iov)))
    else ok tt

unfoldable pub check_placement : Capability → ℕ → Placement → Result (Unit {0})
check_placement limits i (strict d) =
    if limits.placement_strict
    then ok tt
    else err (with_context (unsupported "placement strict") "slot" (Shown.number i))
check_placement limits i (Placement.each ds) =
    if limits.placement_each
    then ok tt
    else err (with_context (unsupported "placement each") "slot" (Shown.number i))
check_placement limits i (Placement.prefer d) = ok tt
check_placement limits i Placement.anywhere = ok tt

unfoldable pub check_len : Capability → ℕ → ℕ → Result (Unit {0})
check_len limits i len =
    if exceeds limits.max_slot_len len
    then err (
        with_context (with_context (unsupported "slot too large") "slot" (Shown.number i))
          "max_slot_len" (Shown.number (limit_of limits.max_slot_len)))
    else ok tt

unfoldable pub check_slots : Capability → ℕ → List PutSlot → Result (Unit {0})
check_slots limits i [] = ok tt
check_slots limits i (s ∷ ss) = do
  check_placement limits i s.spec.placement
  check_len limits i s.spec.len
  check_iov_count limits (length s.src)
  check_slots limits (i + 1) ss

unfoldable pub check_retention : Capability → Retention → Result (Unit {0})
check_retention limits explicit =
    if limits.retention_explicit then ok tt else err (unsupported "retention explicit")
check_retention limits cache = ok tt

unfoldable pub check_slot_count : Capability → ℕ → Result (Unit {0})
check_slot_count limits n =
    if exceeds limits.max_slots n
    then err (
        with_context (unsupported "too many slots") "max_slots"
          (Shown.number (limit_of limits.max_slots)))
    else ok tt

unfoldable pub check_put : Capability → OpPut → Result (Unit {0})
check_put limits op = do
  validate_put op
  check_retention limits op.retention
  check_slot_count limits (length op.slots)
  check_slots limits 0 op.slots

-- The error of a call carries the name of the operation, unless it has one.
abbrev pub tag : {A : Type 0} → String → Result A → Result A
tag operation r = map_err (λ e. with_operation e operation) r

-- A check, and the call of the backend if it passes.
unfoldable pub checked :
    {W A : Type 0} → String → Result (Unit {0}) → (W → Run (W × Result A)) → W → Run (W × Result A)
checked operation (err e) call w = done (w, tag operation (err e))
checked operation (ok u) call w = call w >>= λ (w', r). done (w', tag operation r)

unfoldable pub allow : Bool → Error → Result (Unit {0})
allow true e = ok tt
allow false e = err e

unfoldable pub check_get : Capability → OpGet → Result (Unit {0})
check_get limits op = do validate_get op; check_iov_count limits (length op.dst)

unfoldable pub check_publish : Capability → OpPublish → Result (Unit {0})
check_publish limits op = do
  allow limits.publish (unsupported "publish")
  validate_publish op
  check_iov_count limits (length op.src)

unfoldable pub check_stat : Capability → List Key → Result (Unit {0})
check_stat limits keys =
    if exceeds limits.max_stat_batch (length keys)
    then err (
        with_context (unsupported "stat batch too large") "max_stat_batch"
          (Shown.number (limit_of limits.max_stat_batch)))
    else ok tt

module _ {W : Type 0} (access : Access W) where
  -- The error of the backend is passed on as it is.
  unfoldable pub register : ℕ → ℕ → Device → W → Run (W × Result MemoryRegion)
  register ptr len device w =
      if is_gpu device && not access.info.capability.gpu_memory
      then done (w, err (with_operation (unsupported "gpu memory") "register"))
      else access.register ptr len device w

  unfoldable pub put_options : Key → OpPut → W → Run (W × Result RpPut)
  put_options key op = checked "put" (check_put access.info.capability op) (access.put key op)

  unfoldable pub put : Key → List PutSlot → W → Run (W × Result RpPut)
  put key slots = put_options key (new_put slots)

  unfoldable pub get_options : Key → OpGet → W → Run (W × Result RpGet)
  get_options key op = checked "get" (check_get access.info.capability op) (access.get key op)

  unfoldable pub get : Key → ℕ → List Iov → W → Run (W × Result RpGet)
  get key slot dst = get_options key (new_get slot dst)

  unfoldable pub publish : Key → ℕ → List Iov → W → Run (W × Result (Unit {0}))
  publish key slot src =
      let op : OpPublish = record { slot = slot; src = src } in
      checked "publish" (check_publish access.info.capability op) (access.publish key op)

  unfoldable pub stat : List Key → W → Run (W × Result (List (Option ObjectInfo)))
  stat keys = checked "stat" (check_stat access.info.capability keys) (access.stat keys)

  unfoldable pub remove : List Key → W → Run (W × Result (Unit {0}))
  remove keys = checked "remove" (ok tt) (access.remove keys)

  unfoldable pub remove_prefix : Key → W → Run (W × Result ℕ)
  remove_prefix prefix =
      checked "remove_prefix"
        (allow access.info.capability.remove_prefix (unsupported "remove_prefix"))
        (access.remove_prefix prefix)
