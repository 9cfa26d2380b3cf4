-- ===== src/Core/Ops.antt =====
-- crates/pegastore/src/ops.rs: operation arguments, replies, and the check of an iov list.
pub mod Validation
use pegastore.Prelude.{
  ℕ, zero, suc, ◌+◌, ◌≡◌, refl, Bool, true, false, not, ◌&&◌, Option, none, some, List, [], ◌∷◌,
  map, ltb, ◌==◌, if◌then◌else◌, ite, checked_add, length,
}
use pegastore.Core.Types.{Device, dec_device, Location, Retention, cache, SlotSpec, ObjectSpec}
use pegastore.Core.Error.{
  Error, new, with_context, Result, ok, err, ◌>>=◌, ◌>>◌, map_err, is_ok, invalid_input, Shown,
}
use pegastore.Core.Region.{MemoryRegion, Iov, in_bounds}

out_of_bounds : ℕ → Iov → Error
out_of_bounds i v =
    with_context
      (with_context
        (with_context
          (with_context (new invalid_input "iov out of region bounds") "index" (Shown.number i))
          "offset" (Shown.number v.offset))
        "len" (Shown.number v.len))
      "region_len" (Shown.number v.region.len)

spans_devices : ℕ → Iov → Device → Error
spans_devices i v expected =
    with_context
      (with_context
        (with_context (new invalid_input "iov list spans multiple devices") "index"
          (Shown.number i))
        "device" (Shown.device v.region.device))
      "expected" (Shown.device expected)

-- One round of the loop: the total so far and this segment.
unfoldable pub check_iov : Device → ℕ → ℕ → Iov → Result ℕ
unfolding out_of_bounds spans_devices
check_iov device i total v =
    if in_bounds v
    then ite (dec_device v.region.device device)
        (elim (checked_add total v.len) [
          | none ↦ err (new invalid_input "iov total length overflows")
          | some t ↦ ok t
        ])
        (err (spans_devices i v device))
    else err (out_of_bounds i v)

unfoldable pub check_iovs : Device → ℕ → ℕ → List Iov → Result ℕ
check_iovs device i total [] = ok total
check_iovs device i total (v ∷ vs) = do
  t ← check_iov device i total v
  check_iovs device (i + 1) t vs

unfoldable pub check_total : Option ℕ → ℕ → Result (Unit {0})
check_total none total = ok tt
check_total (some expect) total =
    if total == expect
    then ok tt
    else err (
        with_context
          (with_context (new invalid_input "iov total length mismatch") "total"
            (Shown.number total))
          "expected" (Shown.number expect))

unfoldable pub validate_iovs : List Iov → Option ℕ → Result (Device × ℕ)
validate_iovs [] expect_len = err (new invalid_input "empty iov list")
validate_iovs (first ∷ rest) expect_len = do
  total ← check_iovs first.region.device 0 0 (first ∷ rest)
  check_total expect_len total
  ok (first.region.device, total)

pub record PutSlot : Type 0 where
  pub spec : SlotSpec
  pub src : List Iov

pub record OpPut : Type 0 where
  pub retention : Retention
  pub slots : List PutSlot

-- `OpPut::new`.
unfoldable pub new_put : List PutSlot → OpPut
new_put slots = record { retention = cache; slots = slots }

unfoldable pub with_retention : OpPut → Retention → OpPut
with_retention op retention = record op { retention = retention }

unfoldable pub put_spec : OpPut → ObjectSpec
put_spec op = record { retention = op.retention; slots = map (λ s. s.spec) op.slots }

unfoldable pub validate_slots : ℕ → List PutSlot → Result (Unit {0})
validate_slots i [] = ok tt
validate_slots i (s ∷ ss) = do
  map_err (λ e. with_context e "slot" (Shown.number i)) (validate_iovs s.src (some s.spec.len))
  validate_slots (i + 1) ss

-- `OpPut::validate`.
unfoldable pub validate_put : OpPut → Result (Unit {0})
validate_put op = elim op.slots [
  | [] ↦ err (new invalid_input "object needs at least one slot")
  | s ∷ ss ↦ validate_slots 0 (s ∷ ss)
]

pub record RpPut : Type 0 where
  pub slots : List (Result (Unit {0}))

all_ok_from : List (Result (Unit {0})) → Bool
all_ok_from [] = true
all_ok_from (r ∷ rs) = is_ok r && all_ok_from rs

unfoldable pub all_ok : RpPut → Bool
unfolding all_ok_from
all_ok rp = all_ok_from rp.slots

collect : List (Result (Unit {0})) → Result (Unit {0})
collect [] = ok tt
collect (r ∷ rs) = do r; collect rs

unfoldable pub into_result : RpPut → Result (Unit {0})
unfolding collect
into_result rp = collect rp.slots

pub record OpGet : Type 0 where
  pub slot : ℕ
  pub src_offset : ℕ
  pub dst : List Iov

-- `OpGet::new`.
unfoldable pub new_get : ℕ → List Iov → OpGet
new_get slot dst = record { slot = slot; src_offset = 0; dst = dst }

unfoldable pub with_src_offset : OpGet → ℕ → OpGet
with_src_offset op src_offset = record op { src_offset = src_offset }

pub record RpGet : Type 0 where
  pub from : Location

pub record OpPublish : Type 0 where
  pub slot : ℕ
  pub src : List Iov

-- The unit reply of `OpGet::validate` and `OpPublish::validate`.
unfoldable pub validate_get : OpGet → Result (Device × ℕ)
validate_get op = validate_iovs op.dst none

unfoldable pub validate_publish : OpPublish → Result (Device × ℕ)
validate_publish op = validate_iovs op.src none

-- `PutSlot::new`.
unfoldable pub new_put_slot : SlotSpec → List Iov → PutSlot
new_put_slot spec src = record { spec = spec; src = src }

-- `OpPublish::new`.
unfoldable pub new_publish : ℕ → List Iov → OpPublish
new_publish slot src = record { slot = slot; src = src }
