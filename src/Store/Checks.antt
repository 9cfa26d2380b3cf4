-- ===== src/Store/Checks.antt =====
-- What `Store::check_put` accepts.
use pegastore.Prelude.{
  ℕ, ◌+◌, ◌≤◌, ◌≡◌, refl, ◌↔◌, ◌≢◌, true, Option, none, some, List, [], ◌∷◌, arith, All, length,
  if◌then◌else◌,
}
use pegastore.Core.Types.{Placement, strict, Retention, explicit, cache, Capability}
use pegastore.Core.Error.{Error, Result, ok, err, >>=-eq-ok}
use pegastore.Core.Ops.{PutSlot, OpPut, validate_put}
use pegastore.Core.Ops.Validation.{Fills, validate_put-ok_iff}
use pegastore.Store.{
  exceeds, check_iov_count, check_placement, check_len, check_slots, check_retention,
  check_slot_count, check_put,
}

abbrev pub Within : Option ℕ → ℕ → Type 0
Within none n = Unit {0}
Within (some max) n = n ≤ max

abbrev pub CanPlace : Capability → Placement → Type 0
CanPlace limits (strict d) = limits.placement_strict ≡ true
CanPlace limits (Placement.each ds) = limits.placement_each ≡ true
CanPlace limits _ = Unit {0}

abbrev pub CanRetain : Capability → Retention → Type 0
CanRetain limits explicit = limits.retention_explicit ≡ true
CanRetain limits cache = Unit {0}

-- The backend supports the slot.
abbrev pub CanTake : Capability → PutSlot → Type 0
CanTake limits s =
    CanPlace limits s.spec.placement
    × Within limits.max_slot_len s.spec.len
    × Within limits.max_iov (length s.src)

check_placement_iff :
    (c : Capability) (i : ℕ) (p : Placement) → (check_placement c i p ≡ ok tt) ↔ CanPlace c p
unfolding check_placement
check_placement_iff c i (strict d) = ground arith
check_placement_iff c i (Placement.each ds) = ground arith
check_placement_iff c i (Placement.prefer d) = (λ h. tt, λ h. refl)
check_placement_iff c i Placement.anywhere = (λ h. tt, λ h. refl)

-- A check of a limit.
limit_iff :
    (m : Option ℕ) (n : ℕ) (e : Error)
    → (Path (Result (Unit {0})) (if exceeds m n then err e else ok tt) (ok tt)) ↔ Within m n
unfolding exceeds
limit_iff none n e = (λ h. tt, λ h. refl)
limit_iff (some max) n e = ground arith

check_len_iff : (c : Capability) (i n : ℕ) → (check_len c i n ≡ ok tt) ↔ Within c.max_slot_len n
unfolding check_len
check_len_iff c i n = limit_iff c.max_slot_len n _

check_iov_count_iff : (c : Capability) (n : ℕ) → (check_iov_count c n ≡ ok tt) ↔ Within c.max_iov n
unfolding check_iov_count
check_iov_count_iff c n = limit_iff c.max_iov n _

check_slot_count_iff :
    (c : Capability) (n : ℕ) → (check_slot_count c n ≡ ok tt) ↔ Within c.max_slots n
unfolding check_slot_count
check_slot_count_iff c n = limit_iff c.max_slots n _

check_retention_iff :
    (c : Capability) (r : Retention) → (check_retention c r ≡ ok tt) ↔ CanRetain c r
unfolding check_retention
check_retention_iff c explicit = ground arith
check_retention_iff c cache = (λ h. tt, λ h. refl)

check_slots_sound :
    (c : Capability) (i : ℕ) (ss : List PutSlot) → check_slots c i ss ≡ ok tt → All (CanTake c) ss
unfolding check_slots
check_slots_sound c i [] h = tt
check_slots_sound c i (s ∷ ss) h =
    let (_, place, h1) = >>=-eq-ok (check_placement c i s.spec.placement) _ h in
    let (_, len, h2) = >>=-eq-ok (check_len c i s.spec.len) _ h1 in
    let (_, count, h3) = >>=-eq-ok (check_iov_count c (length s.src)) _ h2 in
    (
      (
        (check_placement_iff c i s.spec.placement).0 place,
        (check_len_iff c i s.spec.len).0 len,
        (check_iov_count_iff c (length s.src)).0 count,
      ),
      check_slots_sound c (i + 1) ss h3,
    )

check_slots_complete :
    (c : Capability) (i : ℕ) (ss : List PutSlot) → All (CanTake c) ss → check_slots c i ss ≡ ok tt
unfolding check_slots
check_slots_complete c i [] a = refl
check_slots_complete c i (s ∷ ss) ((place, len, count), a) =
    rw
      (
        (check_placement_iff c i s.spec.placement).1 place,
        (check_len_iff c i s.spec.len).1 len,
        (check_iov_count_iff c (length s.src)).1 count,
      )
      (check_slots_complete c (i + 1) ss a)

-- What the check of a put accepts: a well-formed put that the backend supports, in its retention,
-- the number of its slots, and each slot's placement, length and number of segments.
abbrev pub CanPut : Capability → OpPut → Type 0
CanPut c op =
    ((op.slots ≢ []) × All Fills op.slots)
    × CanRetain c op.retention
    × Within c.max_slots (length op.slots)
    × All (CanTake c) op.slots

-- The store hands a put to the backend exactly when it is well formed (it has slots, and every
-- slot's source list is sound and sums to the length of the slot) and within every capability and
-- limit of the backend: explicit retention, the number of slots, and for each slot strict and each
-- placement, its length, and the number of its segments.
pub check_put-ok_iff : (c : Capability) (op : OpPut) → (check_put c op ≡ ok tt) ↔ CanPut c op
unfolding check_put
check_put-ok_iff c op = (
  λ h.
      let (_, valid, h1) = >>=-eq-ok (validate_put op) _ h in
      let (_, retain, h2) = >>=-eq-ok (check_retention c op.retention) _ h1 in
      let (_, count, h3) = >>=-eq-ok (check_slot_count c (length op.slots)) _ h2 in
      (
        (validate_put-ok_iff op).0 valid,
        (check_retention_iff c op.retention).0 retain,
        (check_slot_count_iff c (length op.slots)).0 count,
        check_slots_sound c 0 op.slots h3,
      ),
  λ h.
      rw
        (
          (validate_put-ok_iff op).1 h.0,
          (check_retention_iff c op.retention).1 h.1,
          (check_slot_count_iff c (length op.slots)).1 h.2,
        )
        (check_slots_complete c 0 op.slots h.3),
)
