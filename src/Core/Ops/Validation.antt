-- ===== src/Core/Ops/Validation.antt =====
-- What the check of an iov list and of a put accepts.
use pegastore.Prelude.{
  ℕ, ◌+◌, ◌≤◌, ◌<◌, ◌≡◌, refl, ◌↔◌, ◌≢◌, Option, none, some, List, [], ◌∷◌, arith, All, u64_mod, ap,
  subst, ◌∙◌,
}
use pegastore.Core.Types.{Device}
use pegastore.Core.Error.{
  Error, Result, ok, err, >>=-eq-ok, map_err, ok_of_map_err, new, invalid_input,
}
use pegastore.Core.Region.{Iov, in_bounds}
use pegastore.Core.Ops.{
  check_iov, check_iovs, check_total, validate_iovs, PutSlot, OpPut, validate_put, validate_slots,
}

abbrev pub total_len : List Iov → ℕ
total_len [] = 0
total_len (v ∷ vs) = v.len + total_len vs

-- The segment lies inside its region, on the device, and its end is a 64-bit number.
abbrev pub IsInside : Device → Iov → Type 0
IsInside d v =
    (v.region.device ≡ d) × (v.offset + v.len ≤ v.region.len) × (v.offset + v.len < u64_mod)

-- The whole list: every segment inside, on the device of the first, and the total a 64-bit number.
abbrev pub IsGather : List Iov → Device → ℕ → Type 0
IsGather [] d total = ⊥
IsGather (v ∷ vs) d total =
    (d ≡ v.region.device)
    × All (IsInside v.region.device) (v ∷ vs)
    × (total ≡ total_len (v ∷ vs))
    × (total < u64_mod)

check_iov_sound :
    (d : Device) (i t r : ℕ) (v : Iov)
    → check_iov d i t v ≡ ok r
    → IsInside d v × (r ≡ t + v.len) × (r < u64_mod)
unfolding check_iov in_bounds
check_iov_sound d i t r v h = ground arith

check_iov_complete :
    (d : Device) (i t : ℕ) (v : Iov)
    → IsInside d v
    → t + v.len < u64_mod
    → check_iov d i t v ≡ ok (t + v.len)
unfolding check_iov in_bounds
check_iov_complete d i t v h b = ground arith

check_iovs_sound :
    (d : Device) (i t r : ℕ) (vs : List Iov)
    → t < u64_mod
    → check_iovs d i t vs ≡ ok r
    → All (IsInside d) vs × (r ≡ t + total_len vs) × (r < u64_mod)
unfolding check_iovs
check_iovs_sound d i t r [] b h = (tt, ground arith, ground arith)
check_iovs_sound d i t r (v ∷ vs) b h =
    let (a, e, k) = >>=-eq-ok (check_iov d i t v) _ h in
    let (inside, sum, small) = check_iov_sound d i t a v e in
    let (rest, total, bound) = check_iovs_sound d (i + 1) a r vs small k in
    ((inside, rest), omega arith, bound)

check_iovs_complete :
    (d : Device) (i t : ℕ) (vs : List Iov)
    → All (IsInside d) vs
    → t + total_len vs < u64_mod
    → check_iovs d i t vs ≡ ok (t + total_len vs)
unfolding check_iovs
check_iovs_complete d i t [] a b = ap ok (omega arith)
check_iovs_complete d i t (v ∷ vs) a b =
    rw
      (
        check_iov_complete d i t v a.0 (omega arith),
        check_iovs_complete d (i + 1) (t + v.len) vs a.1 (omega arith),
      )
      (ap ok (omega arith))

check_total-none : (t : ℕ) → check_total none t ≡ ok tt
unfolding check_total
check_total-none t = refl

abbrev pub Expects : Option ℕ → ℕ → Type 0
Expects none total = Unit {0}
Expects (some n) total = total ≡ n

check_total_sound : (n : Option ℕ) (t : ℕ) {u : Unit {0}} → check_total n t ≡ ok u → Expects n t
unfolding check_total
check_total_sound none t h = tt
check_total_sound (some n) t h = ground arith

check_total_complete : (n : Option ℕ) (t : ℕ) → Expects n t → check_total n t ≡ ok tt
unfolding check_total
check_total_complete none t h = refl
check_total_complete (some n) t h = ground arith

pub validate_iovs_sound :
    (vs : List Iov) (n : Option ℕ) (d : Device) (t : ℕ)
    → validate_iovs vs n ≡ ok (d, t)
    → IsGather vs d t × Expects n t
unfolding validate_iovs
validate_iovs_sound [] n d t h = cc
validate_iovs_sound (v ∷ vs) n d t h =
    let (a, e, k) = >>=-eq-ok (check_iovs v.region.device 0 0 (v ∷ vs)) _ h in
    let (u, e', k') = >>=-eq-ok (check_total n a) _ k in
    let (inside, sum, bound) = check_iovs_sound v.region.device 0 0 a (v ∷ vs) (omega arith) e in
    let same : a ≡ t = ground arith in
    (
      (ground arith, inside, omega arith, omega arith),
      subst (Expects n) same (check_total_sound n a e'),
    )

pub validate_iovs_complete :
    (vs : List Iov) (n : Option ℕ) (d : Device) (t : ℕ)
    → IsGather vs d t
    → Expects n t
    → validate_iovs vs n ≡ ok (d, t)
unfolding validate_iovs
validate_iovs_complete [] n d t g h = absurd g
validate_iovs_complete (v ∷ vs) n d t (dev, inside, sum, bound) h =
    let total : check_iovs v.region.device 0 0 (v ∷ vs) ≡ ok t =
      check_iovs_complete v.region.device 0 0 (v ∷ vs) inside (omega arith) ∙ ap ok (omega arith) in
    rw (total, check_total_complete n t h, dev)

-- An iov list is accepted, with its device and total, exactly when it is not empty, every segment
-- lies within its region on the device of the first one, the total and every end fit 64 bits, and
-- the total is the expected one where one is given.
pub validate_iovs-ok_iff :
    (vs : List Iov) (n : Option ℕ) (d : Device) (t : ℕ)
    → (validate_iovs vs n ≡ ok (d, t)) ↔ (IsGather vs d t × Expects n t)
validate_iovs-ok_iff vs n d t =
    (validate_iovs_sound vs n d t, λ h. validate_iovs_complete vs n d t h.0 h.1)

-- What `OpPut::validate` promises of each slot.
abbrev pub Fills : PutSlot → Type 0
Fills s = (d : Device) × IsGather s.src d s.spec.len

Fills-of_ok :
    (s : PutSlot) (f : Error → Error) {p : Device × ℕ}
    → map_err f (validate_iovs s.src (some s.spec.len)) ≡ ok p
    → Fills s
Fills-of_ok s f {p} h =
    let (g, e) = validate_iovs_sound s.src (some s.spec.len) p.0 p.1 (ok_of_map_err f _ h) in
    (p.0, subst (IsGather s.src p.0) e g)

validate_slots_sound :
    (i : ℕ) (ss : List PutSlot) {u : Unit {0}} → validate_slots i ss ≡ ok u → All Fills ss
unfolding validate_slots
validate_slots_sound i [] h = tt
validate_slots_sound i (s ∷ ss) h =
    let (p, e, k) = >>=-eq-ok (map_err _ (validate_iovs s.src (some s.spec.len))) _ h in
    (Fills-of_ok s _ e, validate_slots_sound (i + 1) ss k)

validate_slots_complete : (i : ℕ) (ss : List PutSlot) → All Fills ss → validate_slots i ss ≡ ok tt
unfolding validate_slots
validate_slots_complete i [] a = refl
validate_slots_complete i (s ∷ ss) ((d, g), a) =
    rw (validate_iovs_complete s.src (some s.spec.len) d s.spec.len g refl)
      (validate_slots_complete (i + 1) ss a)

-- A put passes the check exactly when it has a slot and every slot's source list is sound and sums
-- to the length of the slot.
pub validate_put-ok_iff :
    (op : OpPut) → (validate_put op ≡ ok tt) ↔ ((op.slots ≢ []) × All Fills op.slots)
unfolding validate_put
validate_put-ok_iff op = go op.slots
  where
    go :
        (ss : List PutSlot)
        → (elim ss as (λ _. Result (Unit {0})) [
          | [] ↦ err (new invalid_input "object needs at least one slot")
          | s ∷ rest ↦ validate_slots 0 (s ∷ rest)
        ]
            ≡ ok tt)
          ↔ ((ss ≢ []) × All Fills ss)
    go [] = (λ h. cc, λ h. absurd (h.0 refl))
    go (s ∷ ss) = (
      λ h. (λ e. cc, validate_slots_sound 0 (s ∷ ss) h),
      λ h. validate_slots_complete 0 (s ∷ ss) h.1,
    )
