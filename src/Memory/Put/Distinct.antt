-- ===== src/Memory/Put/Distinct.antt =====
-- Targets on distinct devices, and what they owe.
use pegastore.Prelude.{
  ℕ, ◌+◌, ◌≤◌, ◌≡◌, refl, ◌≢◌, Bool, false, some, List, [], ◌∷◌, arith, All, length, if_pos, if_neg,
  map, subst,
}
use pegastore.Core.Types.{Device, dec_device, Placement, strict, prefer, anywhere}
use pegastore.Memory.State.{State, used_on}
use pegastore.Memory.Room.{capacity_at, HasRoom}
use pegastore.Memory.Place.{candidates, is_each}
use pegastore.Memory.Put.Targets.{Sub, nothing, take, skip, IsOpen}
use pegastore.Memory.Put.Debt.{debt}

-- No device is listed twice.
abbrev pub NoRepeat : List Device → Type 0
NoRepeat [] = Unit {0}
NoRepeat (d ∷ ds) = All (λ e. e ≢ d) ds × NoRepeat ds

-- `Each` lists no device twice.
abbrev pub IsPlain : Placement → Type 0
IsPlain (Placement.each ds) = NoRepeat ds
IsPlain _ = Unit {0}

abbrev pub AreDistinct : List (Device × Bool) → Type 0
AreDistinct [] = Unit {0}
AreDistinct (t ∷ ts) = All (λ u. u.0 ≢ t.0) ts × AreDistinct ts

-- Every pool with a bound is within it.
abbrev pub IsBounded : State → Type 0
IsBounded st = (d : Device) (c : ℕ) → capacity_at st d ≡ some (some c) → used_on st d ≤ c

All-Sub :
    (P : Device × Bool → Type 0) {ts cs : List (Device × Bool)} → Sub ts cs → All P cs → All P ts
All-Sub P nothing a = tt
All-Sub P (take c s) a = (a.0, All-Sub P s a.1)
All-Sub P (skip c s) a = All-Sub P s a.1

pub Sub-AreDistinct : {ts cs : List (Device × Bool)} → Sub ts cs → AreDistinct cs → AreDistinct ts
Sub-AreDistinct nothing d = tt
Sub-AreDistinct (take c s) d = (All-Sub (λ u. u.0 ≢ c.0) s d.0, Sub-AreDistinct s d.1)
Sub-AreDistinct (skip c s) d = Sub-AreDistinct s d.1

All-map_flag :
    (d : Device) (ds : List Device)
    → All (λ e. e ≢ d) ds
    → All {A = Device × Bool} (λ u. u.0 ≢ d) (map (λ x. (x, false)) ds)
All-map_flag d [] a = tt
All-map_flag d (e ∷ ds) a = (a.0, All-map_flag d ds a.1)

NoRepeat-AreDistinct : (ds : List Device) → NoRepeat ds → AreDistinct (map (λ d. (d, false)) ds)
NoRepeat-AreDistinct [] n = tt
NoRepeat-AreDistinct (d ∷ ds) n = (All-map_flag d ds n.0, NoRepeat-AreDistinct ds n.1)

short-AreDistinct : (ts : List (Device × Bool)) → length ts ≤ 1 → AreDistinct ts
short-AreDistinct [] h = tt
short-AreDistinct (t ∷ []) h = (tt, tt)
short-AreDistinct (t ∷ u ∷ ts) h = absurd (omega arith)

-- The targets that a placement comes to are distinct.
pub targets-AreDistinct :
    (order : List Device) (pl : Placement) (ts : List (Device × Bool))
    → IsPlain pl
    → Sub ts (candidates order pl)
    → (is_each pl ≡ false → length ts ≤ 1)
    → AreDistinct ts
unfolding candidates is_each
targets-AreDistinct order (Placement.each ds) ts plain sub short =
    Sub-AreDistinct sub (NoRepeat-AreDistinct ds plain)
targets-AreDistinct order (strict d) ts plain sub short = short-AreDistinct ts (short refl)
targets-AreDistinct order (prefer d) ts plain sub short = short-AreDistinct ts (short refl)
targets-AreDistinct order anywhere ts plain sub short = short-AreDistinct ts (short refl)

debt_zero :
    (d : Device) (len : ℕ) (ts : List (Device × Bool)) → All (λ u. u.0 ≢ d) ts → debt d len ts ≡ 0
unfolding debt
debt_zero d len [] a = refl
debt_zero d len ((e, m) ∷ ts) a = ground (arith, debt_zero d len ts a.1)

-- Distinct targets with room for the bytes can all be charged.
pub debt-fits :
    (st : State) (len : ℕ) (ts : List (Device × Bool))
    → AreDistinct ts
    → All (IsOpen st len) ts
    → IsBounded st
    → (d : Device) (c : ℕ) → capacity_at st d ≡ some (some c)
    → used_on st d + debt d len ts ≤ c
unfolding debt
debt-fits st len [] dist opens b d c h = omega (arith, b d c h)
debt-fits st len ((e, m) ∷ ts) dist opens b d c h = elim (dec_device e d) [
  | yes same ↦
      rw (if_pos _ same, debt_zero d len ts (subst (λ x. All (λ u. u.0 ≢ x) ts) same dist.0))
        (omega (arith, subst (λ x. HasRoom st x len) same opens.0.1 c h))
  | no ne ↦ rw (if_neg _ ne) (omega (arith, debt-fits st len ts dist.1 opens.1 b d c h))
]
