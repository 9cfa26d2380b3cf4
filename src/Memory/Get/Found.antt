-- ===== src/Memory/Get/Found.antt =====
-- The slot and the replica that a read finds, and its range.
use pegastore.Prelude.{
  false, u64_mod, ◌<◌, subst, ℕ, zero, suc, ◌+◌, ◌≤◌, ◌≡◌, refl, ◌⊎◌, true, none, some, List, [],
  ◌∷◌, ◌++◌, arith, All, get_elem?,
}
use pegastore.Prelude.Order.{bytes_ord}
use pegastore.Core.Types.{Device, SlotSpec}
use pegastore.Core.Region.{Iov}
use pegastore.Core.Ops.Validation.{total_len, IsGather}
use pegastore.Memory.State.{Slot, Inner, ReplicaEntry, data_len}
use pegastore.Memory.Sound.{IsAligned}
use pegastore.Memory.Get.Choice.{nearest-IsFirstNearest}
use pegastore.Memory.Get.{nearest, is_in_range}

pub IsAligned-get_elem? :
    (ss : List Slot) (ps : List SlotSpec) (i : ℕ) {s : Slot} {p : SlotSpec}
    → IsAligned ss ps
    → get_elem? ss i ≡ some s
    → get_elem? ps i ≡ some p
    → All (λ r. data_len r.bytes ≡ p.len) s.replicas
IsAligned-get_elem? [] ps i a h k = absurd (ground arith)
IsAligned-get_elem? (s ∷ ss) [] i a h k = absurd a
IsAligned-get_elem? (s ∷ ss) (p ∷ ps) zero {s = t} {p = q} a h k =
    let e : s ≡ t = cc in
    let e' : p ≡ q = cc in
    subst (λ x. All (λ r. data_len r.bytes ≡ x.len) t.replicas) e'
      (subst (λ x. All (λ r. data_len r.bytes ≡ p.len) x.replicas) e a.0)
IsAligned-get_elem? (s ∷ ss) (p ∷ ps) (suc i) a h k = IsAligned-get_elem? ss ps i a.1 h k

pub IsGather-total : (vs : List Iov) (d : Device) (n : ℕ) → IsGather vs d n → n ≡ total_len vs
IsGather-total [] d n g = absurd g
IsGather-total (v ∷ vs) d n g = g.2

pub out_of_range :
    (offset n len : ℕ)
    → is_in_range offset n len ≡ false
    → (len < offset + n) ⊎ (u64_mod ≤ offset + n)
unfolding is_in_range
out_of_range offset n len h = ground arith

pub nearest-none :
    (inner : Inner) (d : Device) (rs : List ReplicaEntry) → nearest inner d rs ≡ none → rs ≡ []
unfolding nearest
nearest-none inner d [] h = refl
nearest-none inner d (r ∷ rs) h = absurd (ground arith)

pub in_range_le : (offset n len : ℕ) → is_in_range offset n len ≡ true → offset + n ≤ len
unfolding is_in_range
in_range_le offset n len h = ground arith

All-middle :
    (P : ReplicaEntry → Type 0) (xs ys : List ReplicaEntry) {r : ReplicaEntry}
    → All P (xs ++ r ∷ ys)
    → P r
All-middle P [] ys a = a.0
All-middle P (x ∷ xs) ys a = All-middle P xs ys a.1

pub nearest-All :
    (P : ReplicaEntry → Type 0) (inner : Inner) (d : Device) (rs : List ReplicaEntry)
    (r : ReplicaEntry)
    → nearest inner d rs ≡ some r
    → All P rs
    → P r
nearest-All P inner d rs r h a =
    let f = nearest-IsFirstNearest inner d rs r h in
    All-middle P f.before f.after (subst (All P) f.split a)
