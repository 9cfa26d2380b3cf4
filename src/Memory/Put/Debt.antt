-- ===== src/Memory/Put/Debt.antt =====
-- The replicas of a slot are pushed first and charged to their pools afterwards: between the two,
-- the pools owe the bytes of the targets that are not charged yet.
use pegastore.Prelude.{
  ℕ, ◌+◌, ◌≡◌, refl, ◌∙◌, Bool, some, List, [], ◌∷◌, ◌++◌, arith, All, All-append, Run, done, inl,
  inr, length, ite, update, update_cases, subst,
}
use pegastore.Prelude.Order.{bytes_ord}
use pegastore.Prelude.Sorted.{IsSorted}
use pegastore.Core.Types.{Key, Device, dec_device}
use pegastore.Memory.State.{Pool, State, used_on, charge}
use pegastore.Memory.Evict.{freed, replica_bytes}
use pegastore.Memory.Measure.{owned_on}
use pegastore.Memory.Sound.{IsSound, IsInRange, All-map, AreFit}
use pegastore.Memory.Room.{capacity_at}
use pegastore.Memory.Put.{new_replicas, charge_all}
use pegastore.Memory.Put.Targets.{HasPool, HasPool-pool}

-- The bytes that the targets owe a device.
unfoldable pub debt : Device → ℕ → List (Device × Bool) → ℕ
debt d len [] = 0
debt d len ((e, m) ∷ ts) = ite (dec_device e d) len 0 + debt d len ts

pub freed-new_replicas :
    (d : Device) (bytes : List ℕ) (ts : List (Device × Bool))
    → freed d (new_replicas bytes ts) ≡ debt d (length bytes) ts
unfolding freed new_replicas debt replica_bytes
freed-new_replicas d bytes [] = refl
freed-new_replicas d bytes ((e, m) ∷ ts) = ground (arith, freed-new_replicas d bytes ts)

pub record IsOwing (ts : List (Device × Bool)) (len : ℕ) (st : State) : Type 0 where
  pub sorted : IsSorted st.objects
  pub fit : AreFit st.objects
  pub owing :
      (d : Device) (p : Pool) → st.pools d ≡ some p → p.used + debt d len ts ≡ owned_on d st.objects
  pub queued : (d : Device) (p : Pool) → st.pools d ≡ some p → All (IsInRange st.objects) p.fifo

pub IsSound-of_IsOwing : (len : ℕ) (st : State) → IsOwing [] len st → IsSound st
unfolding debt
IsSound-of_IsOwing len st v = record {
  sorted = v.sorted;
  fit = v.fit;
  accounted = λ d p h. omega (arith, v.owing d p h);
  queued = v.queued;
}

module _ (d : Device) (m : Bool) (ts : List (Device × Bool)) (kb : Key) (i len : ℕ) (st : State)
    (p : Pool) (here : st.pools d ≡ some p) where
  charged : State
  charged = record st {
    pools =
        update dec_device st.pools d
          (some (record p { used = p.used + len; fifo = p.fifo ++ (kb, i) ∷ [] }));
  }

  charge-done : charge d kb i len st ≡ done charged
  unfolding charge charged
  charge-done = rw here

  charged-IsOwing :
      IsOwing ((d, m) ∷ ts) len st → IsInRange st.objects (kb, i) → IsOwing ts len charged
  unfolding charged debt
  charged-IsOwing v range = record {
    sorted = v.sorted;
    fit = v.fit;
    owing = λ e q h. elim (update_cases dec_device st.pools d e _ h) [
      | inl (same, is) ↦ ground (arith, v.owing d p here)
      | inr (ne, old) ↦ ground (arith, v.owing e q old)
    ];
    queued = λ e q h. elim (update_cases dec_device st.pools d e _ h) [
      | inl (same, is) ↦
          subst (λ (y : Pool). All (IsInRange st.objects) y.fifo) is
            (All-append _ p.fifo ((kb, i) ∷ []) (v.queued d p here) (range, tt))
      | inr (ne, old) ↦ v.queued e q old
    ];
  }

  charged-capacity : (e : Device) → capacity_at charged e ≡ capacity_at st e
  unfolding charged capacity_at update
  charged-capacity e = ground arith

  charged-used : (e : Device) → used_on charged e ≡ used_on st e + ite (dec_device d e) len 0
  unfolding charged used_on update
  charged-used e = ground arith

-- What charging the targets comes to.
abbrev pub Charges : List (Device × Bool) → ℕ → State → Run State → Type 0
Charges ts len st r =
    (st' : State) × (r ≡ done st')
    × IsSound st'
    × (st'.objects ≡ st.objects)
    × ((d : Device) → capacity_at st' d ≡ capacity_at st d)
    × ((d : Device) → used_on st' d ≡ used_on st d + debt d len ts)

pub charge_all-Charges :
    (ts : List (Device × Bool)) (kb : Key) (i len : ℕ) (st : State)
    → IsOwing ts len st
    → IsInRange st.objects (kb, i)
    → All (λ t. HasPool st t.0) ts
    → Charges ts len st (charge_all ts kb i len st)
unfolding charge_all debt charged
charge_all-Charges [] kb i len st v range pools =
    (st, refl, IsSound-of_IsOwing len st v, refl, λ d. refl, λ d. omega arith)
charge_all-Charges ((d, m) ∷ ts) kb i len st v range (pool, pools) =
    let (p, here) = HasPool-pool st d pool in
    let next = charged d m ts kb i len st p here in
    let capacity = charged-capacity d m ts kb i len st p here in
    let (st', e, sound, objects, shape, used) =
      charge_all-Charges ts kb i len next (charged-IsOwing d m ts kb i len st p here v range) range
        (All-map _ _ ts (λ t h. (h.0, capacity t.0 ∙ h.1)) pools) in
    (
      st',
      rw (charge-done d m ts kb i len st p here) e,
      sound,
      objects,
      λ f. shape f ∙ capacity f,
      λ f. omega (arith, used f, charged-used d m ts kb i len st p here f),
    )
