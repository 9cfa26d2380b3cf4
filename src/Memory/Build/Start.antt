-- ===== src/Memory/Build/Start.antt =====
-- The state that the builder hands over.
use pegastore.Prelude.{
  ℕ, ◌≤◌, ◌≡◌, refl, sym, ap, Option, none, some, List, [], ◌∷◌, All, arith, inl, inr, update_cases,
  subst,
}
use pegastore.Prelude.Ordered.{total}
use pegastore.Core.Types.{Key, Device, dec_device}
use pegastore.Memory.State.{Pool, used_on}
use pegastore.Memory.Sound.{IsSound}
use pegastore.Memory.Room.{capacity_at}
use pegastore.Memory.Put.Distinct.{IsBounded}
use pegastore.Memory.Put.Total.{CanReserve}
use pegastore.Memory.Build.{MemoryBuilder, build, collect_pools, fresh_pool, or_default}

AreFresh : (Device → Option Pool) → Type 0
AreFresh pools = (d : Device) (p : Pool) → pools d ≡ some p → (p.used ≡ 0) × (p.fifo ≡ [])

collect_pools-AreFresh :
    (ds : List (Device × Option ℕ)) (pools : Device → Option Pool)
    → AreFresh pools
    → AreFresh (collect_pools ds pools)
unfolding collect_pools AreFresh fresh_pool
collect_pools-AreFresh [] pools f = f
collect_pools-AreFresh ((c, capacity) ∷ ds) pools f = collect_pools-AreFresh ds _ λ d p h.
    elim (update_cases dec_device pools c d (fresh_pool capacity) h) [
      | inl (same, is) ↦ (ap (λ (y : Pool). y.used) (sym is), ap (λ (y : Pool). y.fifo) (sym is))
      | inr (ne, old) ↦ f d p old
    ]

empty-IsBounded :
    (pools : Device → Option Pool)
    → AreFresh pools
    → IsBounded (record { objects = []; pools = pools })
unfolding AreFresh used_on capacity_at
empty-IsBounded pools f d c h = go (pools d) (f d) h
  where
    go :
        (o : Option Pool)
        → ((p : Pool) → o ≡ some p → (p.used ≡ 0) × (p.fifo ≡ []))
        → elim o as (λ _. Option (Option ℕ)) [ none ↦ none | some p ↦ some p.capacity ]
          ≡ some (some c)
        → elim o as (λ _. ℕ) [ none ↦ 0 | some p ↦ p.used ] ≤ c
    go none f h = omega arith
    go (some p) f h = omega (arith, (f p refl).0)

-- Whatever devices a builder has been given, the state that it builds is sound, every pool is
-- within its capacity, and any key can be reserved with any number of slots.
pub build-IsSound :
    (b : MemoryBuilder)
    → IsSound (build b).1
      × IsBounded (build b).1
      × ((kb : Key) (n : ℕ) → CanReserve kb n (build b).1)
unfolding build AreFresh total
build-IsSound b =
    let fresh =
      collect_pools-AreFresh (or_default b.devices) (λ _. none) (λ d p h. absurd (ground arith)) in
    (
      record {
        sorted = tt;
        fit = tt;
        accounted = λ d p h. (fresh d p h).0;
        queued = λ d p h. subst (All _) (sym (fresh d p h).1) tt;
      },
      empty-IsBounded _ fresh,
      λ kb n gone d p h. subst (All _) (sym (fresh d p h).1) tt,
    )
