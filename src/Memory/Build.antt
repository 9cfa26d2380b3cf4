-- ===== src/Memory/Build.antt =====
-- `MemoryBuilder` of services/memory.rs.
pub mod Start
use pegastore.Prelude.{ℕ, Option, none, some, List, [], ◌∷◌, ◌++◌, map, ℕ_discrete, update}
use pegastore.Core.Types.{Device, cpu, dec_device, Capability, all_capabilities}
use pegastore.Memory.State.{Pool, State, Inner}

pub record MemoryBuilder : Type 0 where
  pub node : ℕ
  pub devices : List (Device × Option ℕ)
  pub gpu_numa : ℕ → Option ℕ
  pub capability : Capability

unfoldable pub new_builder : MemoryBuilder
new_builder = record { node = 0; devices = []; gpu_numa = λ _. none; capability = all_capabilities }

unfoldable pub with_node : MemoryBuilder → ℕ → MemoryBuilder
with_node b node = record b { node = node }

-- A pool without a bound.
unfoldable pub with_device : MemoryBuilder → Device → MemoryBuilder
with_device b device = record b { devices = b.devices ++ (device, none) ∷ [] }

unfoldable pub with_device_capacity : MemoryBuilder → Device → ℕ → MemoryBuilder
with_device_capacity b device capacity = record b {
  devices = b.devices ++ (device, some capacity) ∷ [];
}

unfoldable pub gpu_affinity : MemoryBuilder → ℕ → ℕ → MemoryBuilder
gpu_affinity b gpu numa = record b { gpu_numa = update ℕ_discrete b.gpu_numa gpu (some numa) }

unfoldable pub with_capability : MemoryBuilder → Capability → MemoryBuilder
with_capability b capability = record b { capability = capability }

or_default : List (Device × Option ℕ) → List (Device × Option ℕ)
or_default [] = (cpu 0, none) ∷ []
or_default (d ∷ ds) = d ∷ ds

fresh_pool : Option ℕ → Pool
fresh_pool capacity = record { capacity = capacity; used = 0; fifo = [] }

-- Collected in order, so a device that is listed twice has the later capacity.
unfoldable pub collect_pools :
    List (Device × Option ℕ) → (Device → Option Pool) → Device → Option Pool
unfolding fresh_pool
collect_pools [] pools = pools
collect_pools ((d, capacity) ∷ ds) pools =
    collect_pools ds (update dec_device pools d (some (fresh_pool capacity)))

unfoldable pub build : MemoryBuilder → Inner × State
unfolding or_default
build b =
    let devices = or_default b.devices in
    (
      record {
        info = record {
          name = "memory";
          node = b.node;
          devices = map (λ d. d.0) devices;
          capability = b.capability;
        };
        device_order = map (λ d. d.0) devices;
        gpu_numa = b.gpu_numa;
      },
      record { objects = []; pools = collect_pools devices (λ _. none) },
    )
