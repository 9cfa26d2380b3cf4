-- ===== src/Cuda/Topology.antt =====
-- crates/pegastore-cuda/src/topology.rs: the cost between two devices of a node.
use pegastore.Prelude.{
  ap, sym, ◌∙◌, ℕ, ◌≡◌, Option, none, some, List, ◌==◌, if◌then◌else◌, ite, arith, ◌↔◌, sym,
}
use pegastore.Core.Types.{Device, cpu, gpu, dec_device}
use pegastore.Memory.State as M

pub record Topology : Type 0 where
  pub numa_nodes : List ℕ
  pub cpus_by_numa : ℕ → Option (List ℕ)
  pub gpu_numa : ℕ → Option ℕ

unfoldable pub numa_of_gpu : Topology → ℕ → Option ℕ
numa_of_gpu topo index = topo.gpu_numa index

affinity : Topology → ℕ → ℕ → ℕ
unfolding numa_of_gpu
affinity topo numa index = elim (numa_of_gpu topo index) [
  | none ↦ 3
  | some n ↦ if n == numa then 2 else 4
]

cost : Topology → Device → Device → ℕ
cost topo (gpu i) (gpu j) = 1
cost topo (cpu numa) (gpu index) = affinity topo numa index
cost topo (gpu index) (cpu numa) = affinity topo numa index
cost topo (cpu m) (cpu n) = 3

-- `Topology::distance`.
unfoldable pub distance : Topology → Device → Device → ℕ
unfolding affinity cost
distance topo a b = ite (dec_device a b) 0 (cost topo a b)

-- The cost by the node of a GPU.
abbrev by_node : ℕ → Option ℕ → ℕ
by_node numa none = 3
by_node numa (some n) = if n == numa then 2 else 4

topology_at :
    (topo : Topology) (m j : ℕ)
    → (distance topo (cpu m) (gpu j) ≡ by_node m (topo.gpu_numa j))
      × (distance topo (gpu j) (cpu m) ≡ by_node m (topo.gpu_numa j))
unfolding distance cost affinity numa_of_gpu
topology_at topo m j = ground arith

memory_at :
    (inner : M.Inner) (m j : ℕ)
    → (M.distance inner (cpu m) (gpu j) ≡ by_node m (inner.gpu_numa j))
      × (M.distance inner (gpu j) (cpu m) ≡ by_node m (inner.gpu_numa j))
unfolding M.distance
memory_at inner m j = ground arith

-- The distance of the topology is the one that the reference backend uses, whenever both know the
-- same node of every GPU, it is the same in both directions, and it is 0 only from a device to
-- itself.
pub distance_lem :
    (topo : Topology) (inner : M.Inner) (a b : Device)
    → ((index : ℕ) → inner.gpu_numa index ≡ topo.gpu_numa index)
    → (distance topo a b ≡ M.distance inner a b)
      × (distance topo a b ≡ distance topo b a)
      × ((distance topo a b ≡ 0) ↔ (a ≡ b))
unfolding distance M.distance cost affinity numa_of_gpu
distance_lem topo inner (cpu m) (cpu n) h = ground arith
distance_lem topo inner (cpu m) (gpu j) h = (
  (topology_at topo m j).0 ∙ ap (by_node m) (sym (h j)) ∙ sym (memory_at inner m j).0,
  ground arith,
  ground arith,
)
distance_lem topo inner (gpu i) (cpu n) h = (
  (topology_at topo n i).1 ∙ ap (by_node n) (sym (h i)) ∙ sym (memory_at inner n i).1,
  ground arith,
  ground arith,
)
distance_lem topo inner (gpu i) (gpu j) h = ground arith
