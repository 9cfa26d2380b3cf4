-- ===== src/Rdma/Numa.antt =====
-- crates/pegastore-rdma/src/numa.rs: NUMA nodes, and the queries of a detected topology.
pub mod Nodes
use pegastore.Prelude.{
  ℕ, Bool, true, false, not, Option, none, some, List, [], ◌∷◌, ltb, leb, ◌==◌, if◌then◌else◌,
  length,
}

-- `NumaNode::UNKNOWN`.
abbrev pub unknown : ℕ
unknown = 4294967295

unfoldable pub is_unknown : ℕ → Bool
is_unknown node = node == unknown

unfoldable pub is_valid : ℕ → Bool
is_valid node = not (node == unknown)

-- The node of each GPU, as the entries of the map, and the nodes of the system.
pub record NumaTopology : Type 0 where
  pub gpu_numa_map : List (ℕ × ℕ)
  pub numa_nodes : List ℕ

find_gpu : ℕ → List (ℕ × ℕ) → ℕ
find_gpu device_id [] = unknown
find_gpu device_id ((d, node) ∷ gpus) =
    let rest = find_gpu device_id gpus in if d == device_id then node else rest

unfoldable pub numa_for_gpu : NumaTopology → ℕ → ℕ
unfolding find_gpu
numa_for_gpu topo device_id = find_gpu device_id topo.gpu_numa_map

valid_nodes : List (ℕ × ℕ) → List ℕ
unfolding is_valid
valid_nodes [] = []
valid_nodes ((d, node) ∷ gpus) =
    let rest = valid_nodes gpus in if is_valid node then node ∷ rest else rest

insert_node : ℕ → List ℕ → List ℕ
insert_node n [] = n ∷ []
insert_node n (m ∷ ms) = let rest = insert_node n ms in if leb n m then n ∷ m ∷ ms else m ∷ rest

sort_unstable : List ℕ → List ℕ
sort_unstable [] = []
sort_unstable (n ∷ ns) = insert_node n (sort_unstable ns)

-- Of equal neighbours the first stays.
dedup_from : ℕ → List ℕ → List ℕ
dedup_from n [] = n ∷ []
dedup_from n (m ∷ ms) =
    let same = dedup_from n ms in let next = dedup_from m ms in if n == m then same else n ∷ next

dedup : List ℕ → List ℕ
dedup [] = []
dedup (n ∷ ns) = dedup_from n ns

unfoldable pub gpu_numa_nodes : NumaTopology → List ℕ
unfolding valid_nodes sort_unstable insert_node dedup dedup_from
gpu_numa_nodes topo = dedup (sort_unstable (valid_nodes topo.gpu_numa_map))

unfoldable pub num_nodes : NumaTopology → ℕ
num_nodes topo = length topo.numa_nodes

unfoldable pub is_multi_numa : NumaTopology → Bool
is_multi_numa topo = ltb 1 (length topo.numa_nodes)
