-- ===== src/Rdma/Numa/Nodes.antt =====
-- The nodes that have a GPU.
use pegastore.Prelude.{ℕ, ◌<◌, ◌≤◌, ◌≢◌, ◌≡◌, ◌⊎◌, ◌↔◌, List, [], ◌∷◌, All, arith}
use pegastore.Rdma.Numa.{
  NumaTopology, unknown, is_valid, valid_nodes, insert_node, sort_unstable, dedup_from, dedup,
  gpu_numa_nodes,
}

abbrev IsRising : List ℕ → Type 0
IsRising [] = Unit {0}
IsRising (n ∷ ns) = All (λ m. n ≤ m) ns × IsRising ns

-- Ascending, with no node twice.
abbrev pub IsStrict : List ℕ → Type 0
IsStrict [] = Unit {0}
IsStrict (n ∷ ns) = All (λ m. n < m) ns × IsStrict ns

All-le : (n m : ℕ) (ns : List ℕ) → n ≤ m → All (λ x. m ≤ x) ns → All (λ x. n ≤ x) ns
All-le n m [] h a = tt
All-le n m (x ∷ ns) h a = (omega arith, All-le n m ns h a.1)

All-insert_node : (P : ℕ → Type 0) (n : ℕ) (ns : List ℕ) → P n → All P ns → All P (insert_node n ns)
unfolding insert_node
All-insert_node P n [] p a = (p, tt)
All-insert_node P n (m ∷ ms) p a = ground (arith, All-insert_node P n ms p a.1)

insert_node-IsRising : (n : ℕ) (ns : List ℕ) → IsRising ns → IsRising (insert_node n ns)
unfolding insert_node
insert_node-IsRising n [] r = (tt, tt)
insert_node-IsRising n (m ∷ ms) r =
    ground (arith, All-le n m ms, All-insert_node (λ x. m ≤ x) n ms, insert_node-IsRising n ms r.1)

sort_unstable-IsRising : (ns : List ℕ) → IsRising (sort_unstable ns)
unfolding sort_unstable
sort_unstable-IsRising [] = tt
sort_unstable-IsRising (n ∷ ns) =
    insert_node-IsRising n (sort_unstable ns) (sort_unstable-IsRising ns)

All-dedup_from : (P : ℕ → Type 0) (n : ℕ) (ns : List ℕ) → P n → All P ns → All P (dedup_from n ns)
unfolding dedup_from
All-dedup_from P n [] p a = (p, tt)
All-dedup_from P n (m ∷ ms) p a =
    ground (arith, All-dedup_from P n ms p a.1, All-dedup_from P m ms a.0 a.1)

All-lt : (n m : ℕ) (ns : List ℕ) → n < m → All (λ x. m ≤ x) ns → All (λ x. n < x) ns
All-lt n m [] h a = tt
All-lt n m (x ∷ ns) h a = (omega arith, All-lt n m ns h a.1)

dedup_from-IsStrict :
    (n : ℕ) (ns : List ℕ) → All (λ m. n ≤ m) ns → IsRising ns → IsStrict (dedup_from n ns)
unfolding dedup_from
dedup_from-IsStrict n [] a r = (tt, tt)
dedup_from-IsStrict n (m ∷ ms) a r = ground (
  arith,
  dedup_from-IsStrict n ms a.1 r.1,
  dedup_from-IsStrict m ms r.0 r.1,
  All-lt n m ms,
  All-dedup_from (λ x. n < x) m ms,
)

gpu_numa_nodes-IsStrict : (topo : NumaTopology) → IsStrict (gpu_numa_nodes topo)
unfolding gpu_numa_nodes
gpu_numa_nodes-IsStrict topo =
    let ns = sort_unstable (valid_nodes topo.gpu_numa_map) in
    go ns (sort_unstable-IsRising (valid_nodes topo.gpu_numa_map))
  where
    go : (ns : List ℕ) → IsRising ns → IsStrict (dedup ns)
    go [] r = tt
    go (n ∷ ns) r = dedup_from-IsStrict n ns r.0 r.1

-- The node stands in the list.
abbrev pub IsListed : ℕ → List ℕ → Type 0
IsListed n [] = ⊥
IsListed n (m ∷ ms) = (n ≡ m) ⊎ IsListed n ms

-- Some GPU of the map is on the node.
abbrev pub HasGpu : ℕ → List (ℕ × ℕ) → Type 0
HasGpu n [] = ⊥
HasGpu n ((d, m) ∷ gpus) = (n ≡ m) ⊎ HasGpu n gpus

valid_nodes-Listed :
    (n : ℕ) (gpus : List (ℕ × ℕ)) → IsListed n (valid_nodes gpus) ↔ ((n ≢ unknown) × HasGpu n gpus)
unfolding valid_nodes is_valid
valid_nodes-Listed n [] = (λ h. absurd h, λ h. h.1)
valid_nodes-Listed n ((d, m) ∷ gpus) = ground (arith, valid_nodes-Listed n gpus)

insert_node-Listed :
    (n x : ℕ) (ns : List ℕ) → IsListed n (insert_node x ns) ↔ ((n ≡ x) ⊎ IsListed n ns)
unfolding insert_node
insert_node-Listed n x [] = (λ h. h, λ h. h)
insert_node-Listed n x (m ∷ ms) = ground (arith, insert_node-Listed n x ms)

sort_unstable-Listed : (n : ℕ) (ns : List ℕ) → IsListed n (sort_unstable ns) ↔ IsListed n ns
unfolding sort_unstable
sort_unstable-Listed n [] = (λ h. h, λ h. h)
sort_unstable-Listed n (m ∷ ms) =
    ground (arith, insert_node-Listed n m (sort_unstable ms), sort_unstable-Listed n ms)

dedup_from-Listed : (n m : ℕ) (ns : List ℕ) → IsListed n (dedup_from m ns) ↔ IsListed n (m ∷ ns)
unfolding dedup_from
dedup_from-Listed n m [] = (λ h. h, λ h. h)
dedup_from-Listed n m (x ∷ ns) = ground (arith, dedup_from-Listed n m ns, dedup_from-Listed n x ns)

dedup-Listed : (n : ℕ) (ns : List ℕ) → IsListed n (dedup ns) ↔ IsListed n ns
unfolding dedup
dedup-Listed n [] = (λ h. h, λ h. h)
dedup-Listed n (m ∷ ns) = dedup_from-Listed n m ns

abbrev pub Lists : NumaTopology → List ℕ → Type 0
Lists topo ns =
    IsStrict ns × ((n : ℕ) → IsListed n ns ↔ ((n ≢ unknown) × HasGpu n topo.gpu_numa_map))

-- A node is listed exactly when it is a known node and some GPU of the map is on it; the list is
-- strictly ascending, so no node is in it twice.
pub gpu_numa_nodes-Lists : (topo : NumaTopology) → Lists topo (gpu_numa_nodes topo)
unfolding gpu_numa_nodes
gpu_numa_nodes-Lists topo = (
  gpu_numa_nodes-IsStrict topo,
  λ n.
      let a = dedup-Listed n (sort_unstable (valid_nodes topo.gpu_numa_map)) in
      let b = sort_unstable-Listed n (valid_nodes topo.gpu_numa_map) in
      let c = valid_nodes-Listed n topo.gpu_numa_map in
      (λ h. c.0 (b.0 (a.0 h)), λ h. a.1 (b.1 (c.1 h))),
)
