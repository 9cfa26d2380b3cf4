-- ===== src/Rdma/Nics.antt =====
-- `NicGroup` and `NumaRoundRobin` of crates/pegastore-rdma/src/rc_backend/mod.rs: the choice of a NIC
-- by NUMA node. A runtime keeps here the fields that the choice reads. A counter wraps at 64 bits.
pub mod Groups
pub mod Near
use pegastore.Prelude.{
  ℕ, ◌+◌, ◌%◌, Option, none, some, List, [], ◌∷◌, ◌++◌, if◌then◌else◌, length, get_elem?, u64_mod,
  Run, done, unwrap, ◌>>=◌, update, ℕ_discrete, String,
}
use pegastore.Rdma.Numa.{is_valid}

pub record RcRuntime : Type 0 where
  pub numa_node : ℕ
  pub nic_name : String

pub record NicGroup : Type 0 where
  pub nic_indices : List ℕ
  pub rr_counter : ℕ

abbrev pub new_group : List ℕ → NicGroup
new_group indices = record { nic_indices = indices; rr_counter = 0 }

-- `NicGroup::next`. An empty group is a remainder by zero, which panics.
unfoldable pub next : NicGroup → Run (ℕ × NicGroup)
next g = unwrap (get_elem? g.nic_indices (g.rr_counter % length g.nic_indices)) >>= λ nic.
    done (nic, record g { rr_counter = (g.rr_counter + 1) % u64_mod })

pub record NumaRoundRobin : Type 0 where
  pub groups : ℕ → Option NicGroup
  pub fallback : NicGroup

unfoldable pub push : Option (List ℕ) → ℕ → List ℕ
push none i = i ∷ []
push (some is) i = is ++ i ∷ []

unfoldable pub add_nic : ℕ → RcRuntime → (ℕ → Option (List ℕ)) → ℕ → Option (List ℕ)
add_nic i rt map =
    if is_valid rt.numa_node
    then update ℕ_discrete map rt.numa_node (some (push (map rt.numa_node) i))
    else map

-- The NICs of each node, from the NIC `i` on.
unfoldable pub nics_by_node : ℕ → List RcRuntime → (ℕ → Option (List ℕ)) → ℕ → Option (List ℕ)
nics_by_node i [] map = map
nics_by_node i (rt ∷ rts) map = nics_by_node (i + 1) rts (add_nic i rt map)

unfoldable pub group : Option (List ℕ) → Option NicGroup
group none = none
group (some indices) = some (new_group indices)

unfoldable pub all_indices : ℕ → List RcRuntime → List ℕ
all_indices i [] = []
all_indices i (rt ∷ rts) = i ∷ all_indices (i + 1) rts

unfoldable pub from_runtimes : List RcRuntime → NumaRoundRobin
from_runtimes runtimes = record {
  groups = λ node. group (nics_by_node 0 runtimes (λ _. none) node);
  fallback = new_group (all_indices 0 runtimes);
}

unfoldable pub pick_fallback : NumaRoundRobin → Run (ℕ × NumaRoundRobin)
pick_fallback rr = next rr.fallback >>= λ (nic, g). done (nic, record rr { fallback = g })

unfoldable pub pick_group : ℕ → NumaRoundRobin → Option NicGroup → Run (ℕ × NumaRoundRobin)
pick_group numa rr none = pick_fallback rr
pick_group numa rr (some g) = next g >>= λ (nic, g').
    done (nic, record rr { groups = update ℕ_discrete rr.groups numa (some g') })

unfoldable pub pick : NumaRoundRobin → ℕ → Run (ℕ × NumaRoundRobin)
pick rr numa = if is_valid numa then pick_group numa rr (rr.groups numa) else pick_fallback rr
