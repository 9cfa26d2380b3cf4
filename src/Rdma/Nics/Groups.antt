-- ===== src/Rdma/Nics/Groups.antt =====
-- The groups of NICs that `NumaRoundRobin::from_runtimes` makes.

use pegastore.Prelude.{
  ℕ, zero, suc, ◌+◌, ◌<◌, ◌≡◌, refl, sym, ◌∙◌, ap, subst, true, Option, none, some, List, [], ◌∷◌,
  arith, length, get_elem?, All, All-append, Bool-cases, Option-cases, inl, inr, update,
  update_cases, update_self, update_ne, ℕ_discrete, length-append,
}
use pegastore.Rdma.Numa.{is_valid}
use pegastore.Rdma.Nics.{
  RcRuntime, NicGroup, new_group, NumaRoundRobin, push, add_nic, nics_by_node, group, all_indices,
  from_runtimes,
}

-- The NIC with this index is there, and it is on the node.
abbrev pub IsOn : List RcRuntime → ℕ → ℕ → Type 0
IsOn rts node nic = (rt : RcRuntime) × (get_elem? rts nic ≡ some rt) × (rt.numa_node ≡ node)

abbrev pub IsFilled : (ℕ → Type 0) → List ℕ → Type 0
IsFilled P is = (0 < length is) × All P is

-- What each group holds, and the nodes that have one.
pub record IsNear (rts : List RcRuntime) (rr : NumaRoundRobin) : Type 0 where
  pub near :
      (node : ℕ) (g : NicGroup) → rr.groups node ≡ some g → IsFilled (IsOn rts node) g.nic_indices
  pub covered :
      (i : ℕ) (rt : RcRuntime)
      → get_elem? rts i ≡ some rt
      → is_valid rt.numa_node ≡ true
      → (g : NicGroup) × (rr.groups rt.numa_node ≡ some g)
  pub fallback : IsFilled (λ i. i < length rts) rr.fallback.nic_indices

-- The groups that the first runtimes have been given, and the ones that the rest will be given.
module _ (rts : List RcRuntime) where
  abbrev Groups : Type 0
  Groups = ℕ → Option (List ℕ)

  abbrev AreOn : Groups → Type 0
  AreOn m = (node : ℕ) (is : List ℕ) → m node ≡ some is → IsFilled (IsOn rts node) is

  push-Filled :
      (m : Groups) (node i : ℕ)
      → AreOn m
      → IsOn rts node i
      → IsFilled (IsOn rts node) (push (m node) i)
  unfolding push
  push-Filled m node i a on = elim (Option-cases (m node)) [
    | inl gone ↦ rw gone (omega arith, (on, tt))
    | inr (is, has) ↦
        let f = a node is has in
        rw has (
          omega (arith, length-append is (i ∷ [])),
          All-append (IsOn rts node) is (i ∷ []) f.1 (on, tt),
        )
  ]

  add_nic-On :
      (i : ℕ) (rt : RcRuntime) (m : Groups)
      → AreOn m
      → get_elem? rts i ≡ some rt
      → AreOn (add_nic i rt m)
  unfolding add_nic
  add_nic-On i rt m a at node is = elim (Bool-cases (is_valid rt.numa_node)) [
    | inr bad ↦ rw bad (a node is)
    | inl good ↦ rw good (λ h.
        elim (update_cases ℕ_discrete m rt.numa_node node (push (m rt.numa_node) i) h) [
          | inl (q, same) ↦
              subst (λ n. IsFilled (IsOn rts n) is) (sym q)
                (subst (IsFilled (IsOn rts rt.numa_node)) same
                  (push-Filled m rt.numa_node i a (rt, at, refl)))
          | inr (ne, old) ↦ a node is old
        ])
  ]

  nics_by_node-On :
      (i : ℕ) (rest : List RcRuntime) (m : Groups)
      → AreOn m
      → ((k : ℕ) (rt : RcRuntime) → get_elem? rest k ≡ some rt → get_elem? rts (i + k) ≡ some rt)
      → AreOn (nics_by_node i rest m)
  unfolding nics_by_node
  nics_by_node-On i [] m a at = a
  nics_by_node-On i (rt ∷ rest) m a at =
      nics_by_node-On (i + 1) rest (add_nic i rt m)
        (add_nic-On i rt m a (
          let here : i + 0 ≡ i = omega arith in
          subst (λ j. get_elem? rts j ≡ some rt) here (at 0 rt refl)))
        (λ k other h.
          let next : i + suc k ≡ (i + 1) + k = omega arith in
          subst (λ j. get_elem? rts j ≡ some other) next (at (suc k) other h))

Has : (ℕ → Option (List ℕ)) → ℕ → Type 0
Has m node = (is : List ℕ) × (m node ≡ some is)

add_nic-Has :
    (i : ℕ) (rt : RcRuntime) (m : ℕ → Option (List ℕ)) (node : ℕ)
    → Has m node
    → Has (add_nic i rt m) node
unfolding add_nic Has
add_nic-Has i rt m node (is, has) = elim (Bool-cases (is_valid rt.numa_node)) [
  | inr bad ↦ rw bad (is, has)
  | inl good ↦ elim (ℕ_discrete node rt.numa_node) [
    | yes q ↦ rw good (
      push (m rt.numa_node) i,
      subst
          (λ n.
            update ℕ_discrete m rt.numa_node (some (push (m rt.numa_node) i)) n
            ≡ some (push (m rt.numa_node) i))
          (sym q) (update_self ℕ_discrete m rt.numa_node (some (push (m rt.numa_node) i))),
    )
    | no ne ↦
        rw good
          (is, update_ne ℕ_discrete m rt.numa_node node (some (push (m rt.numa_node) i)) ne ∙ has)
  ]
]

add_nic-Has_self :
    (i : ℕ) (rt : RcRuntime) (m : ℕ → Option (List ℕ))
    → is_valid rt.numa_node ≡ true
    → Has (add_nic i rt m) rt.numa_node
unfolding add_nic Has
add_nic-Has_self i rt m good = rw good (
  push (m rt.numa_node) i,
  update_self ℕ_discrete m rt.numa_node (some (push (m rt.numa_node) i)),
)

nics_by_node-Has :
    (i : ℕ) (rts : List RcRuntime) (m : ℕ → Option (List ℕ)) (node : ℕ)
    → Has m node
    → Has (nics_by_node i rts m) node
unfolding nics_by_node
nics_by_node-Has i [] m node h = h
nics_by_node-Has i (rt ∷ rts) m node h =
    nics_by_node-Has (i + 1) rts (add_nic i rt m) node (add_nic-Has i rt m node h)

nics_by_node-covers :
    (i : ℕ) (rts : List RcRuntime) (m : ℕ → Option (List ℕ)) (k : ℕ) (rt : RcRuntime)
    → get_elem? rts k ≡ some rt
    → is_valid rt.numa_node ≡ true
    → Has (nics_by_node i rts m) rt.numa_node
unfolding nics_by_node
nics_by_node-covers i [] m k rt h valid = absurd (ground arith)
nics_by_node-covers i (x ∷ rts) m zero rt h valid =
    let q : x ≡ rt = ground arith in
    nics_by_node-Has (i + 1) rts (add_nic i x m) rt.numa_node (
      subst (λ (y : RcRuntime). Has (add_nic i x m) y.numa_node) q
        (add_nic-Has_self i x m (ap (λ (y : RcRuntime). is_valid y.numa_node) q ∙ valid)))
nics_by_node-covers i (x ∷ rts) m (suc k) rt h valid =
    nics_by_node-covers (i + 1) rts (add_nic i x m) k rt h valid

all_indices-Below :
    (i n : ℕ) (rts : List RcRuntime) → i + length rts ≡ n → All (λ j. j < n) (all_indices i rts)
unfolding all_indices
all_indices-Below i n [] h = tt
all_indices-Below i n (rt ∷ rts) h = (omega arith, all_indices-Below (i + 1) n rts (omega arith))

length-all_indices : (i : ℕ) (rts : List RcRuntime) → length (all_indices i rts) ≡ length rts
unfolding all_indices
length-all_indices i [] = refl
length-all_indices i (rt ∷ rts) = ap suc (length-all_indices (i + 1) rts)

group-some : (o : Option (List ℕ)) (g : NicGroup) → group o ≡ some g → o ≡ some g.nic_indices
unfolding group
group-some none g h = absurd (ground arith)
group-some (some is) g h =
    let q : new_group is ≡ g = ground arith in ap (λ (x : NicGroup). some x.nic_indices) q

module _ (rts : List RcRuntime) (some_nic : 0 < length rts) where
  pub from_runtimes-IsNear : IsNear rts (from_runtimes rts)
  unfolding from_runtimes group Has
  from_runtimes-IsNear = record {
    near = λ node g h.
        nics_by_node-On rts 0 rts (λ _. none) (λ n is k. absurd (ground arith))
          (λ k rt at.
            let same : k ≡ 0 + k = omega arith in subst (λ j. get_elem? rts j ≡ some rt) same at)
          node g.nic_indices (group-some (nics_by_node 0 rts (λ _. none) node) g h);
    covered = λ i rt at valid.
        let (is, has) = nics_by_node-covers 0 rts (λ _. none) i rt at valid in
        (new_group is, ap group has);
    fallback = (
      omega (arith, length-all_indices 0 rts, some_nic),
      all_indices-Below 0 (length rts) rts (omega arith),
    );
  }
