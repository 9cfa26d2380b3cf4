-- ===== src/Rdma/Nics/Near.antt =====
-- The NIC of a pick is one of those of its node, where there are any.
use native.Mathlib.Nat.{mod-lt}
use pegastore.Prelude.{
  ℕ, ◌+◌, ◌%◌, ◌<◌, ◌≡◌, refl, sym, ◌∙◌, ap, subst, true, some, List, arith, length, get_elem?,
  get_elem?-lt, All-get_elem?, Run, done, Bool-cases, Option-cases, inl, inr, update, update_cases,
  update_self, update_ne, ℕ_discrete, u64_mod,
}
use pegastore.Rdma.Numa.{is_valid}
use pegastore.Rdma.Nics.{
  RcRuntime, NicGroup, next, NumaRoundRobin, from_runtimes, pick_fallback, pick_group, pick,
}
use pegastore.Rdma.Nics.Groups.{IsOn, IsFilled, IsNear, from_runtimes-IsNear}

-- The next NIC of a group that is not empty.
next-Filled :
    (P : ℕ → Type 0) (g : NicGroup)
    → IsFilled P g.nic_indices
    → (nic : ℕ) × (c : ℕ) × (next g ≡ done (nic, record g { rr_counter = c })) × P nic
unfolding next
next-Filled P g f =
    let (nic, at) =
      get_elem?-lt g.nic_indices (g.rr_counter % length g.nic_indices) (mod-lt g.rr_counter f.0) in
    (nic, (g.rr_counter + 1) % u64_mod, rw at refl, All-get_elem? P g.nic_indices _ f.1 at)

-- The state of the choice after any picks.
pub data Picked (rts : List RcRuntime) : NumaRoundRobin → Type 0 where
  start : Picked rts (from_runtimes rts)
  again :
      {rr rr' : NumaRoundRobin} (numa nic : ℕ)
      → Picked rts rr
      → pick rr numa ≡ done (nic, rr')
      → Picked rts rr'

-- A pick returns the index of a NIC that is there, and that is on the node if any NIC is.
abbrev pub Picks : List RcRuntime → ℕ → Run {0} (ℕ × NumaRoundRobin) → Type 0
Picks rts numa r =
    (nic : ℕ) × (rr : NumaRoundRobin) × (rt : RcRuntime) × (r ≡ done (nic, rr))
    × IsNear rts rr
    × (get_elem? rts nic ≡ some rt)
    × ((i : ℕ) (other : RcRuntime)
        → get_elem? rts i ≡ some other
        → is_valid numa ≡ true
        → other.numa_node ≡ numa
        → rt.numa_node ≡ numa)

module _ (rts : List RcRuntime) (rr : NumaRoundRobin) (numa : ℕ) (v : IsNear rts rr) where
  IsNear-update :
      (g : NicGroup)
      → IsFilled (IsOn rts numa) g.nic_indices
      → IsNear rts (record rr { groups = update ℕ_discrete rr.groups numa (some g) })
  IsNear-update g f = record {
    near = λ n g' h. elim (update_cases ℕ_discrete rr.groups numa n g h) [
      | inl (q, same) ↦
          subst (λ m. IsFilled (IsOn rts m) g'.nic_indices) (sym q)
            (subst (λ (x : NicGroup). IsFilled (IsOn rts numa) x.nic_indices) same f)
      | inr (ne, old) ↦ v.near n g' old
    ];
    covered = λ i rt at valid. elim (ℕ_discrete rt.numa_node numa) [
      | yes q ↦ (
        g,
        ap (update ℕ_discrete rr.groups numa (some g)) q
            ∙ update_self ℕ_discrete rr.groups numa (some g),
      )
      | no ne ↦
          let (g', has) = v.covered i rt at valid in
          (g', update_ne ℕ_discrete rr.groups numa rt.numa_node (some g) ne ∙ has)
    ];
    fallback = v.fallback;
  }

  pick_fallback-Picks :
      ((i : ℕ) (other : RcRuntime)
        → get_elem? rts i ≡ some other
        → is_valid numa ≡ true
        → ¬ (other.numa_node ≡ numa))
      → Picks rts numa (pick_fallback rr)
  unfolding pick_fallback
  pick_fallback-Picks none_on =
      let (nic, c, runs, there) = next-Filled (λ i. i < length rts) rr.fallback v.fallback in
      let (rt, at) = get_elem?-lt rts nic there in
      (
        nic,
        record rr { fallback = record rr.fallback { rr_counter = c } },
        rt,
        rw runs refl,
        record { near = v.near; covered = v.covered; fallback = v.fallback },
        at,
        λ i other h valid on. absurd (none_on i other h valid on),
      )

  pick_group-Picks :
      (g : NicGroup) → rr.groups numa ≡ some g → Picks rts numa (pick_group numa rr (some g))
  unfolding pick_group
  pick_group-Picks g has =
      let f = v.near numa g has in
      let (nic, c, runs, is_on) = next-Filled (IsOn rts numa) g f in
      let (rt, at, on) = is_on in
      (
        nic,
        record rr {
          groups = update ℕ_discrete rr.groups numa (some (record g { rr_counter = c }));
        },
        rt,
        rw runs refl,
        IsNear-update (record g { rr_counter = c }) f,
        at,
        λ i other h valid other_on. on,
      )

  pick-Near : Picks rts numa (pick rr numa)
  unfolding pick pick_group
  pick-Near = elim (Bool-cases (is_valid numa)) [
    | inr bad ↦
        let q : pick rr numa ≡ pick_fallback rr = rw bad refl in
        subst (Picks rts numa) (sym q)
          (pick_fallback-Picks (λ i other h valid on. absurd (ground arith)))
    | inl good ↦ elim (Option-cases (rr.groups numa)) [
      | inr (g, has) ↦
          let q : pick rr numa ≡ pick_group numa rr (some g) = rw (good, has) refl in
          subst (Picks rts numa) (sym q) (pick_group-Picks g has)
      | inl gone ↦
          let q : pick rr numa ≡ pick_fallback rr = rw (good, gone) refl in
          subst (Picks rts numa) (sym q) (
            pick_fallback-Picks (λ i other h valid on.
              let (g, has) = v.covered i other h (ap is_valid on ∙ valid) in
              let here : rr.groups numa ≡ some g = ap rr.groups (sym on) ∙ has in
              absurd (ground arith)))
    ]
  ]

module _ (rts : List RcRuntime) (some_nic : 0 < length rts) where
  Picked-IsNear : {rr : NumaRoundRobin} → Picked rts rr → IsNear rts rr
  Picked-IsNear start = from_runtimes-IsNear rts some_nic
  Picked-IsNear (again {rr} {rr'} numa nic before h) =
      let v = Picked-IsNear before in
      let (nic', rr'', rt, runs, near, _, _) = pick-Near rts rr numa v in
      let same : done (nic', rr'') ≡ done (nic, rr') = sym runs ∙ h in
      let q : rr'' ≡ rr' = cc in subst (IsNear rts) q near

  -- Whatever nodes were asked for before, a pick does not panic: its answer is the index of a NIC,
  -- and a NIC of the node that is asked for if the node is valid and any NIC is on it. There is at
  -- least one NIC.
  pub pick-Picks : (rr : NumaRoundRobin) (numa : ℕ) → Picked rts rr → Picks rts numa (pick rr numa)
  pick-Picks rr numa p = pick-Near rts rr numa (Picked-IsNear p)
