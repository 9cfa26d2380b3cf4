-- ===== src/Rdma/Transfers/Resolved.antt =====
-- What a batch of transfers posts on each NIC.
use pegastore.Prelude.{
  ◌≢◌, append-nil, ap, none, ==_iff, ℕ, suc, ◌≡◌, ◌<◌, refl, sym, ◌∙◌, true, some, List, [], ◌∷◌,
  ◌++◌, arith, length, get_elem?, get_elem?-lt, lt_of_get_elem?, modify, length-modify, Run, done,
  Bool-cases, Option-cases, inl, inr, ◌⊎◌, ◌==◌,
}
use pegastore.Rdma.Regions.{
  RegisteredMemoryEntry, Entries, find_entry, TransferError, invalid_argument,
  memory_not_registered, Outcome, good, bad,
}
use pegastore.Rdma.Engine.{TransferDesc, contains}
use pegastore.Rdma.Batch.{RdmaOp}
use pegastore.Rdma.Nics.{RcRuntime, NumaRoundRobin}
use pegastore.Rdma.Nics.Near.{Picked, again, pick-Picks}
use pegastore.Rdma.Transfers.{Resolution, op_on, resolve_in, resolve_desc, push_op, resolve_all}
use pegastore.Rdma.Transfers.Served.{
  IsServed, IsRefused, IsLocal, AreServed, on_nic, HasAll, modify-on_nic,
}

module _ (rts : List RcRuntime) (some_nic : 0 < length rts) (m : Entries)
    (has : HasAll (length rts) m) where
  abbrev IsAnswer : TransferDesc → Outcome (ℕ × RdmaOp) → Type 0
  IsAnswer d o =
      ((e : TransferError) × (o ≡ bad e) × IsRefused rts m d)
      ⊎ ((nic : ℕ) × (op : RdmaOp) × (o ≡ good (nic, op))
          × IsServed m d nic op
          × IsLocal rts m d nic)

  abbrev Answers : TransferDesc → Resolution → Type 0
  Answers d r =
      (rr : NumaRoundRobin) × (o : Outcome (ℕ × RdmaOp)) × (r ≡ done (rr, o))
      × Picked rts rr
      × IsAnswer d o

  op_on-Answers :
      (e : RegisteredMemoryEntry) (d : TransferDesc) (nic : ℕ) (rr : NumaRoundRobin)
      → Picked rts rr
      → d.len ≢ 0
      → nic < length rts
      → IsLocal rts m d nic
      → find_entry d.local d.len m ≡ some e
      → contains d.region d.remote d.len ≡ true
      → Answers d (op_on e d nic rr (get_elem? d.region.rkeys nic))
  unfolding op_on
  op_on-Answers e d nic rr p full lt near found covered =
      elim (Option-cases (get_elem? d.region.rkeys nic)) [
        | inl gone ↦ (rr, _, keyless gone, p, inl (_, refl, inr (inr (inr (nic, lt, gone)))))
        | inr (rkey, there) ↦
            let few : length e.mrs ≡ length rts = has d.local d.len e found in
            let (mr, at) = get_elem?-lt e.mrs nic (omega arith) in
            (
              rr,
              _,
              keyed rkey mr there at,
              p,
              inr (
                nic,
                _,
                refl,
                record {
                  entry = e;
                  local_range = refl;
                  remote_range = refl;
                  length_kept = refl;
                  nonempty = full;
                  found = found;
                  covered = covered;
                  local_key = at;
                  remote_key = there;
                },
                near,
              ),
            )
      ]
    where
      keyless :
          get_elem? d.region.rkeys nic ≡ none
          → op_on e d nic rr (get_elem? d.region.rkeys nic)
            ≡ done (rr, bad (invalid_argument "region descriptor has no rkey for paired NIC"))
      keyless gone = rw gone refl

      keyed :
          (rkey mr : ℕ)
          → get_elem? d.region.rkeys nic ≡ some rkey
          → get_elem? e.mrs nic ≡ some mr
          → op_on e d nic rr (get_elem? d.region.rkeys nic)
            ≡ done (
              rr,
              good (
                nic,
                record {
                  local_mr = mr;
                  local_ptr = d.local;
                  remote_ptr = d.remote;
                  len = d.len;
                  remote_rkey = rkey;
                },
              ),
            )
      keyed rkey mr there at = rw there (rw at refl)

  resolve_desc-Answers :
      (d : TransferDesc) (rr : NumaRoundRobin) → Picked rts rr → Answers d (resolve_desc m d rr)
  unfolding resolve_desc resolve_in
  resolve_desc-Answers d rr p = elim (Bool-cases (d.len == 0)) [
    | inl empty ↦
        let zero_len : d.len ≡ 0 = (==_iff d.len 0).0 empty in
        (
          rr,
          bad (invalid_argument "len must be non-zero"),
          rw empty refl,
          p,
          inl (_, refl, inl zero_len),
        )
    | inr full ↦
        let some_len : d.len ≢ 0 = ground arith in
        elim (Option-cases (find_entry d.local d.len m)) [
          | inl gone ↦ (
            rr,
            bad (memory_not_registered d.local),
            rw (full, gone) refl,
            p,
            inl (_, refl, inr (inl gone)),
          )
          | inr (e, found) ↦ elim (Bool-cases (contains d.region d.remote d.len)) [
            | inr out ↦ (
              rr,
              bad (invalid_argument "remote range not covered by its region descriptor"),
              rw (full, found) (rw out refl),
              p,
              inl (_, refl, inr (inr (inl out))),
            )
            | inl covered ↦
                let (nic, rr', rt, picked, _, at, near) = pick-Picks rts some_nic rr e.numa p in
                let (rr'', o, runs, p', ans) =
                  op_on-Answers e d nic rr' (again e.numa nic p picked) some_len
                    (lt_of_get_elem? rts nic at) (rt, e, at, found, near) found covered in
                (rr'', o, rw (full, found) (rw covered (rw picked runs)), p', ans)
          ]
        ]
  ]

  -- What a batch comes to: an error, where a descriptor has no operation; or each descriptor has its
  -- NIC and its operation, and each NIC has those it had and its own of these, in order.
  abbrev pub Resolves :
      List TransferDesc
      → List (List RdmaOp)
      → Run {0} (NumaRoundRobin × Outcome (List (List RdmaOp)))
      → Type 0
  Resolves ds per r =
      (rr : NumaRoundRobin) × (o : Outcome (List (List RdmaOp))) × (r ≡ done (rr, o))
      × (((e : TransferError) × (i : ℕ) × (d : TransferDesc) × (o ≡ bad e)
            × (get_elem? ds i ≡ some d)
            × IsRefused rts m d)
          ⊎ ((per' : List (List RdmaOp)) × (given : List (ℕ × RdmaOp)) × (o ≡ good per')
              × AreServed rts m ds given
              × ((j : ℕ) (old : List RdmaOp)
                  → get_elem? per j ≡ some old
                  → get_elem? per' j ≡ some (old ++ on_nic j given))))

  -- The loop over the descriptors of a batch never panics, whatever they are, and whatever NICs
  -- were picked before. It ends with an error only where some descriptor of the batch is empty, its
  -- local range is not registered, its remote range is not covered by its region, or its region
  -- lacks the key of some NIC. Otherwise each descriptor has one operation with its own ranges, on
  -- a NIC of the node of its entry if there is any, with the entry's registration and its region's
  -- key for that NIC; and each NIC has the operations it had, followed by those given to it, in
  -- the order of the batch. There is at least one NIC, each with a list of operations, and every
  -- registered entry has a registration for each NIC.
  pub resolve_all-Resolves :
      (ds : List TransferDesc) (per : List (List RdmaOp)) (rr : NumaRoundRobin)
      → Picked rts rr
      → length per ≡ length rts
      → Resolves ds per (resolve_all m ds per rr)
  unfolding resolve_all push_op
  resolve_all-Resolves [] per rr p n =
      (rr, good per, refl, inr (per, [], refl, tt, λ j old h. h ∙ ap some (sym (append-nil old))))
  resolve_all-Resolves (d ∷ ds) per rr p n =
      let (rr', o, runs, p', ans) = resolve_desc-Answers d rr p in
      elim ans [
        | inl (e, failed, why) ↦
            (rr', bad e, rw (runs, failed) refl, inl (e, 0, d, refl, refl, why))
        | inr (nic, op, is, served, near) ↦
            let lt : nic < length rts = lt_of_get_elem? rts nic near.2 in
            let (ops, at) = get_elem?-lt per nic (omega arith) in
            let per' : List (List RdmaOp) = modify per nic (λ os. os ++ op ∷ []) in
            let (rr'', o', rest, res) =
              resolve_all-Resolves ds per' rr' p'
                (length-modify per nic (λ os. os ++ op ∷ []) ∙ n) in
            (
              rr'',
              o',
              rw (runs, is) (rw at rest),
              elim res [
                | inl (e, i, d', q, there, why) ↦ inl (e, suc i, d', q, there, why)
                | inr (per'', given, q, all, split) ↦ inr (
                  per'',
                  (nic, op) ∷ given,
                  q,
                  (served, near, all),
                  λ j old h.
                      let (new, has_new, same) = modify-on_nic per nic j op given h in
                      split j new has_new ∙ ap some same,
                )
              ],
            )
      ]
