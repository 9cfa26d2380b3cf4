-- ===== src/Rdma/Transfers/Served.antt =====
-- The operation of a descriptor on a NIC, and why a descriptor has none.
use pegastore.Prelude.{
  ◌≢◌, ite, ℕ_discrete, if_pos, if_neg, append_assoc, get_elem?-modify_self, get_elem?-modify_ne,
  ap, none, false, ℕ, ◌≡◌, ◌<◌, sym, ◌∙◌, true, some, List, [], ◌∷◌, ◌++◌, length, get_elem?,
  modify, ◌⊎◌,
}
use pegastore.Rdma.Regions.{RegisteredMemoryEntry, Entries, find_entry}
use pegastore.Rdma.Engine.{TransferDesc, contains}
use pegastore.Rdma.Batch.{RdmaOp}
use pegastore.Rdma.Numa.{is_valid}
use pegastore.Rdma.Nics.{RcRuntime}

-- The operation that a descriptor has on a NIC: its own ranges, the registration for the NIC of an
-- entry found for its local range, and the key for the NIC in its own region, which covers its
-- remote range.
pub record IsServed (m : Entries) (d : TransferDesc) (nic : ℕ) (op : RdmaOp) : Type 0 where
  pub entry : RegisteredMemoryEntry
  pub local_range : op.local_ptr ≡ d.local
  pub remote_range : op.remote_ptr ≡ d.remote
  pub length_kept : op.len ≡ d.len
  pub nonempty : d.len ≢ 0
  pub found : find_entry d.local d.len m ≡ some entry
  pub covered : contains d.region d.remote d.len ≡ true
  pub local_key : get_elem? entry.mrs nic ≡ some op.local_mr
  pub remote_key : get_elem? d.region.rkeys nic ≡ some op.remote_rkey

-- Why a descriptor has no operation: its length, its local range, its remote range, or a NIC
-- that its region has no key for.
abbrev pub IsRefused : List RcRuntime → Entries → TransferDesc → Type 0
IsRefused rts m d =
    (d.len ≡ 0)
    ⊎ ((find_entry d.local d.len m ≡ none)
        ⊎ ((contains d.region d.remote d.len ≡ false)
            ⊎ ((nic : ℕ) × (nic < length rts) × (get_elem? d.region.rkeys nic ≡ none))))

-- The NIC is there; it is on the node of the entry of the local range if the node is valid and any
-- NIC is on it.
abbrev pub IsLocal : List RcRuntime → Entries → TransferDesc → ℕ → Type 0
IsLocal rts m d nic =
    (rt : RcRuntime) × (e : RegisteredMemoryEntry) × (get_elem? rts nic ≡ some rt)
    × (find_entry d.local d.len m ≡ some e)
    × ((i : ℕ) (other : RcRuntime)
        → get_elem? rts i ≡ some other
        → is_valid e.numa ≡ true
        → other.numa_node ≡ e.numa
        → rt.numa_node ≡ e.numa)

-- Each descriptor with its NIC and its operation.
abbrev pub AreServed : List RcRuntime → Entries → List TransferDesc → List (ℕ × RdmaOp) → Type 0
AreServed rts m [] [] = Unit {0}
AreServed rts m [] (a ∷ given) = ⊥
AreServed rts m (d ∷ ds) [] = ⊥
AreServed rts m (d ∷ ds) ((nic, op) ∷ later) =
    IsServed m d nic op × IsLocal rts m d nic × AreServed rts m ds later

-- The operations on one NIC, in order.
abbrev pub on_nic : ℕ → List (ℕ × RdmaOp) → List RdmaOp
on_nic j [] = []
on_nic j ((nic, op) ∷ later) = ite (ℕ_discrete j nic) (op ∷ on_nic j later) (on_nic j later)

-- Every entry that is found has a registration for each NIC.
abbrev pub HasAll : ℕ → Entries → Type 0
HasAll n m =
    (ptr len : ℕ) (e : RegisteredMemoryEntry) → find_entry ptr len m ≡ some e → length e.mrs ≡ n

-- After an operation on a NIC, each NIC has what it had, and that operation if it is the one.
pub modify-on_nic :
    (per : List (List RdmaOp)) (nic j : ℕ) (op : RdmaOp) (later : List (ℕ × RdmaOp))
    {old : List RdmaOp}
    → get_elem? per j ≡ some old
    → (new : List RdmaOp) × (get_elem? (modify per nic (λ os. os ++ op ∷ [])) j ≡ some new)
      × (new ++ on_nic j later ≡ old ++ on_nic j ((nic, op) ∷ later))
modify-on_nic per nic j op later {old} h = elim (ℕ_discrete j nic) [
  | yes q ↦
      let here : get_elem? per nic ≡ some old = ap (get_elem? per) (sym q) ∙ h in
      (
        old ++ op ∷ [],
        ap (get_elem? (modify per nic (λ os. os ++ op ∷ []))) q
            ∙ get_elem?-modify_self per nic (λ os. os ++ op ∷ []) here,
        append_assoc old (op ∷ []) (on_nic j later)
            ∙ ap (λ xs. old ++ xs) (sym (if_pos (ℕ_discrete j nic) q _ (on_nic j later))),
      )
  | no ne ↦ (
    old,
    get_elem?-modify_ne per nic j (λ os. os ++ op ∷ []) (λ e. ne (sym e)) ∙ h,
    ap (λ xs. old ++ xs) (sym (if_neg (ℕ_discrete j nic) ne (op ∷ on_nic j later) _)),
  )
]
