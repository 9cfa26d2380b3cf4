-- ===== src/Rdma/Sessions.antt =====
-- The state of crates/pegastore-rdma/src/rc_backend/state.rs beside the memory map. A session, which
-- drives a queue pair of a library, is its local endpoint.
use pegastore.Prelude.{
  ℕ, ◌+◌, Option, none, some, List, [], ◌∷◌, ◌==◌, if◌then◌else◌, length, replicate, String,
}
use pegastore.Rdma.Regions.{Entries}
use pegastore.Rdma.Engine.{RcEndpoint, NicHandshake}

pub record RcSession : Type 0 where
  pub local_endpoint : RcEndpoint

pub record PerNicState : Type 0 where
  pub pending : List RcSession

-- `position` and `VecDeque::remove`: the first session with the number, and the others.
take_by_qpn : ℕ → List RcSession → Option (RcSession × List RcSession)
take_by_qpn qpn [] = none
take_by_qpn qpn (s ∷ ss) =
    let later = take_by_qpn qpn ss in
    if s.local_endpoint.qp_num == qpn
    then some (s, ss)
    else elim later [ none ↦ none | some r ↦ some (r.0, s ∷ r.1) ]

unfoldable pub remove_pending_by_qpn : ℕ → PerNicState → Option RcSession × PerNicState
unfolding take_by_qpn
remove_pending_by_qpn qpn nic = elim (take_by_qpn qpn nic.pending) [
  | none ↦ (none, nic)
  | some r ↦ (some r.0, record { pending = r.1 })
]

pub record ConnNic : Type 0 where
  pub sessions : List RcSession
  pub rr_counter : ℕ

pub record AddrConnection : Type 0 where
  pub nics : List ConnNic
  pub local_nics : List NicHandshake

-- The connections by address, with the map as a list of its entries.
pub record RcBackendState : Type 0 where
  pub registered : Entries
  pub nics : List PerNicState
  pub addr_connections : List (String × AddrConnection)
  pub connecting : List String

sessions_of : List ConnNic → ℕ
sessions_of [] = 0
sessions_of (n ∷ ns) = length n.sessions + sessions_of ns

connected : List (String × AddrConnection) → ℕ
connected [] = 0
connected ((addr, conn) ∷ cs) = sessions_of conn.nics + connected cs

unfoldable pub num_qps : RcBackendState → ℕ
unfolding connected sessions_of
num_qps st = connected st.addr_connections

unfoldable pub new_state : ℕ → RcBackendState
new_state nic_count = record {
  registered = [];
  nics = replicate nic_count (record { pending = [] });
  addr_connections = [];
  connecting = [];
}
