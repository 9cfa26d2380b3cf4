-- ===== src/Local/Claims.antt =====
-- The phases of puts as steps: a put holds a ticket for each slot that it has claimed and neither
-- stored nor given up. The steps of several puts interleave in any order.
pub mod Slots
pub mod Exclusive
pub mod Ends
pub mod Steps
use pegastore.Prelude.{
  ℕ, suc, ◌+◌, ◌≡◌, ◌≢◌, refl, Bool, true, false, List, [], ◌∷◌, ◌++◌, some, All, Run, done, length,
  get_elem?, if◌then◌else◌,
}
use pegastore.Prelude.Order.{bytes_ord}
use pegastore.Prelude.Ordered.{lookup}
use pegastore.Core.Types.{Key, ObjectSpec, SlotSpec}
use pegastore.Core.Error.{Result, ok}
use pegastore.Local.State.{PoolBuf, Object, State}
use pegastore.Local.Evict.{alloc_or_evict}
use pegastore.Local.Targets.{claim}
use pegastore.Local.Put.{store, unclaim, drop_placed}
use pegastore.Local.Sound.{has_pool, IsWriting, IsSound}
use pegastore.Local.Writes.{CanHold}

abbrev pub Ticket : Type 0
Ticket = Key × ℕ

-- The tickets of a claim: the indices at which the flag is set.
unfoldable pub tickets : Key → ℕ → List Bool → List Ticket
tickets kb i [] = []
tickets kb i (w ∷ ws) = let rest = tickets kb (suc i) ws in if w then (kb, i) ∷ rest else rest

-- The buffers of a put have pools, and the length of the slot that they are for.
abbrev pub AreFor : Key → ℕ → List (Bool × PoolBuf) → State → Type 0
AreFor kb i placed st =
    All (λ b. has_pool st b.1.numa ≡ true) placed
    × ((o : Object) (p : SlotSpec)
        → lookup kb st.objects ≡ some o
        → get_elem? o.spec.slots i ≡ some p
        → All (λ b. b.1.buf.len ≡ p.len) placed)

pub data Step : State × List Ticket → State × List Ticket → Type 0 where
  claims :
      (kb : Key) (spec : ObjectSpec) (st st' : State) (ws : List Bool) (ts : List Ticket)
      → CanHold kb (length spec.slots) st
      → claim kb spec st ≡ ok (st', ws)
      → Step (st, ts) (st', tickets kb 0 ws ++ ts)
  allocates :
      (numa len : ℕ) (protect : Key) (st st' : State) (r : Result PoolBuf) (ts : List Ticket)
      → alloc_or_evict numa len protect st ≡ done (st', r)
      → Step (st, ts) (st', ts)
  stores :
      (kb : Key) (i : ℕ) (placed : List (Bool × PoolBuf)) (st st' : State) (r : Result (Unit {0}))
      (ts front back : List Ticket)
      → ts ≡ front ++ (kb, i) ∷ back
      → AreFor kb i placed st
      → store kb i placed st ≡ done (st', r)
      → Step (st, ts) (st', front ++ back)
  unclaims :
      (kb : Key) (i : ℕ) (st st' : State) (ts front back : List Ticket)
      → ts ≡ front ++ (kb, i) ∷ back
      → unclaim kb i st ≡ done st'
      → Step (st, ts) (st', front ++ back)
  drops :
      (placed : List (Bool × PoolBuf)) (st : State) (ts : List Ticket)
      → Step (st, ts) (drop_placed placed st, ts)

pub data Reaches : State × List Ticket → State × List Ticket → Type 0 where
  stop : {c : State × List Ticket} → Reaches c c
  step : {c d e : State × List Ticket} → Reaches c d → Step d e → Reaches c e

abbrev pub AreDistinct : List Ticket → Type 0
AreDistinct [] = Unit
AreDistinct (t ∷ ts) = All (λ u. t ≢ u) ts × AreDistinct ts

-- The state is sound, every ticket is for a slot that is being written, and no two are for the same.
pub record IsExclusive (c : State × List Ticket) : Type 0 where
  pub sound : IsSound c.0
  pub claimed : All (λ t. IsWriting (lookup t.0 c.0.objects) t.1) c.1
  pub distinct : AreDistinct c.1
