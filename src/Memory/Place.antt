-- ===== src/Memory/Place.antt =====
-- The candidate loop of `Access::put` in services/memory.rs: which devices take a slot.
use pegastore.Prelude.{
  ℕ, zero, suc, ◌+◌, Bool, true, false, not, Option, none, some, List, [], ◌∷◌, ◌++◌, map, ite, Run,
  done, ◌>>=◌,
}
use pegastore.Prelude.Order.{bytes_ord}
use pegastore.Core.Types.{Key, Device, dec_device, Placement, strict, prefer, anywhere}
use pegastore.Core.Error.{Error, new, with_context, Shown, no_space, invalid_input}
use pegastore.Core.Region.{Iov, as_ptr}
use pegastore.Memory.State.{State}
use pegastore.Memory.Evict.{make_room}

-- The memory of the process: a byte at each address.
abbrev pub Ram : Type 0
Ram = ℕ → ℕ

unfoldable pub read_bytes : Ram → ℕ → ℕ → List ℕ
read_bytes ram p zero = []
read_bytes ram p (suc n) = ram p ∷ read_bytes ram (p + 1) n

unfoldable pub gather : Ram → List Iov → List ℕ
gather ram [] = []
gather ram (v ∷ vs) = read_bytes ram (as_ptr v) v.len ++ gather ram vs

unfoldable pub unknown_device : Device → Error
unknown_device d =
    with_context (new invalid_input "device not served by this backend") "device" (Shown.device d)

unfoldable pub cannot_fit : Device → ℕ → Error
cannot_fit d len =
    with_context (with_context (new no_space "pool cannot fit slot") "device" (Shown.device d))
      "len" (Shown.number len)

unfoldable pub others : Device → List Device → List (Device × Bool)
others d [] = []
others d (x ∷ xs) = let rest = others d xs in ite (dec_device x d) rest ((x, true) ∷ rest)

-- The devices to try, in order, each with the flag of a replica that lands there.
unfoldable pub candidates : List Device → Placement → List (Device × Bool)
candidates device_order (strict d) = (d, false) ∷ []
candidates device_order (prefer d) = (d, false) ∷ others d device_order
candidates device_order (Placement.each ds) = map (λ d. (d, false)) ds
candidates device_order anywhere = map (λ d. (d, false)) device_order

unfoldable pub is_each : Placement → Bool
is_each (Placement.each ds) = true
is_each _ = false

-- The variables of the candidate loop.
pub record Placing : Type 0 where
  pub state : State
  pub targets : List (Device × Bool)
  pub failure : Option Error

unfoldable pub after_room : Bool → ℕ → Device → Bool → Placing → State × Bool → Placing × Bool
after_room each len d misplaced p (st, true) =
    (record p { state = st; targets = p.targets ++ (d, misplaced) ∷ [] }, not each)
after_room each len d misplaced p (st, false) =
    (record p { state = st; failure = some (cannot_fit d len) }, each)

-- One round: the variables after it, and whether the loop breaks.
unfoldable pub try_device : Bool → ℕ → Key → Device → Bool → Placing → Run (Placing × Bool)
try_device each len kb d misplaced p = elim (p.state.pools d) [
  | none ↦ done (record p { failure = some (unknown_device d) }, each)
  | some pool ↦ make_room d len kb p.state >>= λ r. done (after_room each len d misplaced p r)
]

unfoldable pub place : Bool → ℕ → Key → List (Device × Bool) → Placing → Run Placing
place each len kb [] p = done p
place each len kb ((d, misplaced) ∷ cs) p = try_device each len kb d misplaced p >>= λ (p', stop).
    elim stop [ true ↦ done p' | false ↦ place each len kb cs p' ]
