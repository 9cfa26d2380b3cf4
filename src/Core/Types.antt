-- ===== src/Core/Types.antt =====
-- crates/pegastore/src/types.rs: devices, placement, retention, metadata and capabilities.
use pegastore.Prelude.{
  ℕ, ◌+◌, Bool, true, false, ◌&&◌, Option, none, List, [], ◌∷◌, String, ◌==◌, if◌then◌else◌,
  ℕ_discrete,
}

-- A key is the bytes of the source's `Key`.
abbrev pub Key : Type 0
Key = List ℕ

unfoldable pub starts_with : Key → List ℕ → Bool
starts_with k [] = true
starts_with [] (y ∷ ys) = false
starts_with (x ∷ xs) (y ∷ ys) = x == y && starts_with xs ys

pub data Device : Type 0 where
  cpu : ℕ → Device
  gpu : ℕ → Device

unfoldable pub dec_device : Discrete Device
dec_device = hlevel ℕ_discrete

unfoldable pub is_gpu : Device → Bool
is_gpu (cpu numa) = false
is_gpu (gpu index) = true

pub data Tier : Type 0 where
  dram ssd external : Tier

pub record Location : Type 0 where
  pub node : ℕ
  pub device : Device
  pub tier : Tier

pub data Placement : Type 0 where
  strict : Device → Placement
  prefer : Device → Placement
  each : List Device → Placement
  anywhere : Placement

pub data Retention : Type 0 where
  cache explicit : Retention

pub record SlotSpec : Type 0 where
  pub len : ℕ
  pub placement : Placement

pub record ObjectSpec : Type 0 where
  pub retention : Retention
  pub slots : List SlotSpec

unfoldable pub dec_spec : Discrete ObjectSpec
dec_spec = hlevel ℕ_discrete

pub record Replica : Type 0 where
  pub location : Location
  pub misplaced : Bool

pub record SlotInfo : Type 0 where
  pub len : ℕ
  pub replicas : List Replica

unfoldable pub is_resident : SlotInfo → Bool
is_resident s = elim s.replicas [ [] ↦ false | r ∷ rs ↦ true ]

pub record ObjectInfo : Type 0 where
  pub retention : Retention
  pub slots : List SlotInfo

resident_from : ℕ → List SlotInfo → List ℕ
resident_from i [] = []
resident_from i (s ∷ ss) =
    let rest = resident_from (i + 1) ss in if is_resident s then i ∷ rest else rest

unfoldable pub resident_slots : ObjectInfo → List ℕ
unfolding resident_from
resident_slots o = resident_from 0 o.slots

all_resident : List SlotInfo → Bool
all_resident [] = true
all_resident (s ∷ ss) = is_resident s && all_resident ss

unfoldable pub is_fully_resident : ObjectInfo → Bool
unfolding all_resident
is_fully_resident o = all_resident o.slots

pub record Capability : Type 0 where
  pub gpu_memory : Bool
  pub publish : Bool
  pub placement_strict : Bool
  pub placement_each : Bool
  pub retention_explicit : Bool
  pub remove_prefix : Bool
  pub max_slot_len : Option ℕ
  pub max_slots : Option ℕ
  pub max_iov : Option ℕ
  pub max_stat_batch : Option ℕ

flags : Bool → Capability
flags b = record {
  gpu_memory = b;
  publish = b;
  placement_strict = b;
  placement_each = b;
  retention_explicit = b;
  remove_prefix = b;
  max_slot_len = none;
  max_slots = none;
  max_iov = none;
  max_stat_batch = none;
}

-- `Capability::all` and `Capability::none`.
unfoldable pub all_capabilities : Capability
unfolding flags
all_capabilities = flags true

unfoldable pub no_capabilities : Capability
unfolding flags
no_capabilities = flags false

pub record AccessInfo : Type 0 where
  pub name : String
  pub node : ℕ
  pub devices : List Device
  pub capability : Capability

-- `SlotSpec::new`.
unfoldable pub new_slot_spec : ℕ → Placement → SlotSpec
new_slot_spec len placement = record { len = len; placement = placement }

-- `Capability::default`.
unfoldable pub default_capability : Capability
default_capability = no_capabilities
