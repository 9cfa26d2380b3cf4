-- ===== src/Rdma/Engine.antt =====
-- crates/pegastore-rdma/src/engine.rs: descriptors and handshake data, and their wire form. The
-- codec, of a library, is a parameter: an encoder, and a decoder that says how much it has read.
pub mod Wire
use pegastore.Prelude.{
  ℕ, Bool, true, false, ◌&&◌, Option, none, some, List, leb, ◌==◌, if◌then◌else◌, length,
  checked_add, saturating_add, String,
}
use pegastore.Rdma.Regions.{TransferError, invalid_argument, Outcome, good, bad}

pub data TransferOp : Type 0 where
  read write : TransferOp

pub record RegionDescriptor : Type 0 where
  pub addr : ℕ
  pub len : ℕ
  pub rkeys : List ℕ

unfoldable pub contains : RegionDescriptor → ℕ → ℕ → Bool
contains region ptr len = elim (checked_add ptr len) [
  | none ↦ false
  | some end ↦ leb region.addr ptr && leb end (saturating_add region.addr region.len)
]

pub record TransferDesc : Type 0 where
  pub local : ℕ
  pub remote : ℕ
  pub len : ℕ
  pub region : RegionDescriptor

pub record RcEndpoint : Type 0 where
  pub gid : List ℕ
  pub lid : ℕ
  pub qp_num : ℕ
  pub psn : ℕ

pub record NicHandshake : Type 0 where
  pub endpoints : List RcEndpoint

pub record HandshakeMetadata : Type 0 where
  pub nics : List NicHandshake

pub data ConnectionStatus : Type 0 where
  existing connecting : ConnectionStatus
  prepared : HandshakeMetadata → ConnectionStatus

-- All bytes must have been read.
decoded : {A : Type 0} → String → String → List ℕ → Option (A × ℕ) → Outcome A
decoded malformed trailing bytes none = bad (invalid_argument malformed)
decoded malformed trailing bytes (some (a, consumed)) =
    if consumed == length bytes then good a else bad (invalid_argument trailing)

module _ (encode : RegionDescriptor → List ℕ)
    (decode : List ℕ → Option (RegionDescriptor × ℕ)) where
  unfoldable pub region_to_bytes : RegionDescriptor → List ℕ
  region_to_bytes region = encode region

  unfoldable pub region_from_bytes : List ℕ → Outcome RegionDescriptor
  unfolding decoded
  region_from_bytes bytes =
      decoded "invalid region descriptor" "trailing bytes in region descriptor" bytes (decode bytes)

module _ (encode : List NicHandshake → List ℕ)
    (decode : List ℕ → Option (List NicHandshake × ℕ)) where
  unfoldable pub metadata_to_bytes : HandshakeMetadata → List ℕ
  metadata_to_bytes meta = encode meta.nics

  wrapped : Outcome (List NicHandshake) → Outcome HandshakeMetadata
  wrapped (good nics) = good (record { nics = nics })
  wrapped (bad e) = bad e

  unfoldable pub metadata_from_bytes : List ℕ → Outcome HandshakeMetadata
  unfolding decoded wrapped
  metadata_from_bytes bytes = wrapped (
      decoded "invalid handshake metadata" "trailing bytes in handshake metadata" bytes
        (decode bytes))
