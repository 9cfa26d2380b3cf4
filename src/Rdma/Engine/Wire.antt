-- ===== src/Rdma/Engine/Wire.antt =====
-- The range test of a descriptor, and the round trips of the wire form.
use pegastore.Prelude.{
  [], ◌∷◌, ◌++◌, ◌⊎◌, ◌≢◌, inl, inr, false, ◌==◌, length-append, ℕ, ◌+◌, ◌≤◌, ◌<◌, ◌≡◌, ◌↔◌, refl,
  true, some, List, Option, length, arith, u64_mod, ==_iff,
}
use pegastore.Rdma.Regions.{invalid_argument, Outcome, good, bad}
use pegastore.Rdma.Engine.{RegionDescriptor, contains, decoded, region_to_bytes, region_from_bytes}

-- For a range that ends within 64 bits, a descriptor contains it exactly when it starts at the
-- region's address or later and ends at the region's end or earlier, even where the region's own
-- end is past 64 bits; a range that ends later is never contained.
pub contains-true_iff :
    (region : RegionDescriptor) (ptr len : ℕ)
    → (contains region ptr len ≡ true)
      ↔ ((ptr + len < u64_mod) × (region.addr ≤ ptr) × (ptr + len ≤ region.addr + region.len))
unfolding contains
contains-true_iff region ptr len = ground arith

-- What is documented of the codec: the decoder reads a value off the front of the bytes, and says how
-- many of them were the value's, whatever follows.
abbrev pub IsPrefixCodec :
    (RegionDescriptor → List ℕ) → (List ℕ → Option (RegionDescriptor × ℕ)) → Type 0
IsPrefixCodec encode decode =
    (r : RegionDescriptor) (rest : List ℕ) → decode (encode r ++ rest) ≡ some (r, length (encode r))

-- What the bytes of a descriptor and those that follow come to.
abbrev pub Receives : RegionDescriptor → List ℕ → Outcome RegionDescriptor → Type 0
Receives region rest r =
    ((rest ≡ []) × (r ≡ good region))
    ⊎ ((rest ≢ []) × (r ≡ bad (invalid_argument "trailing bytes in region descriptor")))

module _ (encode : RegionDescriptor → List ℕ) (decode : List ℕ → Option (RegionDescriptor × ℕ))
    (codec : IsPrefixCodec encode decode) where
  -- With a codec that reads a value off the front of its input, the bytes of a region descriptor are
  -- received as that descriptor if nothing follows them, and refused if anything does.
  pub region_from_bytes-region_to_bytes :
      (region : RegionDescriptor) (rest : List ℕ)
      → Receives region rest
          (region_from_bytes encode decode (region_to_bytes encode decode region ++ rest))
  unfolding region_from_bytes region_to_bytes decoded
  region_from_bytes-region_to_bytes region [] =
      let all : (length (encode region) == length (encode region ++ [])) ≡ true =
        (==_iff _ _).1 (omega (arith, length-append (encode region) [])) in
      inl (refl, rw (codec region []) (rw all refl))
  region_from_bytes-region_to_bytes region (b ∷ rest) =
      let more : (length (encode region) == length (encode region ++ b ∷ rest)) ≡ false =
        let sum = length-append (encode region) (b ∷ rest) in ground arith in
      inr (λ e. absurd (ground arith), rw (codec region (b ∷ rest)) (rw more refl))
