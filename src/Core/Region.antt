-- ===== src/Core/Region.antt =====
-- crates/pegastore/src/region.rs. Memory is a function from addresses to bytes; the handle that a
-- backend puts into a region is its own affair and stands with the backend.
use pegastore.Prelude.{
  ◌==◌, ℕ, ◌+◌, ◌%◌, Bool, false, none, some, leb, u64_mod, checked_add, saturating_add,
}
use pegastore.Core.Types.{Device}

pub record MemoryRegion : Type 0 where
  pub id : ℕ
  pub addr : ℕ
  pub len : ℕ
  pub device : Device

pub record Iov : Type 0 where
  pub region : MemoryRegion
  pub offset : ℕ
  pub len : ℕ

-- The counter before, the id, the counter after; `fetch_add` wraps.
unfoldable pub next_id : ℕ → ℕ × ℕ
next_id counter = (counter, (counter + 1) % u64_mod)

-- `MemoryRegion::with_id`.
unfoldable pub with_id : ℕ → ℕ → ℕ → Device → MemoryRegion
with_id id addr len device = record { id = id; addr = addr; len = len; device = device }

unfoldable pub iov : MemoryRegion → ℕ → ℕ → Iov
iov region offset len = record { region = region; offset = offset; len = len }

unfoldable pub iov_all : MemoryRegion → Iov
iov_all region = iov region 0 region.len

-- `wrapping_add` on a 64-bit address.
unfoldable pub as_ptr : Iov → ℕ
as_ptr v = (v.region.addr + v.offset) % u64_mod

unfoldable pub end : Iov → ℕ
end v = saturating_add v.offset v.len

unfoldable pub in_bounds : Iov → Bool
in_bounds v = elim (checked_add v.offset v.len) [ none ↦ false | some e ↦ leb e v.region.len ]

-- `MemoryRegion::new`, with the counter of ids in and out.
unfoldable pub new_region : ℕ → ℕ → ℕ → Device → ℕ × MemoryRegion
new_region counter addr len device =
    let (id, counter') = next_id counter in (counter', with_id id addr len device)

unfoldable pub region_is_empty : MemoryRegion → Bool
region_is_empty region = region.len == 0
