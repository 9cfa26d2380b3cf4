-- ===== src/Rdma/Regions.antt =====
-- `LocalMemoryMap` of crates/pegastore-rdma/src/rc_backend/state.rs, and the errors of error.rs. An
-- entry's NUMA node is a number; its registrations, of a library, are opaque numbers.
pub mod Apart
pub mod Lookup
use pegastore.Prelude.{
  ℕ, ◌+◌, Option, none, some, List, [], ◌∷◌, ltb, leb, ◌==◌, if◌then◌else◌, checked_add, String,
}
use pegastore.Prelude.Order.{nat_ord}
use pegastore.Prelude.Ordered.{lookup, insert, remove, range_from}

pub record RegisteredMemoryEntry : Type 0 where
  pub base_ptr : ℕ
  pub len : ℕ
  pub numa : ℕ
  pub mrs : List ℕ

-- The numbers of a `Backend` message stand for its text.
pub data TransferError : Type 0 where
  invalid_argument : String → TransferError
  memory_not_registered : ℕ → TransferError
  device_not_found : String → TransferError
  address_resolution : String → TransferError
  backend : String → List ℕ → TransferError
  unimplemented : String → TransferError

pub data Outcome (A : Type 0) : Type 0 where
  good : A → Outcome A
  bad : TransferError → Outcome A

abbrev pub Entries : Type 0
Entries = List (ℕ × RegisteredMemoryEntry)

-- `range(..=p).next_back()`: the last entry whose key is not above.
unfoldable pub predecessor : ℕ → Entries → Option RegisteredMemoryEntry
predecessor p [] = none
predecessor p ((k, e) ∷ m) =
    let rest = predecessor p m in
    if leb k p then elim rest [ none ↦ some e | some later ↦ some later ] else none

-- `range(p..).next()`.
unfoldable pub successor : ℕ → Entries → Option (ℕ × RegisteredMemoryEntry)
successor p m = elim (range_from p m) [ [] ↦ none | x ∷ xs ↦ some x ]

overlaps_prev : ℕ → Option RegisteredMemoryEntry → Option RegisteredMemoryEntry
overlaps_prev base none = none
overlaps_prev base (some prev) = if ltb base (prev.base_ptr + prev.len) then some prev else none

overlaps_next : ℕ → Option (ℕ × RegisteredMemoryEntry) → Option RegisteredMemoryEntry
overlaps_next end none = none
overlaps_next end (some (next_base, next)) = if ltb next_base end then some next else none

unfoldable pub find_overlap : ℕ → ℕ → Entries → Option RegisteredMemoryEntry
unfolding overlaps_prev overlaps_next
find_overlap base end m = elim (overlaps_prev base (predecessor base m)) [
  | some e ↦ some e
  | none ↦ overlaps_next end (successor base m)
]

overlap_error : RegisteredMemoryEntry → RegisteredMemoryEntry → TransferError
overlap_error entry existing =
    backend "memory region overlaps registered region"
      (entry.base_ptr ∷ entry.len ∷ existing.base_ptr ∷ existing.len ∷ [])

insert_checked : RegisteredMemoryEntry → Entries → Option RegisteredMemoryEntry → Outcome Entries
insert_checked entry m none = good (insert entry.base_ptr entry m)
insert_checked entry m (some existing) = bad (overlap_error entry existing)

-- `LocalMemoryMap::insert`: the map after it, or the error.
unfoldable pub insert_entry : RegisteredMemoryEntry → Entries → Outcome Entries
unfolding insert_checked overlap_error
insert_entry entry m =
    if entry.len == 0
    then bad (invalid_argument "len must be non-zero")
    else elim (checked_add entry.base_ptr entry.len) [
      | none ↦ bad (invalid_argument "memory region overflows address space")
      | some end ↦ insert_checked entry m (find_overlap entry.base_ptr end m)
    ]

-- `LocalMemoryMap::remove`: what was there, and the map after it.
unfoldable pub remove_entry : ℕ → Entries → Option RegisteredMemoryEntry × Entries
remove_entry base_ptr m = (lookup base_ptr m, remove base_ptr m)

unfoldable pub find_entry : ℕ → ℕ → Entries → Option RegisteredMemoryEntry
find_entry ptr len m = elim (checked_add ptr len) [
  | none ↦ none
  | some end ↦ elim (predecessor ptr m) [
    | none ↦ none
    | some entry ↦ if leb end (entry.base_ptr + entry.len) then some entry else none
  ]
]
