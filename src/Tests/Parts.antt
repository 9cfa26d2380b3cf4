-- ===== src/Tests/Parts.antt =====
-- The theorems of the other parts, on small inputs.
use pegastore.Prelude.{
  ◌++◌, take, ◌∙◌, ap, sym, List, length, Option, ℕ, ◌≡◌, ◌≢◌, ◌≤◌, ◌<◌, ◌+◌, ◌↔◌, ◌⊎◌, refl, none,
  some, [], ◌∷◌, All, arith, u64_mod, true,
}
use pegastore.Prelude.Order.{nat_ord}
use pegastore.Prelude.Ordered.{lookup, insert, range_from}
use pegastore.Core.Types.{cpu, gpu, all_capabilities}
use pegastore.Core.Error.{ok}
use pegastore.Core.Ops.{validate_iovs, validate_put}
use pegastore.Core.Ops.Validation.{
  IsGather, Expects, Fills, validate_iovs-ok_iff, validate_put-ok_iff,
}
use pegastore.Memory.State as M
use pegastore.Store.{check_put}
use pegastore.Store.Checks.{CanPut, check_put-ok_iff}
use pegastore.Cuda.Pinned.{PinnedPool, PinnedBuf, alloc, take_first, largest_free, round_up}
use pegastore.Cuda.Pinned.RoundTrip.{Hands, alloc-drop_buf, alloc-none_iff}
use pegastore.Cuda.Topology as T
use pegastore.Rdma.Regions.{
  RegisteredMemoryEntry, Entries, good, insert_entry, find_entry, find_overlap, predecessor,
  successor,
}
use pegastore.Rdma.Regions.Apart.{AreApart, IsClear, insert_entry-AreApart}
use pegastore.Rdma.Regions.Lookup.{find_entry-some_iff}
use pegastore.Rdma.Engine.{RegionDescriptor, contains, region_to_bytes, region_from_bytes}
use pegastore.Rdma.Engine.Wire.{
  IsPrefixCodec, Receives, contains-true_iff, region_from_bytes-region_to_bytes,
}
use pegastore.Rdma.Engine.{TransferDesc}
use pegastore.Rdma.Transfers.{resolve_all}
use pegastore.Rdma.Transfers.Served.{HasAll}
use pegastore.Rdma.Transfers.Resolved.{Resolves, resolve_all-Resolves}
use pegastore.Rdma.Batch.{RdmaOp}
use pegastore.Rdma.Nics.{RcRuntime, from_runtimes, pick}
use pegastore.Rdma.Nics.Near.{Picks, start, pick-Picks}
use pegastore.Rdma.Numa.{NumaTopology, unknown, gpu_numa_nodes}
use pegastore.Rdma.Numa.Nodes.{Lists, gpu_numa_nodes-Lists}
use pegastore.Tests.{host, inner, three, segment}

validate_iovs-ok_iff_example :
    (validate_iovs (segment 0 3 ∷ segment 5 2 ∷ []) (some 5) ≡ ok (host, 5))
    ↔ (IsGather (segment 0 3 ∷ segment 5 2 ∷ []) host 5 × Expects (some 5) 5)
validate_iovs-ok_iff_example = validate_iovs-ok_iff (segment 0 3 ∷ segment 5 2 ∷ []) (some 5) host 5

validate_put-ok_iff_example :
    (validate_put three ≡ ok tt) ↔ ((three.slots ≢ []) × All Fills three.slots)
validate_put-ok_iff_example = validate_put-ok_iff three

check_put-ok_iff_example :
    (check_put all_capabilities three ≡ ok tt) ↔ CanPut all_capabilities three
check_put-ok_iff_example = check_put-ok_iff all_capabilities three

-- Two free ranges of 2 MiB and 6 MiB; an allocation of 3 MiB takes 4 MiB of the second.
abbrev before : PinnedPool
before = record {
  numa = 0;
  base = 0;
  len = 16777216;
  registered = true;
  free = (0, 2097152) ∷ (4194304, 6291456) ∷ [];
}

abbrev after : PinnedPool
after = record before { free = (0, 2097152) ∷ (8388608, 2097152) ∷ [] }

abbrev handed : PinnedBuf
handed = record { off = 4194304; reserved = 4194304; len = 3145728 }

alloc_before : alloc before 3145728 ≡ some (after, handed)
unfolding alloc take_first round_up
alloc_before = refl

alloc-drop_buf_example : Hands before 3145728 after handed
alloc-drop_buf_example =
    alloc-drop_buf before after handed 3145728
      ((omega arith, omega arith, (omega arith, omega arith, tt))) (omega arith) (omega arith)
      alloc_before

alloc-none_iff_example :
    (alloc before 8388608 ≡ none)
    ↔ ((largest_free before.free < round_up 8388608) ⊎ (before.free ≡ []))
alloc-none_iff_example = alloc-none_iff before 8388608

abbrev topology : T.Topology
topology = record { numa_nodes = 0 ∷ []; cpus_by_numa = λ _. none; gpu_numa = λ _. none }

distance_lem_example :
    (T.distance topology (cpu 0) (gpu 1) ≡ M.distance inner (cpu 0) (gpu 1))
    × (T.distance topology (cpu 0) (gpu 1) ≡ T.distance topology (gpu 1) (cpu 0))
    × ((T.distance topology (cpu 0) (gpu 1) ≡ 0) ↔ (cpu 0 ≡ gpu 1))
distance_lem_example = T.distance_lem topology inner (cpu 0) (gpu 1) (λ index. refl)

abbrev region : ℕ → ℕ → RegisteredMemoryEntry
region base_ptr len = record { base_ptr = base_ptr; len = len; numa = 0; mrs = [] }

abbrev registered : Entries
registered = (100, region 100 10) ∷ (200, region 200 10) ∷ []

abbrev more : Entries
more = (100, region 100 10) ∷ (110, region 110 90) ∷ (200, region 200 10) ∷ []

inserted : insert_entry (region 110 90) registered ≡ good more
unfolding insert_entry find_overlap predecessor successor range_from insert
inserted = refl

insert_entry-AreApart_example :
    (0 < 90)
    × (110 + 90 < u64_mod)
    × All (IsClear 110 (110 + 90)) registered
    × (more ≡ insert 110 (region 110 90) registered)
    × AreApart 0 more
insert_entry-AreApart_example =
    insert_entry-AreApart (region 110 90) registered more
      (
        refl,
        omega arith,
        omega arith,
        omega arith,
        (refl, omega arith, omega arith, omega arith, tt),
      )
      inserted

find_entry-some_iff_example :
    (find_entry 205 3 registered ≡ some (region 200 10))
    ↔ ((lookup 200 registered ≡ some (region 200 10)) × (200 ≤ 205) × (205 + 3 ≤ 200 + 10))
find_entry-some_iff_example =
    find_entry-some_iff 205 3 registered (region 200 10)
      (
        refl,
        omega arith,
        omega arith,
        omega arith,
        (refl, omega arith, omega arith, omega arith, tt),
      )
      (omega arith) (omega arith)

abbrev desc : RegionDescriptor
desc = record { addr = 4096; len = 64; rkeys = 7 ∷ 9 ∷ [] }

contains-true_iff_example :
    (contains desc 4100 60 ≡ true)
    ↔ ((4100 + 60 < u64_mod) × (4096 ≤ 4100) × (4100 + 60 ≤ 4096 + 64))
contains-true_iff_example = contains-true_iff desc 4100 60

-- A codec that writes the fields one after the other.
-- A codec with the number of keys before them.
abbrev encode_plain : RegionDescriptor → List ℕ
encode_plain r = r.addr ∷ r.len ∷ length r.rkeys ∷ r.rkeys

abbrev decode_plain : List ℕ → Option (RegionDescriptor × ℕ)
decode_plain (addr ∷ len ∷ n ∷ rest) =
    some (record { addr = addr; len = len; rkeys = take n rest }, 3 + length (take n rest))
decode_plain _ = none

take-append_self : (xs ys : List ℕ) → take (length xs) (xs ++ ys) ≡ xs
take-append_self [] ys = refl
take-append_self (x ∷ xs) ys = ap (λ zs. x ∷ zs) (take-append_self xs ys)

plain-IsPrefixCodec : IsPrefixCodec encode_plain decode_plain
plain-IsPrefixCodec r rest =
    let same = take-append_self r.rkeys rest in
    let three : 3 + length r.rkeys ≡ length (encode_plain r) = omega arith in
    ap (λ ks. some (record { addr = r.addr; len = r.len; rkeys = ks }, 3 + length ks)) same
    ∙ ap (λ n. some (r, n)) three

region_from_bytes-region_to_bytes_example : Receives desc (1 ∷ []) (
    region_from_bytes encode_plain decode_plain
      (region_to_bytes encode_plain decode_plain desc ++ 1 ∷ []))
region_from_bytes-region_to_bytes_example =
    region_from_bytes-region_to_bytes encode_plain decode_plain plain-IsPrefixCodec desc (1 ∷ [])

-- Four GPUs on two nodes, and one whose node is not known.
abbrev five_gpus : NumaTopology
five_gpus = record {
  gpu_numa_map = (0, 1) ∷ (1, 0) ∷ (2, 1) ∷ (3, 0) ∷ (4, unknown) ∷ [];
  numa_nodes = 0 ∷ 1 ∷ [];
}

gpu_numa_nodes-Lists_example : Lists five_gpus (gpu_numa_nodes five_gpus)
gpu_numa_nodes-Lists_example = gpu_numa_nodes-Lists five_gpus

abbrev two_nics : List RcRuntime
two_nics =
    record { numa_node = 0; nic_name = "mlx5_0" }
    ∷ record { numa_node = 1; nic_name = "mlx5_1" }
    ∷ []

pick-Picks_example : Picks two_nics 1 (pick (from_runtimes two_nics) 1)
pick-Picks_example = pick-Picks two_nics (omega arith) (from_runtimes two_nics) 1 start

abbrev both_nics : RegisteredMemoryEntry
both_nics = record { base_ptr = 100; len = 10; numa = 1; mrs = 5 ∷ 6 ∷ [] }

abbrev on_both : Entries
on_both = (100, both_nics) ∷ []

on_both-HasAll : HasAll 2 on_both
unfolding find_entry predecessor
on_both-HasAll ptr len e h =
    let q : both_nics ≡ e = ground arith in ap (λ (x : RegisteredMemoryEntry). length x.mrs) (sym q)

abbrev no_ops : List (List RdmaOp)
no_ops = [] ∷ [] ∷ []

abbrev one_desc : List TransferDesc
one_desc = record { local = 102; remote = 4100; len = 4; region = desc } ∷ []

resolve_all-Resolves_example :
    Resolves two_nics
      (omega arith)
      on_both
      on_both-HasAll
      one_desc
      no_ops
      (resolve_all on_both one_desc no_ops (from_runtimes two_nics))
resolve_all-Resolves_example =
    resolve_all-Resolves two_nics (omega arith) on_both on_both-HasAll one_desc no_ops
      (from_runtimes two_nics) start refl
