-- ===== src/Tests/Local/Checks.antt =====
-- The theorems of the single-node backend, where its pool is full.
use pegastore.Prelude.{Run, done, ◌+◌, ◌≡◌, ◌≤◌, refl, [], ◌∷◌, ◌++◌, true, arith, drop, length}
use pegastore.Prelude.Order.{bytes_ord, cmp_bytes}
use pegastore.Prelude.Ordered.{lookup}
use pegastore.Core.Types.{gpu}
use pegastore.Core.Error.{ok, Result}
use pegastore.Local.State.{State}
use pegastore.Local.Copy.{zip_copy}
use pegastore.Local.Copy.Pairs.{addresses, seg_addresses}
use pegastore.Local.Copy.Walk.{Copies, zip_copy-Copies}
use pegastore.Local.Copy.Transfer.{Transfers, copy-Transfers}
use pegastore.Local.Evict.{alloc_or_evict, is_vacant}
use pegastore.Local.Evict.Until.{Allocates, alloc_or_evict-Allocates}
use pegastore.Local.Targets.{claim, claim_object, new_object}
use pegastore.Local.Get.{get}
use pegastore.Core.Ops.{RpPut}
use pegastore.Local.Engines.{Engines}
use pegastore.Local.Put.{put}
use pegastore.Local.Put.Whole.{put-Reaches}
use pegastore.Local.Get.Reads.{Reads, get-Reads}
use pegastore.Local.Claims.{claims, Reaches, stop, step, IsExclusive, tickets}
use pegastore.Local.Claims.Steps.{interleaved-IsExclusive}
use pegastore.Tests.{host, old_key, new_key, read_two, three}
use pegastore.Tests.Local.{source, target, node, full, full-IsSound, fresh_spec, full-CanHold}

zip_copy-Copies_example :
    Copies 4
      (drop 1 (seg_addresses source))
      (seg_addresses target)
      (λ W f w. zip_copy f source 1 target 4 w)
zip_copy-Copies_example = zip_copy-Copies source target 1 4

source_fits : 1 + 4 ≤ length (seg_addresses source)
unfolding seg_addresses addresses
source_fits = omega arith

target_fits : 4 ≤ length (seg_addresses target)
unfolding seg_addresses addresses
target_fits = omega arith

copy-Transfers_example : Transfers node host source 1 (gpu 0) target 4
copy-Transfers_example = copy-Transfers node host (gpu 0) source target 1 4 source_fits target_fits

alloc_or_evict-Allocates_example : Allocates 0 5 new_key full (alloc_or_evict 0 5 new_key full)
alloc_or_evict-Allocates_example = alloc_or_evict-Allocates 0 5 new_key full full-IsSound

get-Reads_example :
    Reads node full old_key read_two (λ W engines w. get engines node old_key read_two full w)
get-Reads_example = get-Reads node full old_key read_two full-IsSound

no_tickets : IsExclusive (full, [])
no_tickets = record { sound = full-IsSound; claimed = tt; distinct = tt }

abbrev one_claim : State
one_claim = (claim_object new_key (new_object fresh_spec) full).0

claims_one : claim new_key fresh_spec full ≡ ok (one_claim, true ∷ [])
unfolding claim claim_object new_object lookup cmp_bytes is_vacant
claims_one = refl

claimed_once : Reaches (full, []) (one_claim, tickets new_key 0 (true ∷ []) ++ [])
claimed_once =
    step stop (claims new_key fresh_spec full one_claim (true ∷ []) [] full-CanHold claims_one)

interleaved-IsExclusive_example : IsExclusive (one_claim, tickets new_key 0 (true ∷ []) ++ [])
interleaved-IsExclusive_example =
    interleaved-IsExclusive (full, []) (one_claim, tickets new_key 0 (true ∷ []) ++ []) no_tickets
      claimed_once

abbrev idle : Engines Unit
idle = record {
  host = λ s d n w. w;
  h2d = λ g s d n w. (w, ok tt);
  d2h = λ g s d n w. (w, ok tt);
  peer = λ g h s d n w. (w, ok tt);
  sync = λ g w. (w, ok tt);
}

abbrev PutThree : Run {0} (State × Unit × Result RpPut) → Type 0
PutThree r =
    (st' : State) × (w' : Unit) × (res : Result RpPut) × (r ≡ done (st', w', res))
    × Reaches (full, []) (st', [])

put-Reaches_example : PutThree (put idle node new_key three full tt)
put-Reaches_example = put-Reaches idle node new_key three full tt [] no_tickets full-CanHold
