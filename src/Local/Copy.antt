-- ===== src/Local/Copy.antt =====
-- `Seg`, `iov_segs` and `zip_copy` of local.rs. The indices `si` and `di` are the segments that are
-- left. The copy engine is an argument: it acts on a world and answers like `f` in the source.
-- Address sums wrap, as they do in a release build.
pub mod Pairs
pub mod Walk
pub mod Transfer
use pegastore.Prelude.{
  ℕ, zero, suc, ◌+◌, ◌-◌, ◌%◌, min, Bool, Option, none, some, List, [], ◌∷◌, map, leb, ◌==◌,
  if◌then◌else◌, u64_mod, length,
}
use pegastore.Core.Error.{Error, new, invalid_input, Result, ok, err}
use pegastore.Core.Region.{Iov, as_ptr}

pub record Seg : Type 0 where
  pub addr : ℕ
  pub len : ℕ

unfoldable pub iov_segs : List Iov → List Seg
iov_segs iovs = map (λ i. record { addr = as_ptr i; len = i.len }) iovs

-- The callback: source address, destination address, length.
abbrev pub Engine : Type 0 → Type 0
Engine W = ℕ → ℕ → ℕ → W → W × Result (Unit {0})

-- The first loop: the segments that are left and the offset into the first of them.
unfoldable pub skip : List Seg → ℕ → List Seg × ℕ
skip [] src_offset = ([], src_offset)
skip (s ∷ ss) src_offset =
    let rest = skip ss (src_offset - s.len) in
    if leb s.len src_offset then rest else (s ∷ ss, src_offset)

-- A list after a step to `off`: an offset at the end of the first segment moves on to the next.
unfoldable pub advance : Seg → List Seg → ℕ → List Seg × ℕ
advance s ss off = if off == s.len then (ss, 0) else (s ∷ ss, off)

unfoldable pub ran_past : Error
ran_past = new invalid_input "copy ran past a segment list"

unfoldable pub after_copy :
    {W : Type 0}
    → W × Result (Unit {0})
    → (W → Option (W × Result (Unit {0})))
    → Option (W × Result (Unit {0}))
after_copy (w, ok u) next = next w
after_copy (w, err e) next = some (w, err e)

module _ {W : Type 0} (f : Engine W) where
  -- The second loop, on fuel; `none` is a loop that is still running.
  unfoldable pub zip_loop : ℕ → List Seg → ℕ → List Seg → ℕ → ℕ → W → Option (W × Result (Unit {0}))
  zip_loop fuel src s_off dst d_off zero w = some (w, ok tt)
  zip_loop zero src s_off dst d_off (suc m) w = none
  zip_loop (suc fuel) [] s_off dst d_off (suc m) w = some (w, err ran_past)
  zip_loop (suc fuel) (s ∷ ss) s_off [] d_off (suc m) w = some (w, err ran_past)
  zip_loop (suc fuel) (s ∷ ss) s_off (d ∷ ds) d_off (suc m) w =
      let n = min (min (s.len - s_off) (d.len - d_off)) (suc m) in
      let s' = advance s ss (s_off + n) in
      let d' = advance d ds (d_off + n) in
      after_copy (f ((s.addr + s_off) % u64_mod) ((d.addr + d_off) % u64_mod) n w)
        λ w'. zip_loop fuel s'.0 s'.1 d'.0 d'.1 (suc m - n) w'

  -- Every round with bytes left ends a segment or the copy, so this is fuel enough.
  unfoldable pub zip_copy : List Seg → ℕ → List Seg → ℕ → W → Option (W × Result (Unit {0}))
  zip_copy src src_offset dst total w =
      let s = skip src src_offset in zip_loop (length src + length dst + 1) s.0 s.1 dst 0 total w
