-- ===== src/Local/Copy/Transfer.antt =====
-- `Inner::copy` on segment lists that are long enough: the engine of the two devices runs over
-- chunks that pair the right addresses.
use pegastore.Prelude.{
  ℕ, ◌+◌, ◌≤◌, ◌≡◌, refl, ◌∙◌, ap, some, List, arith, length, take, drop, length-drop, inl, inr,
}
use pegastore.Core.Types.{Device, cpu, gpu}
use pegastore.Core.Error.{Result, ok, err, Result-cases}
use pegastore.Local.Copy.{Seg, Engine, zip_copy}
use pegastore.Local.Copy.Pairs.{seg_addresses, pairs, moves}
use pegastore.Local.Copy.Walk.{perform, zip_copy-Copies}
use pegastore.Local.State.{Inner}
use pegastore.Local.Engines.{Engines, gpu_at, copy, synced}

then_sync :
    {W : Type 0} → (W → W × Result (Unit {0})) → W × Result (Unit {0}) → W × Result (Unit {0})
then_sync sync (w, ok u) = sync w
then_sync sync (w, err e) = (w, err e)

-- The calls for a list of chunks: the copies in turn, and then the stream of the GPU, of the
-- destination's if there are two.
unfoldable pub transfer :
    {W : Type 0}
    → Engines W
    → Inner
    → Device
    → Device
    → List (ℕ × ℕ × ℕ)
    → W
    → W × Result (Unit {0})
unfolding then_sync
transfer engines inner (cpu m) (cpu n) cs w =
    perform (λ s d l v. (engines.host s d l v, ok tt)) cs (ok tt) w
transfer engines inner (cpu m) (gpu index) cs w = elim (gpu_at inner index) [
  | err e ↦ (w, err e)
  | ok g ↦ then_sync (engines.sync g) (perform (engines.h2d g) cs (ok tt) w)
]
transfer engines inner (gpu index) (cpu n) cs w = elim (gpu_at inner index) [
  | err e ↦ (w, err e)
  | ok g ↦ then_sync (engines.sync g) (perform (engines.d2h g) cs (ok tt) w)
]
transfer engines inner (gpu si) (gpu di) cs w = elim (gpu_at inner si) [
  | err e ↦ (w, err e)
  | ok sg ↦ elim (gpu_at inner di) [
    | err e ↦ (w, err e)
    | ok dg ↦ then_sync (engines.sync dg) (perform (engines.peer dg sg) cs (ok tt) w)
  ]
]

-- A copy between two devices comes to a transfer of chunks.
abbrev pub Transfers : Inner → Device → List Seg → ℕ → Device → List Seg → ℕ → Type 1
Transfers inner src_dev src off dst_dev dst total =
    (cs : List (ℕ × ℕ × ℕ)) × (moves cs
      ≡ pairs (take total (drop off (seg_addresses src))) (seg_addresses dst))
    × ((W : Type 0) (engines : Engines W) (w : W)
        → copy engines inner src_dev src off dst_dev dst total w
          ≡ some (transfer engines inner src_dev dst_dev cs w))

module _ {W : Type 0} (engines : Engines W) (inner : Inner) (src dst : List Seg) (off total : ℕ)
    (w : W) (cs : List (ℕ × ℕ × ℕ))
    (run : (f : Engine W) → zip_copy f src off dst total w ≡ some (perform f cs (ok tt) w)) where
  synced-perform :
      (g : ℕ) (x : W × Result (Unit {0}))
      → synced engines g (some x) ≡ some (then_sync (engines.sync g) x)
  unfolding synced then_sync
  synced-perform g (v, ok u) = refl
  synced-perform g (v, err e) = refl

  copy-transfer :
      (a b : Device)
      → copy engines inner a src off b dst total w ≡ some (transfer engines inner a b cs w)
  unfolding copy transfer
  copy-transfer (cpu m) (cpu n) = run _
  copy-transfer (cpu m) (gpu index) = elim (Result-cases (gpu_at inner index)) [
    | inr (e, h) ↦ rw (copy, transfer, h) refl
    | inl (g, h) ↦
        rw (transfer, h)
          (ap (synced engines g) (run (engines.h2d g))
            ∙ synced-perform g (perform (engines.h2d g) cs (ok tt) w))
  ]
  copy-transfer (gpu index) (cpu n) = elim (Result-cases (gpu_at inner index)) [
    | inr (e, h) ↦ rw (copy, transfer, h) refl
    | inl (g, h) ↦
        rw (transfer, h)
          (ap (synced engines g) (run (engines.d2h g))
            ∙ synced-perform g (perform (engines.d2h g) cs (ok tt) w))
  ]
  copy-transfer (gpu si) (gpu di) = elim (Result-cases (gpu_at inner si)) [
    | inr (e, h) ↦ rw (copy, transfer, h) refl
    | inl (sg, h) ↦ elim (Result-cases (gpu_at inner di)) [
      | inr (e, h') ↦ rw (copy, transfer, h, h') refl
      | inl (dg, h') ↦
          rw (transfer, h, h')
            (ap (synced engines dg) (run (engines.peer dg sg))
              ∙ synced-perform dg (perform (engines.peer dg sg) cs (ok tt) w))
    ]
  ]

-- If the source holds `total` bytes from the offset on and the destination holds as many, the copy
-- between two devices ends, and never for want of segments: it makes the calls for chunks that pair
-- each source address with the destination address of the same index, or finds a GPU that is not
-- served before any call.
pub copy-Transfers :
    (inner : Inner) (src_dev dst_dev : Device) (src dst : List Seg) (off total : ℕ)
    → off + total ≤ length (seg_addresses src)
    → total ≤ length (seg_addresses dst)
    → Transfers inner src_dev src off dst_dev dst total
copy-Transfers inner src_dev dst_dev src dst off total h h' =
    let (cs, end, same, ends, runs) = zip_copy-Copies src dst off total in
    let good : end ≡ ok tt = elim ends [
      | inl e ↦ e.2
      | inr e ↦ absurd (omega (arith, e.0, length-drop off (seg_addresses src)))
    ] in
    let run : (W : Type 0) (f : Engine W) (w : W)
        → zip_copy f src off dst total w ≡ some (perform f cs (ok tt) w) =
      λ W f w. runs W f w ∙ ap (λ e. some (perform f cs e w)) good in
    (
      cs,
      same,
      λ W engines w.
          copy-transfer engines inner src dst off total w cs (λ f. run W f w) src_dev dst_dev,
    )
