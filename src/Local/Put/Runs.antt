-- ===== src/Local/Put/Runs.antt =====
-- The work on one slot is a run of the steps that puts interleave by.
use pegastore.Prelude.{
  ℕ, ◌+◌, ◌≤◌, ◌≡◌, refl, sym, ◌∙◌, ap, Bool, true, none, some, List, [], ◌∷◌, arith, length,
  get_elem?, Run, done, ◌>>=◌, Bool-cases, inl, inr, ◌⊎◌, length-append, u64_mod, ◌%◌,
}
use pegastore.Prelude.Order.{bytes_ord}
use pegastore.Prelude.Ordered.{lookup}
use pegastore.Core.Types.{Key, Device, cpu, ObjectSpec, SlotSpec}
use pegastore.Core.Error.{Error, Result, ok, err, Result-cases, with_context, Shown}
use pegastore.Core.Region.{Iov}
use pegastore.Core.Ops.{PutSlot}
use pegastore.Core.Ops.Validation.{Fills, IsGather}
use pegastore.Memory.Place.{is_each}
use pegastore.Local.Copy.{Seg, iov_segs}
use pegastore.Local.Copy.Pairs.{addresses, seg_addresses, length-addresses}
use pegastore.Local.Copy.Transfer.{transfer, copy-Transfers}
use pegastore.Local.State.{release_buf, PoolBuf, State, Inner}
use pegastore.Local.Engines.{Engines}
use pegastore.Local.Targets.{targets}
use pegastore.Local.Put.{
  Placing, is_placed, failed, drop_placed, store, source_device, copy_all, copied, write_placed,
  place_slot, put_slot, after_slot, put_if,
}
use pegastore.Local.Put.Places.{AreBufs, place-Places, Reaches-trans}
use pegastore.Local.Sound.{release_buf_lem, All-map}
use pegastore.Local.Claims.{
  Ticket, AreFor, Reaches, stop, step, stores, unclaims, drops, IsExclusive,
}
use pegastore.Local.Claims.Ends.{HasSpec, store-Ends, unclaim-Ends}
use pegastore.Local.Claims.Steps.{interleaved-IsExclusive}
use pegastore.Local.Get.Reads.{length-iov_segs}

one_seg : (a len : ℕ) → len ≤ length (seg_addresses (record { addr = a; len = len } ∷ []))
unfolding seg_addresses
one_seg a len = omega (arith, length-append (addresses a len) [], length-addresses a len)

drop_placed-objects :
    (bs : List (Bool × PoolBuf)) (st : State) → (drop_placed bs st).objects ≡ st.objects
unfolding drop_placed
drop_placed-objects [] st = refl
drop_placed-objects ((m, b) ∷ bs) st =
    drop_placed-objects bs (release_buf b st) ∙ (release_buf_lem b st).0

HasSpec-same :
    (kb : Key) (spec : ObjectSpec) (st st' : State)
    → lookup kb st'.objects ≡ lookup kb st.objects
    → HasSpec kb spec st
    → HasSpec kb spec st'
HasSpec-same kb spec st st' same h o there = h o (sym same ∙ there)

-- The first segment of a list that gathers.
gather-first :
    (vs : List Iov) (d : Device) (n : ℕ)
    → IsGather vs d n
    → (e : Device) × (source_device vs ≡ done e) × (length (seg_addresses (iov_segs vs)) ≡ n)
unfolding source_device
gather-first [] d n g = absurd g
gather-first (v ∷ vs) d n g = (v.region.device, refl, length-iov_segs (v ∷ vs) ∙ sym g.2)

module _ {W : Type 0} (engines : Engines W) (inner : Inner) (kb : Key) where
  copy_all-done :
      (src_dev : Device) (src : List Seg) (len : ℕ) (bs : List (Bool × PoolBuf)) (w : W)
      → length (seg_addresses src) ≡ len
      → (w' : W) × (r : Result (Unit {0})) × (copy_all engines inner kb src_dev src len bs w
          ≡ done (w', r))
  unfolding copy_all
  copy_all-done src_dev src len [] w h = (w, ok tt, refl)
  copy_all-done src_dev src len ((m, b) ∷ bs) w h =
      let dst : List Seg = record { addr = (b.base + b.buf.off) % u64_mod; len = len } ∷ [] in
      let fits : 0 + len ≤ length (seg_addresses src) = omega arith in
      let (cs, _, runs) =
        copy-Transfers inner src_dev (cpu b.numa) src dst 0 len fits
          (one_seg ((b.base + b.buf.off) % u64_mod) len) in
      let t = transfer engines inner src_dev (cpu b.numa) cs w in
      elim (Result-cases t.1) [
        | inr (e, bad) ↦ (t.0, err e, rw (runs W engines w) (rw bad refl))
        | inl (u, good) ↦
            let (w', r, rest) = copy_all-done src_dev src len bs t.0 h in
            (w', r, rw (runs W engines w) (rw good rest))
      ]

  -- What the work on a slot comes to: the slot is stored and the ticket used up, or there is an
  -- error and the ticket is still there.
  SlotRuns : ObjectSpec → ℕ → List Ticket → State → Run (State × W × Result (Unit {0})) → Type 0
  SlotRuns spec i ts st r =
      (st' : State) × (w' : W) × HasSpec kb spec st'
      × (((r ≡ done (st', w', ok tt)) × Reaches (st, (kb, i) ∷ ts) (st', ts))
          ⊎ ((e : Error) × (r ≡ done (st', w', err e))
              × Reaches (st, (kb, i) ∷ ts) (st', (kb, i) ∷ ts)))

  module _ (spec : ObjectSpec) (i : ℕ) (ps : PutSlot) (ts : List Ticket) (st : State)
      (x : IsExclusive (st, (kb, i) ∷ ts)) (has : HasSpec kb spec st)
      (at : (p : SlotSpec) → get_elem? spec.slots i ≡ some p → p.len ≡ ps.spec.len) where
    -- The buffers are dropped, and the ticket stays.
    dropped-Runs :
        (bs : List (Bool × PoolBuf)) (w : W) (e : Error)
        → SlotRuns spec i ts st (done (drop_placed bs st, w, err e))
    unfolding SlotRuns
    dropped-Runs bs w e = (
      drop_placed bs st,
      w,
      HasSpec-same kb spec st (drop_placed bs st) (ap (lookup kb) (drop_placed-objects bs st)) has,
      inr (e, refl, step stop (drops bs st ((kb, i) ∷ ts))),
    )

    stored-Runs :
        (bs : List (Bool × PoolBuf)) (w : W)
        → AreBufs ps.spec.len st bs
        → SlotRuns spec i ts st (store kb i bs st >>= λ (st', r). done (st', w, r))
    unfolding SlotRuns
    stored-Runs bs w bufs =
        let for : AreFor kb i bs st = (
          All-map _ _ bs (λ b h. h.0) bufs,
          λ o p here q.
              All-map _ _ bs
                (λ b h.
                  h.1
                  ∙ sym
                      (at p (ap (λ (s : ObjectSpec). get_elem? s.slots i) (sym (has o here)) ∙ q)))
                bufs,
        ) in
        let (u, e, y, keep) = store-Ends kb i st [] ts x bs for in
        (
          u,
          w,
          keep spec has,
          inl (rw e refl, step stop (stores kb i bs st u (ok tt) ((kb, i) ∷ ts) [] ts refl for e)),
        )

    copied-Runs :
        (p : Placing) (r : W × Result (Unit {0}))
        → p.state ≡ st
        → AreBufs ps.spec.len st p.placed
        → SlotRuns spec i ts st (copied engines inner kb i p r)
    unfolding copied
    copied-Runs p (w, err e) same bufs = rw same (dropped-Runs p.placed w e)
    copied-Runs p (w, ok u) same bufs = rw same (stored-Runs p.placed w bufs)

    SlotRuns-after :
        (st' : State) (r : Run (State × W × Result (Unit {0})))
        → Reaches (st, (kb, i) ∷ ts) (st', (kb, i) ∷ ts)
        → SlotRuns spec i ts st' r
        → SlotRuns spec i ts st r
    unfolding SlotRuns
    SlotRuns-after st' r path (u, w', h, y) = (
      u,
      w',
      h,
      elim y [
        | inl (e, p) ↦ inl (e, Reaches-trans _ _ _ path p)
        | inr (f, e, p) ↦ inr (f, e, Reaches-trans _ _ _ path p)
      ],
    )

  module _ (spec : ObjectSpec) (i : ℕ) (ps : PutSlot) (ts : List Ticket) where
    written-Runs :
        (src_dev : Device) (q : Placing) (w : W)
        → length (seg_addresses (iov_segs ps.src)) ≡ ps.spec.len
        → IsExclusive (q.state, (kb, i) ∷ ts)
        → HasSpec kb spec q.state
        → ((p : SlotSpec) → get_elem? spec.slots i ≡ some p → p.len ≡ ps.spec.len)
        → AreBufs ps.spec.len q.state q.placed
        → SlotRuns spec i ts q.state (write_placed engines inner kb i ps src_dev q w)
    unfolding write_placed
    written-Runs src_dev q w long x has at bufs =
        elim (Bool-cases (is_placed (is_each ps.spec.placement) q)) [
          | inr f ↦ rw f (dropped-Runs spec i ps ts q.state x has at q.placed w (failed q.failure))
          | inl t ↦
              let (w', r, e) =
                copy_all-done src_dev (iov_segs ps.src) ps.spec.len q.placed w long in
              rw t (rw e (copied-Runs spec i ps ts q.state x has at q (w', r) refl bufs))
        ]

    placed-Runs :
        (src_dev : Device) (st : State) (w : W) (tgs : Result (List (ℕ × Bool)))
        → length (seg_addresses (iov_segs ps.src)) ≡ ps.spec.len
        → IsExclusive (st, (kb, i) ∷ ts)
        → HasSpec kb spec st
        → ((p : SlotSpec) → get_elem? spec.slots i ≡ some p → p.len ≡ ps.spec.len)
        → SlotRuns spec i ts st (place_slot engines inner kb i ps src_dev tgs st w)
    unfolding place_slot SlotRuns
    placed-Runs src_dev st w (err e) long x has at = (st, w, has, inr (e, refl, stop))
    placed-Runs src_dev st w (ok tgs) long x has at =
        let (q, e, path, same, bufs) =
          place-Places kb ps.spec.len ((kb, i) ∷ ts) (is_each ps.spec.placement) tgs
            (record { state = st; placed = []; failure = none }) x tt in
        let x' = interleaved-IsExclusive _ _ x path in
        let has' = HasSpec-same kb spec st q.state same has in
        SlotRuns-after spec i ps ts st x has at q.state _ path
          (rw e (written-Runs src_dev q w long x' has' at bufs))

    put_slot-Runs :
        (st : State) (w : W)
        → Fills ps
        → IsExclusive (st, (kb, i) ∷ ts)
        → HasSpec kb spec st
        → ((p : SlotSpec) → get_elem? spec.slots i ≡ some p → p.len ≡ ps.spec.len)
        → SlotRuns spec i ts st (put_slot engines inner kb i ps st w)
    unfolding put_slot
    put_slot-Runs st w (d, g) x has at =
        let (e, first, long) = gather-first ps.src d ps.spec.len g in
        rw first (placed-Runs e st w (targets inner st ps.spec.placement) long x has at)

    -- Either way the ticket is given back.
    abbrev pub Finishes : State → Run (State × W × Result (Unit {0})) → Type 0
    Finishes st r =
        (st' : State) × (w' : W) × (res : Result (Unit {0})) × (r ≡ done (st', w', res))
        × HasSpec kb spec st'
        × Reaches (st, (kb, i) ∷ ts) (st', ts)

    pub put_if-Finishes :
        (st : State) (w : W)
        → Fills ps
        → IsExclusive (st, (kb, i) ∷ ts)
        → HasSpec kb spec st
        → ((p : SlotSpec) → get_elem? spec.slots i ≡ some p → p.len ≡ ps.spec.len)
        → Finishes st (put_if engines inner kb true i ps st w)
    unfolding put_if after_slot SlotRuns
    put_if-Finishes st w fills x has at =
        let (u, w', h, y) = put_slot-Runs st w fills x has at in
        elim y [
          | inl (e, path) ↦ (u, w', ok tt, rw e refl, h, path)
          | inr (f, e, path) ↦
              let (v, e', _, keep) =
                unclaim-Ends kb i u [] ts (interleaved-IsExclusive _ _ x path) in
              (
                v,
                w',
                err (with_context f "slot" (Shown.number i)),
                rw e (rw e' refl),
                keep spec h,
                step path (unclaims kb i u v ((kb, i) ∷ ts) [] ts refl e'),
              )
        ]
