-- ===== src/Local/Claims/Steps.antt =====
-- Interleaved puts never hold two tickets for one slot.
use pegastore.Prelude.{
  [], ◌≡◌, refl, sym, ◌∙◌, Bool, List, ◌∷◌, ◌++◌, length, Option-cases, inl, inr, subst, if_pos,
  if_neg, length-replicate,
}
use pegastore.Prelude.Order.{bytes_ord}
use pegastore.Prelude.Ordered.{lookup, All-lookup}
use pegastore.Core.Types.{Key, ObjectSpec, dec_spec}
use pegastore.Core.Error.{Result, ok, err}
use pegastore.Local.State.{release_buf, PoolBuf, State}
use pegastore.Local.Evict.Until.{alloc_or_evict-Allocates}
use pegastore.Local.Targets.{spec_differs, claim_object, new_object, claim}
use pegastore.Local.Put.{drop_placed}
use pegastore.Local.Sound.{release_buf_lem, release_buf-IsSound, All-map}
use pegastore.Local.Writes.{CanHold, rewrite_object, CanHold-lookup}
use pegastore.Local.Claims.{
  Ticket, tickets, Step, claims, allocates, stores, unclaims, drops, Reaches, IsExclusive, stop,
  step,
}
use pegastore.Local.Claims.Slots.{new_object-IsFit}
use pegastore.Local.Claims.Exclusive.{claimed-IsExclusive, claimed}
use pegastore.Local.Claims.Ends.{store-Ends, unclaim-Ends}

claim-IsExclusive :
    (kb : Key) (spec : ObjectSpec) (st st' : State) (ws : List Bool) (ts : List Ticket)
    → CanHold kb (length spec.slots) st
    → claim kb spec st ≡ ok (st', ws)
    → IsExclusive (st, ts)
    → IsExclusive (st', tickets kb 0 ws ++ ts)
unfolding claim claim_object rewrite_object claimed new_object
claim-IsExclusive kb spec st st' ws ts room h x = elim (Option-cases (lookup kb st.objects)) [
  | inl gone ↦
      let e : claim kb spec st ≡ ok (claim_object kb (new_object spec) st) =
        rw (claim, gone) refl in
      answer (claim_object kb (new_object spec) st) (sym e ∙ h) (
        claimed-IsExclusive kb (new_object spec) st (λ o there. absurd cc) ts x
          (new_object-IsFit spec)
          (subst (λ n. CanHold kb n st) (sym (length-replicate (length spec.slots) _)) room))
  | inr (obj, here) ↦ elim (dec_spec obj.spec spec) [
    | no other ↦
        let e : claim kb spec st ≡ err (spec_differs kb) =
          rw (claim, here) (if_neg (dec_spec obj.spec spec) other _ (err (spec_differs kb))) in
        absurd cc
    | yes same ↦
        let e : claim kb spec st ≡ ok (claim_object kb obj st) =
          rw (claim, here) (if_pos (dec_spec obj.spec spec) same _ (err (spec_differs kb))) in
        answer (claim_object kb obj st) (sym e ∙ h) (
          claimed-IsExclusive kb obj st (λ o there. cc) ts x
            (All-lookup _ kb st.objects x.sound.fit here) (CanHold-lookup kb st obj x.sound here))
  ]
]
  where
    answer :
        (y : State × List Bool)
        → ◌≡◌ {A = Result (State × List Bool)} (ok y) (ok (st', ws))
        → IsExclusive (y.0, tickets kb 0 y.1 ++ ts)
        → IsExclusive (st', tickets kb 0 ws ++ ts)
    answer y q z =
        let same : y ≡ (st', ws) = cc in
        subst (λ (u : State × List Bool). IsExclusive (u.0, tickets kb 0 u.1 ++ ts)) same z

drop_placed-IsExclusive :
    (placed : List (Bool × PoolBuf)) (st : State) (ts : List Ticket)
    → IsExclusive (st, ts)
    → IsExclusive (drop_placed placed st, ts)
unfolding drop_placed
drop_placed-IsExclusive [] st ts x = x
drop_placed-IsExclusive ((m, b) ∷ bs) st ts x =
    let (same, f, r, kept) = release_buf_lem b st in
    drop_placed-IsExclusive bs (release_buf b st) ts (record {
      sound = release_buf-IsSound b st x.sound;
      claimed = rw same x.claimed;
      distinct = x.distinct;
    })

Step-IsExclusive : (c d : State × List Ticket) → Step c d → IsExclusive c → IsExclusive d
Step-IsExclusive c d (claims kb spec st st' ws ts room h) x =
    claim-IsExclusive kb spec st st' ws ts room h x
Step-IsExclusive c d (allocates numa len protect st st' r ts h) x =
    let (u, a, e, sound, leaves, size) = alloc_or_evict-Allocates numa len protect st x.sound in
    let q : u ≡ st' = cc in
    subst (λ s. IsExclusive (s, ts)) q
      (record {
        sound = sound;
        claimed = All-map _ _ ts (λ t w. (leaves.wears t.0).writing t.1 w) x.claimed;
        distinct = x.distinct;
      })
Step-IsExclusive c d (stores kb i placed st st' r ts front back e for h) x =
    let (u, q, y, _) =
      store-Ends kb i st front back (subst (λ us. IsExclusive (st, us)) e x) placed for in
    let same : u ≡ st' = cc in subst (λ s. IsExclusive (s, front ++ back)) same y
Step-IsExclusive c d (unclaims kb i st st' ts front back e h) x =
    let (u, q, y, _) = unclaim-Ends kb i st front back (subst (λ us. IsExclusive (st, us)) e x) in
    let same : u ≡ st' = cc in subst (λ s. IsExclusive (s, front ++ back)) same y
Step-IsExclusive c d (drops placed st ts) x = drop_placed-IsExclusive placed st ts x

-- However the phases of puts interleave, from a sound state in which the claimed slots are marked
-- and claimed once: the state stays sound, every slot that a put has claimed and not finished is
-- marked as being written, also while other puts evict, and no slot is claimed twice at a time.
-- Objects are not removed meanwhile, no queue entry of a key names a slot beyond those that a put
-- of the key reserves, and what a put stores has the length of its slot and lies in a pool.
pub interleaved-IsExclusive :
    (c d : State × List Ticket) → IsExclusive c → Reaches c d → IsExclusive d
interleaved-IsExclusive c d x stop = x
interleaved-IsExclusive c e x (step path last) =
    Step-IsExclusive _ e last (interleaved-IsExclusive c _ x path)
