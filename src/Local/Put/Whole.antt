-- ===== src/Local/Put/Whole.antt =====
-- A put is a run of the steps that puts interleave by, and gives back all its tickets.
use pegastore.Prelude.{
  ℕ, suc, ◌+◌, ◌≡◌, refl, sym, ◌∙◌, ap, Bool, true, false, some, List, [], ◌∷◌, ◌++◌, arith, length,
  get_elem?, drop, map, All, Run, done, Option-cases, inl, inr, ◌⊎◌, subst, get_elem?-of_drop,
  drop-suc,
}
use pegastore.Prelude.Order.{bytes_ord}
use pegastore.Prelude.Ordered.{lookup}
use pegastore.Core.Types.{Key, ObjectSpec, SlotSpec}
use pegastore.Core.Error.{Error, Result, ok, err, Result-cases}
use pegastore.Core.Ops.{PutSlot, OpPut, RpPut, put_spec, validate_put}
use pegastore.Core.Ops.Validation.{Fills, validate_put-ok_iff}
use pegastore.Memory.Put.{already_written}
use pegastore.Local.State.{State, Inner, Object}
use pegastore.Local.Engines.{Engines}
use pegastore.Local.Targets.{claim}
use pegastore.Local.Put.{put_if, put_slots, put}
use pegastore.Local.Put.Places.{Reaches-trans}
use pegastore.Local.Sound.{IsSound}
use pegastore.Local.Claims.{Ticket, tickets, Reaches, stop, step, claims, IsExclusive}
use pegastore.Local.Claims.Ends.{HasSpec}
use pegastore.Local.Claims.Steps.{interleaved-IsExclusive}
use pegastore.Prelude.{if_pos, if_neg}
use pegastore.Prelude.Ordered.{All-lookup}
use pegastore.Prelude.Sorted.{lookup-insert_self}
use pegastore.Core.Types.{dec_spec}
use pegastore.Local.State.{Slot}
use pegastore.Local.Evict.{is_vacant}
use pegastore.Local.Targets.{claim_slot, claim_object, new_object, spec_differs}
use pegastore.Local.Sound.{IsAligned, IsFit}
use pegastore.Local.Writes.{CanHold}
use pegastore.Local.Claims.Slots.{new_object-IsFit}
use pegastore.Local.Put.Runs.{put_if-Finishes}

module _ {W : Type 0} (engines : Engines W) (inner : Inner) (kb : Key) (spec : ObjectSpec)
    (writable : List Bool) (ts : List Ticket) where
  -- What the slots of a put from `i` on come to, with `ws` the flags that are left.
  abbrev Slots : ℕ → List Bool → State → Run (State × W × List (Result (Unit {0}))) → Type 0
  Slots i ws st r =
      (st' : State) × (w' : W) × (rs : List (Result (Unit {0}))) × (r ≡ done (st', w', rs))
      × Reaches (st, tickets kb i ws ++ ts) (st', ts)

  spec_at :
      (i : ℕ) (ps : PutSlot) (rest : List PutSlot)
      → drop i spec.slots ≡ map (λ s. s.spec) (ps ∷ rest)
      → (p : SlotSpec) → get_elem? spec.slots i ≡ some p
      → p.len ≡ ps.spec.len
  spec_at i ps rest h p at =
      let there = get_elem?-of_drop spec.slots i h in
      let q : p ≡ ps.spec = cc in ap (λ (s : SlotSpec). s.len) q

  one-Finishes :
      (i : ℕ) (ps : PutSlot) (free : Bool) (ws : List Bool) (st : State) (w : W)
      → Fills ps
      → IsExclusive (st, tickets kb i (free ∷ ws) ++ ts)
      → HasSpec kb spec st
      → ((p : SlotSpec) → get_elem? spec.slots i ≡ some p → p.len ≡ ps.spec.len)
      → (st' : State) × (w' : W) × (res : Result (Unit {0})) × (put_if engines inner kb free i ps st
            w
          ≡ done (st', w', res))
        × HasSpec kb spec st'
        × Reaches (st, tickets kb i (free ∷ ws) ++ ts) (st', tickets kb (suc i) ws ++ ts)
  unfolding tickets put_if
  one-Finishes i ps true ws st w fills x has at =
      put_if-Finishes engines inner kb spec i ps (tickets kb (suc i) ws ++ ts) st w fills x has at
  one-Finishes i ps false ws st w fills x has at = (st, w, err (already_written i), refl, has, stop)

  put_slots-Slots :
      (ops : List PutSlot) (i : ℕ) (ws : List Bool) (st : State) (w : W)
      → drop i writable ≡ ws
      → length ws ≡ length ops
      → drop i spec.slots ≡ map (λ s. s.spec) ops
      → All Fills ops
      → IsExclusive (st, tickets kb i ws ++ ts)
      → HasSpec kb spec st
      → Slots i ws st (put_slots engines inner kb writable i ops st w)
  unfolding put_slots tickets
  put_slots-Slots [] i [] st w h n s fills x has = (st, w, [], refl, stop)
  put_slots-Slots [] i (f ∷ ws) st w h n s fills x has = absurd (omega arith)
  put_slots-Slots (ps ∷ ops) i [] st w h n s fills x has = absurd (omega arith)
  put_slots-Slots (ps ∷ ops) i (free ∷ ws) st w h n s fills x has =
      let (u, w', res, e, has', path) =
        one-Finishes i ps free ws st w fills.0 x has (spec_at i ps ops s) in
      let next : suc i ≡ i + 1 = omega arith in
      let (v, w'', rs, e', path') =
        put_slots-Slots ops (suc i) ws u w' (drop-suc writable i h) (omega arith)
          (drop-suc spec.slots i s) fills.1 (interleaved-IsExclusive _ _ x path) has' in
      (
        v,
        w'',
        res ∷ rs,
        rw (get_elem?-of_drop writable i h) (rw e (rw (sym next) (rw e' refl))),
        Reaches-trans _ _ _ path path',
      )

length-map : {A B : Type 0} (f : A → B) (xs : List A) → length (map f xs) ≡ length xs
length-map f [] = refl
length-map f (x ∷ xs) = ap suc (length-map f xs)

length-aligned : (ss : List Slot) (ps : List SlotSpec) → IsAligned ss ps → length ss ≡ length ps
length-aligned [] [] a = refl
length-aligned [] (p ∷ ps) a = absurd a
length-aligned (s ∷ ss) [] a = absurd a
length-aligned (s ∷ ss) (p ∷ ps) a = ap suc (length-aligned ss ps a.1)

-- What a claim that succeeds has reserved.
module _ (kb : Key) (st : State) (obj : Object) (fit : IsFit obj) where
  claim_object-HasSpec : HasSpec kb obj.spec (claim_object kb obj st).0
  unfolding claim_object
  claim_object-HasSpec o there =
      let self =
        lookup-insert_self kb (record obj { slots = map claim_slot obj.slots }) st.objects in
      let q : record obj { slots = map claim_slot obj.slots } ≡ o = cc in
      ap (λ (y : Object). y.spec) (sym q)

  claim_object-length : length (claim_object kb obj st).1 ≡ length obj.spec.slots
  unfolding claim_object
  claim_object-length = length-map is_vacant obj.slots ∙ length-aligned obj.slots obj.spec.slots fit

-- A claim fails, or it reserves the slots of the spec.
claim-Claims :
    (kb : Key) (spec : ObjectSpec) (st : State)
    → IsSound st
    → ((e : Error) × (claim kb spec st ≡ err e))
      ⊎ ((st' : State) × (ws : List Bool) × (claim kb spec st ≡ ok (st', ws))
          × HasSpec kb spec st'
          × (length ws ≡ length spec.slots))
unfolding claim new_object
claim-Claims kb spec st v = elim (Option-cases (lookup kb st.objects)) [
  | inl gone ↦ inr (
    (claim_object kb (new_object spec) st).0,
    (claim_object kb (new_object spec) st).1,
    rw (claim, gone) refl,
    claim_object-HasSpec kb st (new_object spec) (new_object-IsFit spec),
    claim_object-length kb st (new_object spec) (new_object-IsFit spec),
  )
  | inr (obj, there) ↦ elim (dec_spec obj.spec spec) [
    | no other ↦ inl (
      spec_differs kb,
      rw (claim, there) (if_neg (dec_spec obj.spec spec) other _ (err (spec_differs kb))),
    )
    | yes same ↦
        let fit = All-lookup _ kb st.objects v.fit there in
        inr (
          (claim_object kb obj st).0,
          (claim_object kb obj st).1,
          rw (claim, there)
              (if_pos (dec_spec obj.spec spec) same (ok (claim_object kb obj st))
                (err (spec_differs kb))),
          λ o found. claim_object-HasSpec kb st obj fit o found ∙ same,
          claim_object-length kb st obj fit ∙ ap (λ (s : ObjectSpec). length s.slots) same,
        )
  ]
]

-- A put with no other call between its phases returns, whatever its arguments, the engines and the
-- tickets that other puts hold, and it is a run of the steps that puts interleave by, from its claim
-- to the store or the unclaim of every slot that it claimed: it gives back all its tickets, and
-- those of the others are as before. No queue entry of the key names a slot beyond the put's.
pub put-Reaches :
    {W : Type 0} (engines : Engines W) (inner : Inner) (kb : Key) (op : OpPut) (st : State) (w : W)
    (ts : List Ticket)
    → IsExclusive (st, ts)
    → CanHold kb (length op.slots) st
    → (st' : State) × (w' : W) × (r : Result RpPut) × (put engines inner kb op st w
        ≡ done (st', w', r))
      × Reaches (st, ts) (st', ts)
unfolding put put_spec
put-Reaches engines inner kb op st w ts x room = elim (Result-cases (validate_put op)) [
  | inr (e, h) ↦ (st, w, err e, rw (put, h) refl, stop)
  | inl (u, h) ↦ elim (claim-Claims kb (put_spec op) st x.sound) [
    | inl (e, h') ↦ (st, w, err e, rw (put, h) (rw h' refl), stop)
    | inr (st1, ws, h', has, n) ↦
        let slots = length-map (λ (s : PutSlot). s.spec) op.slots in
        let path : Reaches (st, ts) (st1, tickets kb 0 ws ++ ts) = step stop (
          claims kb (put_spec op) st st1 ws ts (subst (λ m. CanHold kb m st) (sym slots) room)
            h') in
        let fills : All Fills op.slots = ((validate_put-ok_iff op).0 h).1 in
        let (st2, w', rs, e, path') =
          put_slots-Slots engines inner kb (put_spec op) ws ts op.slots 0 ws st1 w refl (n ∙ slots)
            refl fills (interleaved-IsExclusive _ _ x path) has in
        (
          st2,
          w',
          ok (record { slots = rs }),
          rw (put, h) (rw h' (rw e refl)),
          Reaches-trans _ _ _ path path',
        )
  ]
]
