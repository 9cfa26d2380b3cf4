-- ===== src/Memory/Put/Soundness.antt =====
-- The slots of a put, one after the other.
use pegastore.Prelude.{
  suc, ℕ, ◌+◌, drop, map, ◌>>=◌, get_elem?-of_drop, drop-suc, ◌<◌, ◌≡◌, refl, sym, ◌∙◌, ap, Bool,
  true, false, some, List, [], ◌∷◌, arith, All, Run, done, inl, inr, length, get_elem?,
  get_elem?-lt, lt_of_get_elem?, get_elem?-modify_ne,
}
use pegastore.Prelude.Order.{bytes_ord}
use pegastore.Prelude.Ordered.{lookup, All-lookup}
use pegastore.Core.Types.{Key, Device, ObjectSpec}
use pegastore.Core.Error.{Result, err}
use pegastore.Core.Ops.{PutSlot}
use pegastore.Memory.State.{State, Object, Inner}
use pegastore.Memory.Sound.{IsSound, IsAligned-length}
use pegastore.Memory.Room.{capacity_at}
use pegastore.Memory.Place.{Ram, gather}
use pegastore.Memory.Put.{put_slots, put_if, put_one, already_written}
use pegastore.Memory.Put.Distinct.{IsPlain, IsBounded}
use pegastore.Memory.Put.Writes.{written}
use pegastore.Memory.Put.Slots.{PutsSlot, put_slot-PutsSlot}

-- The slots that are not writable stay as they are.
abbrev pub IsUntouched : List Bool → Object → Object → Type 0
IsUntouched w obj obj' =
    (j : ℕ) → get_elem? w j ≡ some false → get_elem? obj'.slots j ≡ get_elem? obj.slots j

-- What some rounds of phase 2 come to.
abbrev pub Puts {ℓ} :
    {A : Type ℓ} → Key → List Bool → List PutSlot → State → Object → Run (State × A) → Type ℓ
Puts {A} kb w ss st obj r =
    (st' : State) × (q : A) × (obj' : Object) × (r ≡ done (st', q))
    × IsSound st'
    × (lookup kb st'.objects ≡ some obj')
    × (obj'.spec ≡ obj.spec)
    × ((d : Device) → capacity_at st' d ≡ capacity_at st d)
    × (All (λ s. IsPlain s.spec.placement) ss → IsBounded st → IsBounded st')
    × IsUntouched w obj obj'

IsUntouched-written :
    (w : List Bool) (obj : Object) (i : ℕ) (bytes : List ℕ) (ts : List (Device × Bool))
    → get_elem? w i ≡ some true
    → IsUntouched w obj (written obj i bytes ts)
unfolding written
IsUntouched-written w obj i bytes ts yes_at j no_at =
    get_elem?-modify_ne obj.slots i j _
      λ e. let clash : some true ≡ some false = sym yes_at ∙ ap (get_elem? w) e ∙ no_at in cc

module _ (inner : Inner) (ram : Ram) (kb : Key) (w : List Bool) (i : ℕ) (ps : PutSlot) (st : State)
    (obj : Object) where
  Puts-slot :
      get_elem? w i ≡ some true
      → {r : Run (State × Result (Unit {0}))} → PutsSlot inner ram kb i ps st obj r
      → Puts kb w (ps ∷ []) st obj r
  Puts-slot at (st', q, obj', e, sound, here, shape, bound, inl (ts, _, _, _, same)) = (
    st',
    q,
    obj',
    e,
    sound,
    here,
    rw same (unfold written in refl),
    shape,
    λ plain. bound plain.0,
    rw same (IsUntouched-written w obj i (gather ram ps.src) ts at),
  )
  Puts-slot at (st', q, obj', e, sound, here, shape, bound, inr (x, _, same)) =
      (st', q, obj', e, sound, here, rw same, shape, λ plain. bound plain.0, rw same (λ j h. refl))

  module _ (sound : IsSound st) (here : lookup kb st.objects ≡ some obj)
      (size : length (gather ram ps.src) ≡ ps.spec.len)
      (spec_at : get_elem? obj.spec.slots i ≡ some ps.spec)
      (wide : length w ≡ length obj.slots) where
    in_slots : i < length obj.slots
    in_slots = omega (
      arith,
      lt_of_get_elem? obj.spec.slots i spec_at,
      IsAligned-length obj.slots obj.spec.slots (All-lookup _ kb st.objects sound.fit here),
    )

    Puts-if :
        (b : Bool)
        → get_elem? w i ≡ some b
        → Puts kb w (ps ∷ []) st obj (put_if b inner ram kb i ps st)
    unfolding put_if
    Puts-if true at =
        let (slot, slot_at) = get_elem?-lt obj.slots i in_slots in
        Puts-slot at (put_slot-PutsSlot inner ram kb i ps st obj here slot_at size spec_at sound)
    Puts-if false at = (
      st,
      err (already_written i),
      obj,
      refl,
      sound,
      here,
      refl,
      λ d. refl,
      λ plain b. b,
      λ j h. refl,
    )

    put_one-Puts : Puts kb w (ps ∷ []) st obj (put_one inner ram kb w i ps st)
    unfolding put_one
    put_one-Puts = let (b, at) = get_elem?-lt w i (omega (arith, in_slots)) in rw at (Puts-if b at)

-- One round, then the others.
Puts-then :
    (kb : Key) (w : List Bool) (ps : PutSlot) (rest : List PutSlot) (st : State) (obj : Object)
    (r : Run (State × Result (Unit {0}))) (next : State → Run (State × List (Result (Unit {0}))))
    → Puts kb w (ps ∷ []) st obj r
    → ((st' : State) (obj' : Object)
        → IsSound st'
        → lookup kb st'.objects ≡ some obj'
        → obj'.spec ≡ obj.spec
        → Puts kb w rest st' obj' (next st'))
    → Puts kb w
        (ps ∷ rest)
        st
        obj
        (r >>= λ (st', q). next st' >>= λ (st'', qs). done (st'', q ∷ qs))
Puts-then kb w ps rest st obj r next (st', q, obj', e, sound, here, spec, shape, bound, same) f =
    let (st2, qs, obj2, e2, sound2, here2, spec2, shape2, bound2, same2) =
      f st' obj' sound here spec in
    (
      st2,
      q ∷ qs,
      obj2,
      rw e (rw e2 refl),
      sound2,
      here2,
      spec2 ∙ spec,
      λ d. shape2 d ∙ shape d,
      λ plain b. bound2 plain.1 (bound (plain.0, tt) b),
      λ j h. same2 j h ∙ same j h,
    )

drop-next :
    {A : Type 0} (xs : List A) (i : ℕ) {y : A} {ys : List A}
    → drop i xs ≡ y ∷ ys
    → drop (i + 1) xs ≡ ys
drop-next xs i h = let e : i + 1 ≡ suc i = omega arith in ap (λ n. drop n xs) e ∙ drop-suc xs i h

pub put_slots-Puts :
    (inner : Inner) (ram : Ram) (kb : Key) (w : List Bool) (i : ℕ) (ss : List PutSlot) (st : State)
    (obj : Object)
    → IsSound st
    → lookup kb st.objects ≡ some obj
    → All (λ s. length (gather ram s.src) ≡ s.spec.len) ss
    → drop i obj.spec.slots ≡ map (λ s. s.spec) ss
    → length w ≡ length obj.spec.slots
    → Puts kb w ss st obj (put_slots inner ram kb w i ss st)
unfolding put_slots
put_slots-Puts inner ram kb w i [] st obj sound here sizes specs wide =
    (st, [], obj, refl, sound, here, refl, λ d. refl, λ plain b. b, λ j h. refl)
put_slots-Puts inner ram kb w i (ps ∷ rest) st obj sound here sizes specs wide =
    Puts-then kb w ps rest st obj _ (put_slots inner ram kb w (i + 1) rest)
      (put_one-Puts inner ram kb w i ps st obj sound here sizes.0
        (get_elem?-of_drop obj.spec.slots i specs)
        (wide
          ∙ sym (
              IsAligned-length obj.slots obj.spec.slots
                (All-lookup _ kb st.objects sound.fit here))))
      λ st' obj' sound' here' spec'.
        put_slots-Puts inner ram kb w (i + 1) rest st' obj' sound' here' sizes.1
          (ap (λ (s : ObjectSpec). drop (i + 1) s.slots) spec' ∙ drop-next obj.spec.slots i specs)
          (wide ∙ ap (λ (s : ObjectSpec). length s.slots) (sym spec'))
