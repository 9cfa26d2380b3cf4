-- ===== src/Local/Claims/Ends.antt =====
-- The end of a claim: the ticket is used up, and the object keeps its spec.
use pegastore.Prelude.{
  ap, sym, ◌∙◌, ◌≡◌, lt_of_get_elem?, length-modify, ℕ, ◌<◌, refl, Bool, false, some, List, ◌∷◌,
  ◌++◌, arith, length, All-append, done, subst,
}
use pegastore.Prelude.Order.{bytes_ord}
use pegastore.Prelude.Ordered.{lookup, All-lookup}
use pegastore.Core.Types.{Key, ObjectSpec}
use pegastore.Core.Error.{ok}
use pegastore.Local.State.{PoolBuf, Slot, Object, State}
use pegastore.Prelude.Sorted.{lookup-insert_self}
use pegastore.Local.Put.{store, unclaim, new_replicas, push_written}
use pegastore.Local.Sound.{IsWriting, IsFit, has_pool}
use pegastore.Local.Writes.{rewrite_object, enqueue_all-Enqueues}
use pegastore.Local.Claims.{Ticket, AreFor, IsExclusive}
use pegastore.Local.Claims.Slots.{IsAligned-modify, new_replicas-len}
use pegastore.Local.Claims.Exclusive.{All-middle, freed-IsExclusive, freed}

-- The object of a key has a spec, if it is there.
abbrev pub HasSpec : Key → ObjectSpec → State → Type 0
HasSpec kb spec st = (o : Object) → lookup kb st.objects ≡ some o → o.spec ≡ spec

module _ (kb : Key) (i : ℕ) (st : State) (front back : List Ticket)
    (x : IsExclusive (st, front ++ (kb, i) ∷ back)) where
  -- The ticket names a slot that is there.
  ticket : IsWriting (lookup kb st.objects) i
  ticket = All-middle _ front back (kb, i) x.claimed

  module _ (f : Slot → Slot) (fit : IsFit (freed kb i ticket.0 st f)) where
    ended : State
    ended = rewrite_object kb (freed kb i ticket.0 st f) st

    ended-IsExclusive : IsExclusive (ended, front ++ back)
    unfolding ended rewrite_object
    ended-IsExclusive = freed-IsExclusive kb i ticket.0 st f ticket.2 front back x fit

    ended-lookup : lookup kb ended.objects ≡ some (freed kb i ticket.0 st f)
    unfolding ended rewrite_object
    ended-lookup = lookup-insert_self kb (freed kb i ticket.0 st f) st.objects

    ended-HasSpec : (spec : ObjectSpec) → HasSpec kb spec st → HasSpec kb spec ended
    unfolding freed
    ended-HasSpec spec h o there =
        let e = ended-lookup in
        let q : freed kb i ticket.0 st f ≡ o = cc in
        ap (λ (y : Object). y.spec) (sym q) ∙ h ticket.0 ticket.2

    ended-range : (o : Object) → lookup kb ended.objects ≡ some o → i < length o.slots
    unfolding freed
    ended-range o there =
        let e = ended-lookup in
        let q : freed kb i ticket.0 st f ≡ o = cc in
        subst (λ (y : Object). i < length y.slots) q
          (omega
            (arith, length-modify ticket.0.slots i f, lt_of_get_elem? ticket.0.slots i ticket.3))

  IsFit-here : IsFit ticket.0
  IsFit-here = All-lookup _ kb st.objects x.sound.fit ticket.2

  pub unclaim-Ends :
      (u : State) × (unclaim kb i st ≡ done u)
      × IsExclusive (u, front ++ back)
      × ((spec : ObjectSpec) → HasSpec kb spec st → HasSpec kb spec u)
  unfolding unclaim ended rewrite_object freed
  unclaim-Ends =
      let f = λ (s : Slot). record s { writing = false } in
      let fit =
        IsAligned-modify ticket.0.slots ticket.0.spec.slots i f IsFit-here (λ s p _ _ a. a) in
      (
        ended f fit,
        rw (unclaim, ticket.2, ticket.3) refl,
        ended-IsExclusive f fit,
        ended-HasSpec f fit,
      )

  pub store-Ends :
      (placed : List (Bool × PoolBuf))
      → AreFor kb i placed st
      → (u : State) × (store kb i placed st ≡ done (u, ok tt))
        × IsExclusive (u, front ++ back)
        × ((spec : ObjectSpec) → HasSpec kb spec st → HasSpec kb spec u)
  unfolding store ended rewrite_object freed push_written has_pool
  store-Ends placed for =
      let f = push_written (new_replicas placed) in
      let fit = IsAligned-modify ticket.0.slots ticket.0.spec.slots i f IsFit-here (λ s p _ has old.
        All-append _ s.replicas _ old
          (new_replicas-len p.len placed (for.1 ticket.0 p ticket.2 has))) in
      let y = ended-IsExclusive f fit in
      let (u, e, sound, o, p, rd) =
        enqueue_all-Enqueues placed kb i (ended f fit) y.sound (ended-range f fit) for.0 in
      (
        u,
        rw (store, ticket.2, ticket.3) (rw e refl),
        record { sound = sound; claimed = rw o y.claimed; distinct = y.distinct },
        λ spec h ob there. ended-HasSpec f fit spec h ob (ap (lookup kb) (sym o) ∙ there),
      )
