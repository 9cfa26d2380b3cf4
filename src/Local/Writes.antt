-- ===== src/Local/Writes.antt =====
-- Objects written back by the phases of a put, and the queues that their charges lengthen.
use pegastore.Prelude.{
  ℕ, ◌<◌, ◌≡◌, refl, sym, ◌∙◌, ◌≢◌, ap, Bool, true, some, List, [], ◌∷◌, ◌++◌, length, get_elem?,
  All, All-append, Run, done, inl, inr, update, update_cases, subst,
}
use pegastore.Prelude.Order.{bytes_ord}
use pegastore.Prelude.Ordered.{lookup, insert, All-insert}
use pegastore.Prelude.Sorted.{insert-IsSorted, lookup-insert_ne, lookup-insert_self}
use pegastore.Core.Types.{Key, Device, cpu, dec_device}
use pegastore.Memory.State.{dec_key}
use pegastore.Local.State.{PoolBuf, Slot, Object, State}
use pegastore.Local.Put.{enqueue_all}
use pegastore.Local.Sound.{IsInRange, IsFit, IsWriting, IsSound, All-map, has_pool, update-some}

-- What every object with stale queue entries left would need: as many slots as they name.
abbrev pub CanHold : Key → ℕ → State → Type 0
CanHold kb n st =
    (d : Device) (q : List (Key × ℕ)) → st.fifo d ≡ some q → All (λ e. e.0 ≡ kb → e.1 < n) q

unfoldable pub rewrite_object : Key → Object → State → State
rewrite_object kb p st = record st { objects = insert kb p st.objects }

module _ (kb : Key) (p : Object) (st : State) where
  range_after :
      (e : Key × ℕ)
      → IsInRange st.objects e
      → (e.0 ≡ kb → e.1 < length p.slots)
      → IsInRange (insert kb p st.objects) e
  range_after e h h' o here = elim (dec_key kb e.0) [
    | no ne ↦ h o (sym (lookup-insert_ne kb e.0 p st.objects ne) ∙ here)
    | yes same ↦
        let there : lookup e.0 (insert kb p st.objects) ≡ some p =
          rw (sym same) (lookup-insert_self kb p st.objects) in
        let q : p ≡ o = cc in subst (λ (x : Object). e.1 < length x.slots) q (h' (sym same))
  ]

  All-both :
      (q : List (Key × ℕ))
      → All (IsInRange st.objects) q
      → All (λ e. e.0 ≡ kb → e.1 < length p.slots) q
      → All (IsInRange (insert kb p st.objects)) q
  All-both [] a b = tt
  All-both (e ∷ q) a b = (range_after e a.0 b.0, All-both q a.1 b.1)

  pub rewrite_object-IsSound :
      IsSound st → IsFit p → CanHold kb (length p.slots) st → IsSound (rewrite_object kb p st)
  unfolding rewrite_object has_pool
  rewrite_object-IsSound v fit room = record {
    sorted = insert-IsSorted kb p st.objects v.sorted;
    fit = All-insert _ kb p st.objects v.fit fit;
    queues = v.queues;
    queued = λ d q h. All-both q (v.queued d q h) (room d q h);
  }

  -- Slots of other objects are written or not as before.
  pub IsWriting-elsewhere :
      (k : Key) (i : ℕ)
      → kb ≢ k
      → IsWriting (lookup k st.objects) i
      → IsWriting (lookup k (rewrite_object kb p st).objects) i
  unfolding rewrite_object
  IsWriting-elsewhere k i ne (o, s, here, at, w) =
      (o, s, lookup-insert_ne kb k p st.objects ne ∙ here, at, w)

  pub IsWriting-here :
      (i : ℕ) (s : Slot)
      → get_elem? p.slots i ≡ some s
      → s.writing ≡ true
      → IsWriting (lookup kb (rewrite_object kb p st).objects) i
  unfolding rewrite_object
  IsWriting-here i s at w = (p, s, lookup-insert_self kb p st.objects, at, w)

-- An object that is there has room for its own queue entries.
pub CanHold-lookup :
    (kb : Key) (st : State) (o : Object)
    → IsSound st
    → lookup kb st.objects ≡ some o
    → CanHold kb (length o.slots) st
CanHold-lookup kb st o v here d q h =
    All-map _ _ q (λ e range same. range o (ap (λ k. lookup k st.objects) same ∙ here))
      (v.queued d q h)

-- What the charges change.
abbrev pub Enqueues : State → Run State → Type 0
Enqueues st r =
    (st' : State) × (r ≡ done st')
    × IsSound st'
    × (st'.objects ≡ st.objects)
    × (st'.pools ≡ st.pools)
    × (st'.readers ≡ st.readers)

pub enqueue_all-Enqueues :
    (bs : List (Bool × PoolBuf)) (kb : Key) (i : ℕ) (st : State)
    → IsSound st
    → IsInRange st.objects (kb, i)
    → All (λ b. has_pool st b.1.numa ≡ true) bs
    → Enqueues st (enqueue_all bs kb i st)
unfolding enqueue_all has_pool
enqueue_all-Enqueues [] kb i st v range a = (st, refl, v, refl, refl, refl)
enqueue_all-Enqueues ((m, b) ∷ bs) kb i st v range a =
    let (q, here) = v.queues b.numa a.0 in
    let st' = record st {
      fifo = update dec_device st.fifo (cpu b.numa) (some (q ++ (kb, i) ∷ []));
    } in
    let (u, e, sound, o, p, r) =
      enqueue_all-Enqueues bs kb i st'
        (record {
          sorted = v.sorted;
          fit = v.fit;
          queues = λ n h.
              let (x, there) = v.queues n h in
              update-some dec_device st.fifo (cpu b.numa) (cpu n) (q ++ (kb, i) ∷ []) there;
          queued = λ d x h.
              elim (update_cases dec_device st.fifo (cpu b.numa) d (q ++ (kb, i) ∷ []) h) [
                | inl (_, is) ↦
                    subst (All (IsInRange st.objects)) is
                      (All-append _ q ((kb, i) ∷ []) (v.queued (cpu b.numa) q here) (range, tt))
                | inr (_, old) ↦ v.queued d x old
              ];
        })
        range a.1 in
    (u, rw here e, sound, o, p, r)
