-- ===== src/Memory/Lifecycle/Prefix.antt =====
-- The stretch of the map that `remove_prefix` takes out.
use Prim.Native.Nat.{Ordering}
use Prim.Native.Nat.Ordering.{lt, eq, gt}
use pegastore.Prelude.{
  ℕ, ◌+◌, ◌≤◌, ◌≡◌, refl, sym, ◌∙◌, ap, ◌≢◌, true, false, none, List, [], ◌∷◌, arith, All, done,
  inl, inr, length, if◌then◌else◌, Bool-cases,
}
use pegastore.Prelude.Order.{bytes_ord, cmp_bytes, cmp_bytes-IsOrder}
use pegastore.Prelude.Ordered.{lookup, range_from}
use pegastore.Prelude.Sorted.{IsSorted, IsAbove}
use pegastore.Core.Types.{Key, Device, starts_with}
use pegastore.Core.Error.{ok}
use pegastore.Memory.State.{State, Object, used_on}
use pegastore.Memory.Sound.{IsSound, All-map}
use pegastore.Memory.Room.{capacity_at}
use pegastore.Memory.Lifecycle.{take_prefixed, prefixed_keys, remove_prefix}
use pegastore.Memory.Lifecycle.Release.{Mem-cases, remove_all-Removes}

starts_with-below : (k p : Key) → starts_with k p ≡ true → cmp_bytes k p ≢ lt
unfolding starts_with cmp_bytes
starts_with-below [] [] h e = cc
starts_with-below (x ∷ xs) [] h e = cc
starts_with-below [] (y ∷ ys) h e = cc
starts_with-below (x ∷ xs) (y ∷ ys) h e = ground (arith, starts_with-below xs ys)

starts_with-above :
    (j k p : Key)
    → cmp_bytes j p ≢ lt
    → starts_with j p ≡ false
    → cmp_bytes j k ≡ lt
    → starts_with k p ≡ false
unfolding starts_with cmp_bytes
starts_with-above j k [] n f h = cc
starts_with-above [] k (y ∷ ys) n f h = absurd (n refl)
starts_with-above (x ∷ xs) [] (y ∷ ys) n f h = cc
starts_with-above (x ∷ xs) (z ∷ zs) (y ∷ ys) n f h = ground (arith, starts_with-above xs zs ys)

-- How many keys have the prefix.
abbrev pub count_prefixed : Key → List (Key × Object) → ℕ
count_prefixed p [] = 0
count_prefixed p ((k, o) ∷ m) =
    let rest = count_prefixed p m in if starts_with k p then 1 + rest else rest

abbrev IsPast : Key → List (Key × Object) → Type 0
IsPast p m = All (λ e. cmp_bytes e.0 p ≢ lt) m

IsPast-above : (p j : Key) (m : List (Key × Object)) → cmp_bytes j p ≢ lt → IsAbove j m → IsPast p m
IsPast-above p j m n a = All-map _ _ m (λ e h b. n (cmp_bytes-IsOrder.cmp_trans j e.0 p h b)) a

take_prefixed-All :
    (p : Key) (m : List (Key × Object)) → All (λ k. starts_with k p ≡ true) (take_prefixed p m)
unfolding take_prefixed
take_prefixed-All p [] = tt
take_prefixed-All p ((k, o) ∷ m) = ground (arith, take_prefixed-All p m)

count_prefixed-past :
    (p j : Key) (m : List (Key × Object))
    → cmp_bytes j p ≢ lt
    → starts_with j p ≡ false
    → IsAbove j m
    → count_prefixed p m ≡ 0
count_prefixed-past p j [] n f a = refl
count_prefixed-past p j ((k, o) ∷ m) n f a =
    rw (starts_with-above j k p n f a.0) (count_prefixed-past p j m n f a.1)

length-take_prefixed :
    (p : Key) (m : List (Key × Object))
    → IsSorted m
    → IsPast p m
    → length (take_prefixed p m) ≡ count_prefixed p m
unfolding take_prefixed
length-take_prefixed p [] s a = refl
length-take_prefixed p ((k, o) ∷ m) s a = elim (Bool-cases (starts_with k p)) [
  | inl t ↦ rw t (omega (arith, length-take_prefixed p m s.1 a.1))
  | inr f ↦ rw f (sym (count_prefixed-past p k m a.0 f s.0))
]

-- `range(p..)` leaves out only keys without the prefix.
record IsTail (p : Key) (m r : List (Key × Object)) : Type 0 where
  pub sorted : IsSorted r
  pub past : IsPast p r
  pub as_many : count_prefixed p r ≡ count_prefixed p m
  pub same : (k : Key) → starts_with k p ≡ true → lookup k m ≡ lookup k r

not_prefixed : (k p : Key) → cmp_bytes k p ≡ lt → starts_with k p ≡ false
not_prefixed k p h = elim (Bool-cases (starts_with k p)) [
  | inl t ↦ absurd (starts_with-below k p t h)
  | inr f ↦ f
]

lookup-skip :
    (k j p : Key) (o : Object) (m : List (Key × Object))
    → IsAbove j m
    → starts_with k p ≡ true
    → cmp_bytes j p ≡ lt
    → lookup k ((j, o) ∷ m) ≡ lookup k m
unfolding lookup
lookup-skip k j p o m a s h = ground (
  arith,
  starts_with-below k p s,
  cmp_bytes-IsOrder.eq_of_cmp k j,
  cmp_bytes-IsOrder.cmp_trans k j p,
)

range_from-IsTail : (p : Key) (m : List (Key × Object)) → IsSorted m → IsTail p m (range_from p m)
unfolding range_from
range_from-IsTail p [] s = record { sorted = tt; past = tt; as_many = refl; same = λ k h. refl }
range_from-IsTail p ((j, o) ∷ m) s = go (cmp_bytes j p) refl (range_from-IsTail p m s.1)
  where
    stay : cmp_bytes j p ≢ lt → IsTail p ((j, o) ∷ m) ((j, o) ∷ m)
    stay n = record {
      sorted = s;
      past = (n, IsPast-above p j m n s.0);
      as_many = refl;
      same = λ k h. refl;
    }

    go :
        (c : Ordering)
        → cmp_bytes j p ≡ c
        → IsTail p m (range_from p m)
        → IsTail p ((j, o) ∷ m) (elim c [ lt ↦ range_from p m | _ ↦ (j, o) ∷ m ])
    go lt e t = record {
      sorted = t.sorted;
      past = t.past;
      as_many = rw (not_prefixed j p e) t.as_many;
      same = λ k h. lookup-skip k j p o m s.0 h e ∙ t.same k h;
    }
    go eq e t = stay λ x. cc
    go gt e t = stay λ x. cc

-- A key with the prefix that is not among the taken ones is not there.
lookup-not_taken :
    (p k : Key) (m : List (Key × Object))
    → IsSorted m
    → IsPast p m
    → starts_with k p ≡ true
    → All (λ j. j ≢ k) (take_prefixed p m)
    → lookup k m ≡ none
unfolding take_prefixed lookup
lookup-not_taken p k [] s a t n = refl
lookup-not_taken p k ((j, o) ∷ m) s a t n = ground (
  arith,
  cmp_bytes-IsOrder.eq_of_cmp k j,
  cmp_bytes-IsOrder.cmp_gt_lt k j,
  starts_with-above j k p a.0,
  lookup-not_taken p k m s.1 a.1 t,
)

-- In a sound state a call of `remove_prefix` returns, with the number of the keys that have the
-- prefix; afterwards the invariant holds, none of those keys is there, every other key has the
-- object that it had, no capacity has changed and no pool counts more bytes.
pub remove_prefix-Removes :
    (p : Key) (st : State)
    → IsSound st
    → (st' : State) × (remove_prefix p st ≡ done (st', ok (count_prefixed p st.objects)))
      × IsSound st'
      × ((k : Key) → starts_with k p ≡ true → lookup k st'.objects ≡ none)
      × ((k : Key) → starts_with k p ≡ false → lookup k st'.objects ≡ lookup k st.objects)
      × ((d : Device) → capacity_at st' d ≡ capacity_at st d)
      × ((d : Device) → used_on st' d ≤ used_on st d)
unfolding remove_prefix prefixed_keys
remove_prefix-Removes p st v =
    let t = range_from-IsTail p st.objects v.sorted in
    let tail = range_from p st.objects in
    let ks = take_prefixed p tail in
    let (st', e, (v', gone, stay, shape, less)) = remove_all-Removes ks st v in
    let taken = take_prefixed-All p tail in
    (
      st',
      rw (e, length-take_prefixed p tail t.sorted t.past, t.as_many) refl,
      v',
      λ k h. elim (Mem-cases k ks) [
        | inl other ↦ stay k other ∙ t.same k h ∙ lookup-not_taken p k tail t.sorted t.past h other
        | inr here ↦ here (λ j. lookup j st'.objects ≡ none) gone
      ],
      λ k h. stay k (
          All-map _ _ ks
            (λ j yes_prefix same.
              absurd
                (let c : true ≡ false = sym yes_prefix ∙ ap (λ x. starts_with x p) same ∙ h in cc))
            taken),
      shape,
      less,
    )
