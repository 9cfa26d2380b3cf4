-- ===== src/Local/Sound.antt =====
-- The invariant of the single-node backend, and what its operations leave alone.
use pegastore.Prelude.{
  ℕ, ◌<◌, ◌≡◌, refl, sym, ◌∙◌, Bool, true, false, Option, none, some, List, [], ◌∷◌, arith, length,
  All, get_elem?, ap, update_self, update_ne, update,
}
use pegastore.Prelude.Order.{bytes_ord}
use pegastore.Prelude.Ordered.{lookup}
use pegastore.Prelude.Sorted.{IsSorted}
use pegastore.Core.Types.{Key, Device, cpu, SlotSpec}
use pegastore.Cuda.Pinned.{PinnedPool}
use pegastore.Local.Copy.Pairs.{seg_addresses}
use pegastore.Local.State.{
  PoolBuf, segs, ReplicaEntry, Slot, Object, State, retain, release_buf, drop_replica,
  drop_replicas,
}

-- A queue entry names a slot that exists, if its key is still there.
abbrev pub IsInRange : List (Key × Object) → Key × ℕ → Type 0
IsInRange objects e = (o : Object) → lookup e.0 objects ≡ some o → e.1 < length o.slots

unfoldable pub replica_len : ReplicaEntry → ℕ
replica_len r = length (seg_addresses (segs r.shared))

-- Slots go with their specs, and the segments of every replica have the length of its slot.
abbrev pub IsAligned : List Slot → List SlotSpec → Type 0
IsAligned [] [] = Unit {0}
IsAligned [] (p ∷ ps) = ⊥
IsAligned (s ∷ ss) [] = ⊥
IsAligned (s ∷ ss) (p ∷ ps) = All (λ r. replica_len r ≡ p.len) s.replicas × IsAligned ss ps

abbrev pub IsFit : Object → Type 0
IsFit o = IsAligned o.slots o.spec.slots

abbrev pub AreFit : List (Key × Object) → Type 0
AreFit objects = All (λ e. IsFit e.1) objects

unfoldable pub has_pool : State → ℕ → Bool
has_pool st n = elim (st.pools n) [ none ↦ false | some p ↦ true ]

pub record IsSound (st : State) : Type 0 where
  pub sorted : IsSorted st.objects
  pub fit : AreFit st.objects
  pub queues : (n : ℕ) → has_pool st n ≡ true → (q : List (Key × ℕ)) × (st.fifo (cpu n) ≡ some q)
  pub queued : (d : Device) (q : List (Key × ℕ)) → st.fifo d ≡ some q → All (IsInRange st.objects) q

-- A slot that a put is writing.
abbrev pub IsWriting : Option Object → ℕ → Type 0
IsWriting o i =
    (obj : Object) × (slot : Slot) × (o ≡ some obj)
    × (get_elem? obj.slots i ≡ some slot)
    × (slot.writing ≡ true)

-- An object under a key before and after evictions: it may be gone, but not while a slot is written.
pub record Wears (before later : Option Object) : Type 0 where
  pub shape :
      (p : Object)
      → later ≡ some p
      → (o : Object) × (before ≡ some o) × (length p.slots ≡ length o.slots)
  pub writing : (i : ℕ) → IsWriting before i → IsWriting later i

pub Wears-same : (a b : Option Object) → b ≡ a → Wears a b
Wears-same a b e = record {
  shape = λ p h. (p, sym e ∙ h, refl);
  writing = λ i (obj, slot, here, at, w). (obj, slot, e ∙ here, at, w);
}

pub Wears-trans : (a b c : Option Object) → Wears a b → Wears b c → Wears a c
Wears-trans a b c f g = record {
  shape =
      λ p h. let (q, h', e) = g.shape p h in let (o, h'', e') = f.shape q h' in (o, h'', e ∙ e');
  writing = λ i w. g.writing i (f.writing i w);
}

-- What making room leaves alone.
pub record Leaves (protect : Key) (st st' : State) : Type 0 where
  pub wears : (k : Key) → Wears (lookup k st.objects) (lookup k st'.objects)
  pub protected : lookup protect st'.objects ≡ lookup protect st.objects
  pub pooled : (n : ℕ) → has_pool st' n ≡ has_pool st n
  pub reading : st'.readers ≡ st.readers

pub Leaves-refl : (protect : Key) (st : State) → Leaves protect st st
Leaves-refl protect st = record {
  wears = λ k. Wears-same _ _ refl;
  protected = refl;
  pooled = λ n. refl;
  reading = refl;
}

pub Leaves-trans :
    (protect : Key) (st st' st'' : State)
    → Leaves protect st st'
    → Leaves protect st' st''
    → Leaves protect st st''
Leaves-trans protect st st' st'' f g = record {
  wears = λ k. Wears-trans _ _ _ (f.wears k) (g.wears k);
  protected = g.protected ∙ f.protected;
  pooled = λ n. g.pooled n ∙ f.pooled n;
  reading = g.reading ∙ f.reading;
}

pub IsInRange-Leaves :
    (protect : Key) (st st' : State) (e : Key × ℕ)
    → Leaves protect st st'
    → IsInRange st.objects e
    → IsInRange st'.objects e
IsInRange-Leaves protect st st' e f h p here =
    let (o, h', same) = (f.wears e.0).shape p here in omega (arith, h o h', same)

pub All-map {ℓ} :
    {A : Type ℓ} (P Q : A → Type 0) (xs : List A) → ((x : A) → P x → Q x) → All P xs → All Q xs
All-map P Q [] f a = tt
All-map P Q (x ∷ xs) f a = (f x a.0, All-map P Q xs f a.1)

pub All-retain :
    (P : ReplicaEntry → Type 0) (keep : ReplicaEntry → Bool) (rs : List ReplicaEntry)
    → All P rs
    → All P (retain keep rs)
unfolding retain
All-retain P keep [] a = tt
All-retain P keep (r ∷ rs) a = ground (arith, All-retain P keep rs a.1)

pub has_pool-release_buf :
    (b : PoolBuf) (st : State) (n : ℕ) → has_pool (release_buf b st) n ≡ has_pool st n
unfolding has_pool release_buf update
has_pool-release_buf b st n = ground arith

-- The drop of replicas is about the pools only.
pub drop_replica_lem :
    (r : ReplicaEntry) (st : State)
    → ((drop_replica r st).objects ≡ st.objects)
      × ((drop_replica r st).fifo ≡ st.fifo)
      × ((drop_replica r st).readers ≡ st.readers)
      × ((n : ℕ) → has_pool (drop_replica r st) n ≡ has_pool st n)
unfolding drop_replica release_buf
drop_replica_lem r st =
    (ground arith, ground arith, ground arith, λ n. grind (arith, has_pool-release_buf))

pub drop_replicas_lem :
    (rs : List ReplicaEntry) (st : State)
    → ((drop_replicas rs st).objects ≡ st.objects)
      × ((drop_replicas rs st).fifo ≡ st.fifo)
      × ((drop_replicas rs st).readers ≡ st.readers)
      × ((n : ℕ) → has_pool (drop_replicas rs st) n ≡ has_pool st n)
unfolding drop_replicas
drop_replicas_lem [] st = (refl, refl, refl, λ n. refl)
drop_replicas_lem (r ∷ rs) st =
    let (a, b, c, d) = drop_replica_lem r st in
    let (a', b', c', d') = drop_replicas_lem rs (drop_replica r st) in
    (a' ∙ a, b' ∙ b, c' ∙ c, λ n. d' n ∙ d n)

pub release_buf_lem :
    (b : PoolBuf) (st : State)
    → ((release_buf b st).objects ≡ st.objects)
      × ((release_buf b st).fifo ≡ st.fifo)
      × ((release_buf b st).readers ≡ st.readers)
      × ((n : ℕ) → has_pool (release_buf b st) n ≡ has_pool st n)
unfolding release_buf
release_buf_lem b st = (ground arith, ground arith, ground arith, has_pool-release_buf b st)

pub release_buf-IsSound : (b : PoolBuf) (st : State) → IsSound st → IsSound (release_buf b st)
release_buf-IsSound b st v =
    let (o, f, r, kept) = release_buf_lem b st in
    record {
      sorted = rw o v.sorted;
      fit = rw o v.fit;
      queues = λ n h.
          let (q, e) = v.queues n (sym (kept n) ∙ h) in
          (q, ap (λ (g : Device → Option (List (Key × ℕ))). g (cpu n)) f ∙ e);
      queued = λ d q h.
          rw o (v.queued d q (ap (λ (g : Device → Option (List (Key × ℕ))). g d) (sym f) ∙ h));
    }

-- A write of a map leaves what is there defined.
pub update-some {ℓ κ} :
    {K : Type ℓ} {V : Type κ} (dec : Discrete K) (f : K → Option V) (k j : K) (v : V) {x : V}
    → f j ≡ some x
    → (y : V) × (update dec f k (some v) j ≡ some y)
update-some dec f k j v {x} h = elim (dec j k) [
  | yes e ↦ (v, ap (update dec f k (some v)) e ∙ update_self dec f k (some v))
  | no n ↦ (x, update_ne dec f k j (some v) n ∙ h)
]

-- A state with other pools on the same nodes.
module _ (st : State) (pools : ℕ → Option PinnedPool)
    (same : (n : ℕ) → has_pool (record st { pools = pools }) n ≡ has_pool st n) where
  pub pools-IsSound : IsSound st → IsSound (record st { pools = pools })
  pools-IsSound v = record {
    sorted = v.sorted;
    fit = v.fit;
    queues = λ n h. v.queues n (sym (same n) ∙ h);
    queued = v.queued;
  }

  pub pools-Leaves : (protect : Key) → Leaves protect st (record st { pools = pools })
  pools-Leaves protect = record {
    wears = λ k. Wears-same _ _ refl;
    protected = refl;
    pooled = same;
    reading = refl;
  }
