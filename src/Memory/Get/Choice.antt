-- ===== src/Memory/Get/Choice.antt =====
-- The choice of the replica: `min_by_key` over distance and tier.
use pegastore.Prelude.{
  ℕ, ◌≡◌, ◌<◌, ◌≤◌, ◌⊎◌, inl, inr, refl, ap, sym, ◌∙◌, subst, Bool, true, false, some, List, [],
  ◌∷◌, ◌++◌, arith, All, if◌then◌else◌,
}
use pegastore.Core.Types.{Device, Tier, dram, ssd}
use pegastore.Memory.State.{ReplicaEntry, Inner, distance, tier_rank}
use pegastore.Memory.Get.{rank, is_below, nearest, min_from}

-- The first of the least by `is_below`.
record IsFirst (inner : Inner) (d : Device) (rs : List ReplicaEntry) (r : ReplicaEntry)
    : Type 0 where
  before : List ReplicaEntry
  after : List ReplicaEntry
  split : rs ≡ before ++ r ∷ after
  above : All (λ q. is_below (rank inner d r) (rank inner d q) ≡ true) before
  least : All (λ q. is_below (rank inner d q) (rank inner d r) ≡ false) after

-- The order of the tiers, the fastest first.
pub data IsFaster : Tier → Tier → Type 0 where
  dram_external : IsFaster dram Tier.external
  dram_ssd : IsFaster dram ssd
  external_ssd : IsFaster Tier.external ssd

tier_rank-Faster : (s t : Tier) → tier_rank s < tier_rank t → IsFaster s t
unfolding tier_rank
tier_rank-Faster dram dram h = absurd (omega arith)
tier_rank-Faster dram Tier.external h = dram_external
tier_rank-Faster dram ssd h = dram_ssd
tier_rank-Faster Tier.external dram h = absurd (omega arith)
tier_rank-Faster Tier.external Tier.external h = absurd (omega arith)
tier_rank-Faster Tier.external ssd h = external_ssd
tier_rank-Faster ssd dram h = absurd (omega arith)
tier_rank-Faster ssd Tier.external h = absurd (omega arith)
tier_rank-Faster ssd ssd h = absurd (omega arith)

tier_rank-AsFast : (s t : Tier) → tier_rank s ≤ tier_rank t → (s ≡ t) ⊎ IsFaster s t
unfolding tier_rank
tier_rank-AsFast dram dram h = inl refl
tier_rank-AsFast dram Tier.external h = inr dram_external
tier_rank-AsFast dram ssd h = inr dram_ssd
tier_rank-AsFast Tier.external dram h = absurd (omega arith)
tier_rank-AsFast Tier.external Tier.external h = inl refl
tier_rank-AsFast Tier.external ssd h = inr external_ssd
tier_rank-AsFast ssd dram h = absurd (omega arith)
tier_rank-AsFast ssd Tier.external h = absurd (omega arith)
tier_rank-AsFast ssd ssd h = inl refl

is_below_trans : (a b c : ℕ × ℕ) → is_below a b ≡ true → is_below b c ≡ true → is_below a c ≡ true
unfolding is_below
is_below_trans (a, a') (b, b') (c, c') h k = ground arith

is_below_not : (a b c : ℕ × ℕ) → is_below a b ≡ true → is_below c b ≡ false → is_below a c ≡ true
unfolding is_below
is_below_not (a, a') (b, b') (c, c') h k = ground arith

module _ (inner : Inner) (d : Device) where
  replaced :
      (best r m : ReplicaEntry) (rs bs later : List ReplicaEntry)
      → is_below (rank inner d r) (rank inner d best) ≡ true
      → r ∷ rs ≡ bs ++ m ∷ later
      → All (λ q. is_below (rank inner d m) (rank inner d q) ≡ true) bs
      → All (λ q. is_below (rank inner d q) (rank inner d m) ≡ false) later
      → IsFirst inner d (best ∷ r ∷ rs) m
  replaced best r m rs [] later e split above least =
      let same : r ≡ m = cc in
      record {
        before = best ∷ [];
        after = later;
        split = ap (λ xs. best ∷ xs) split;
        above = (ap (λ x. is_below (rank inner d x) (rank inner d best)) (sym same) ∙ e, tt);
        least = least;
      }
  replaced best r m rs (b ∷ bs) later e split above least =
      let same : r ≡ b = cc in
      record {
        before = best ∷ b ∷ bs;
        after = later;
        split = ap (λ xs. best ∷ xs) split;
        above = (
          is_below_trans (rank inner d m) (rank inner d b) (rank inner d best) above.0
              (ap (λ x. is_below (rank inner d x) (rank inner d best)) (sym same) ∙ e),
          above,
        );
        least = least;
      }

  stayed :
      (best r m : ReplicaEntry) (rs bs later : List ReplicaEntry)
      → is_below (rank inner d r) (rank inner d best) ≡ false
      → best ∷ rs ≡ bs ++ m ∷ later
      → All (λ q. is_below (rank inner d m) (rank inner d q) ≡ true) bs
      → All (λ q. is_below (rank inner d q) (rank inner d m) ≡ false) later
      → IsFirst inner d (best ∷ r ∷ rs) m
  stayed best r m rs [] later e split above least =
      let same : best ≡ m = cc in
      let tail : rs ≡ later = cc in
      record {
        before = [];
        after = r ∷ later;
        split = ap (λ x. x ∷ r ∷ rs) same ∙ ap (λ xs. m ∷ r ∷ xs) tail;
        above = tt;
        least = (ap (λ x. is_below (rank inner d r) (rank inner d x)) (sym same) ∙ e, least);
      }
  stayed best r m rs (b ∷ bs) later e split above least =
      let same : best ≡ b = cc in
      let tail : rs ≡ bs ++ m ∷ later = cc in
      let below : is_below (rank inner d m) (rank inner d best) ≡ true =
        ap (λ x. is_below (rank inner d m) (rank inner d x)) same ∙ above.0 in
      record {
        before = best ∷ r ∷ bs;
        after = later;
        split = ap (λ xs. best ∷ r ∷ xs) tail;
        above = (
          below,
          (is_below_not (rank inner d m) (rank inner d best) (rank inner d r) below e, above.1),
        );
        least = least;
      }

  least_of_tail :
      (best r : ReplicaEntry) (rs : List ReplicaEntry) (b : Bool)
      → is_below (rank inner d r) (rank inner d best) ≡ b
      → ((c : ReplicaEntry) → IsFirst inner d (c ∷ rs) (min_from inner d c rs))
      → IsFirst inner d (best ∷ r ∷ rs) (min_from inner d (if b then r else best) rs)
  least_of_tail best r rs true e f =
      let h = f r in replaced best r _ rs h.before h.after e h.split h.above h.least
  least_of_tail best r rs false e f =
      let h = f best in stayed best r _ rs h.before h.after e h.split h.above h.least

  min_from-IsFirst :
      (best : ReplicaEntry) (rs : List ReplicaEntry)
      → IsFirst inner d (best ∷ rs) (min_from inner d best rs)
  unfolding min_from
  min_from-IsFirst best [] = record {
    before = [];
    after = [];
    split = refl;
    above = tt;
    least = tt;
  }
  min_from-IsFirst best (r ∷ rs) = least_of_tail best r rs _ refl λ c. min_from-IsFirst c rs

  nearest-IsFirst :
      (rs : List ReplicaEntry) (r : ReplicaEntry)
      → nearest inner d rs ≡ some r
      → IsFirst inner d rs r
  unfolding nearest
  nearest-IsFirst [] r h = absurd (ground arith)
  nearest-IsFirst (q ∷ rs) r h =
      let same : min_from inner d q rs ≡ r = cc in
      subst (IsFirst inner d (q ∷ rs)) same (min_from-IsFirst q rs)

  -- A replica is strictly nearer than another: its device is closer to the destination, or it is as
  -- close and its tier is a faster one.
  abbrev pub IsNearer : ReplicaEntry → ReplicaEntry → Type 0
  IsNearer r q =
      (distance inner d r.device < distance inner d q.device)
      ⊎ ((distance inner d r.device ≡ distance inner d q.device) × IsFaster r.tier q.tier)

  -- A replica is as near as another, or nearer.
  abbrev pub IsAsNear : ReplicaEntry → ReplicaEntry → Type 0
  IsAsNear r q =
      (distance inner d r.device < distance inner d q.device)
      ⊎ ((distance inner d r.device ≡ distance inner d q.device)
          × ((r.tier ≡ q.tier) ⊎ IsFaster r.tier q.tier))

  -- The first of the nearest: it is nearer than those before it, and as near as those after it.
  pub record IsFirstNearest (rs : List ReplicaEntry) (r : ReplicaEntry) : Type 0 where
    pub before : List ReplicaEntry
    pub after : List ReplicaEntry
    pub split : rs ≡ before ++ r ∷ after
    pub above : All (λ q. IsNearer r q) before
    pub least : All (λ q. IsAsNear r q) after

  nearer_lem :
      (r q : ReplicaEntry) → is_below (rank inner d r) (rank inner d q) ≡ true → IsNearer r q
  unfolding is_below rank
  nearer_lem r q h =
      let faster : tier_rank r.tier < tier_rank q.tier → IsFaster r.tier q.tier =
        tier_rank-Faster r.tier q.tier in
      ground arith

  as_near_lem :
      (r q : ReplicaEntry) → is_below (rank inner d q) (rank inner d r) ≡ false → IsAsNear r q
  unfolding is_below rank
  as_near_lem r q h = let faster = tier_rank-AsFast r.tier q.tier in ground arith

  All-lem :
      (P Q : ReplicaEntry → Type 0) (rs : List ReplicaEntry)
      → ((q : ReplicaEntry) → P q → Q q)
      → All P rs
      → All Q rs
  All-lem P Q [] f a = tt
  All-lem P Q (q ∷ rs) f a = (f q a.0, All-lem P Q rs f a.1)

  -- A read takes its bytes from the first of the nearest replicas: those before it are farther from
  -- the destination, or as far and on a slower tier; those after it are farther, or as far and on
  -- the same tier or a slower one. Dram is the fastest tier, then external memory, then ssd.
  pub nearest-IsFirstNearest :
      (rs : List ReplicaEntry) (r : ReplicaEntry)
      → nearest inner d rs ≡ some r
      → IsFirstNearest rs r
  nearest-IsFirstNearest rs r h =
      let f = nearest-IsFirst rs r h in
      record {
        before = f.before;
        after = f.after;
        split = f.split;
        above = All-lem _ _ f.before (nearer_lem r) f.above;
        least = All-lem _ _ f.after (as_near_lem r) f.least;
      }
