-- ===== src/Cuda/Pinned/FreeList.antt =====
-- The free list as a set of offsets, and the round trip of an allocation.
use pegastore.Prelude.{
  ℕ, ◌+◌, ◌-◌, ◌≤◌, ◌<◌, ◌≡◌, ◌∙◌, ap, refl, sym, Bool, true, false, Option, none, some, [], ◌∷◌,
  arith, leb, ◌==◌, if◌then◌else◌, Bool-cases, inl, inr, leb→le, ==_iff, subst, ◌↔◌, ◌⊎◌, ◌≢◌,
  dec_lt,
}
use pegastore.Cuda.Pinned.{
  Free, take_first, release, take_below, drop_below, join_next, join_prev, join_last, free_bytes,
  largest_free,
}

-- Ranges that are not empty, ascend from a bound, and do not touch.
abbrev pub IsFree : ℕ → Free → Type 0
IsFree lo [] = Unit {0}
IsFree lo ((o, l) ∷ fs) = (lo ≤ o) × (0 < l) × IsFree (o + l + 1) fs

IsFree-le : (lo hi : ℕ) (fs : Free) → lo ≤ hi → IsFree hi fs → IsFree lo fs
IsFree-le lo hi [] h f = tt
IsFree-le lo hi ((o, l) ∷ fs) h f = (omega arith, f.1, f.2)

-- The release of a range below the list.
release-below :
    (off len lo : ℕ) (fs : Free)
    → IsFree lo fs
    → off < lo
    → release off len fs ≡ join_next off len fs
unfolding release take_below drop_below join_last
release-below off len lo [] f h = refl
release-below off len lo ((o, l) ∷ fs) f h = ground arith

-- The release of a range above the first range: that one is joined if it is the predecessor.
release-after :
    (off len o l : ℕ) (fs : Free)
    → o < off
    → release off len ((o, l) ∷ fs) ≡ elim (take_below off fs) [
      | [] ↦ join_prev o l (release off len fs)
      | b ∷ bs ↦ (o, l) ∷ release off len fs
    ]
unfolding release take_below drop_below join_last
release-after off len o l fs h = ground arith

join_prev-apart : (o l : ℕ) (fs : Free) → IsFree (o + l + 1) fs → join_prev o l fs ≡ (o, l) ∷ fs
unfolding join_prev
join_prev-apart o l [] f = refl
join_prev-apart o l ((p, m) ∷ fs) f = ground arith

join_next-apart : (o l : ℕ) (fs : Free) → IsFree (o + l + 1) fs → join_next o l fs ≡ (o, l) ∷ fs
unfolding join_next
join_next-apart o l [] f = refl
join_next-apart o l ((p, m) ∷ fs) f = ground arith

release-apart :
    (off len o l : ℕ) (fs gs : Free)
    → o < off
    → release off len fs ≡ gs
    → IsFree (o + l + 1) gs
    → release off len ((o, l) ∷ fs) ≡ (o, l) ∷ gs
release-apart off len o l fs gs lt same f = release-after off len o l fs lt ∙ go (take_below off fs)
  where
    go :
        (bs : Free)
        → elim bs as (λ _. Free) [
          | [] ↦ join_prev o l (release off len fs)
          | b ∷ bs ↦ (o, l) ∷ release off len fs
        ]
          ≡ (o, l) ∷ gs
    go [] = ap (join_prev o l) same ∙ join_prev-apart o l gs f
    go (b ∷ bs) = ap (λ x. (o, l) ∷ x) same

-- What an allocation from the list comes to.
abbrev pub Takes : ℕ → ℕ → Free → ℕ → Free → Type 0
Takes lo need fs off gs =
    (lo ≤ off) × IsFree lo gs × (free_bytes fs ≡ need + free_bytes gs) × (release off need gs ≡ fs)

joined :
    (need o l : ℕ) (fs : Free)
    → need ≤ l
    → join_next o need ((o + need, l - need) ∷ fs) ≡ (o, l) ∷ fs
unfolding join_next
joined need o l fs h = ground arith

-- The first range is taken whole, or from its start.
head-Takes :
    (need lo o l : ℕ) (fs : Free)
    → 0 < need
    → IsFree lo ((o, l) ∷ fs)
    → need ≤ l
    → Takes lo need ((o, l) ∷ fs) o (if l == need then fs else (o + need, l - need) ∷ fs)
unfolding free_bytes
head-Takes need lo o l fs pos f fits = elim (Bool-cases (l == need)) [
  | inl t ↦
      let same : l ≡ need = (==_iff l need).0 t in
      rw t (
        f.0,
        IsFree-le lo (o + l + 1) fs (omega arith) f.2,
        omega arith,
        release-below o need (o + l + 1) fs f.2 (omega arith)
            ∙ ap (λ n. join_next o n fs) (sym same)
            ∙ join_next-apart o l fs f.2,
      )
  | inr n ↦
      let more : need < l = ground arith in
      let rest : o + need + (l - need) ≡ o + l = omega arith in
      let tail : IsFree (o + need) ((o + need, l - need) ∷ fs) =
        (omega arith, omega arith, subst (λ e. IsFree (e + 1) fs) (sym rest) f.2) in
      rw n (
        f.0,
        IsFree-le lo (o + need) ((o + need, l - need) ∷ fs) (omega arith) tail,
        omega arith,
        release-below o need (o + need) ((o + need, l - need) ∷ fs) tail (omega arith)
            ∙ joined need o l fs fits,
      )
]

later-Takes :
    (need lo o l : ℕ) (fs : Free) (off : ℕ) (gs : Free)
    → IsFree lo ((o, l) ∷ fs)
    → Takes (o + l + 1) need fs off gs
    → Takes lo need ((o, l) ∷ fs) off ((o, l) ∷ gs)
unfolding free_bytes
later-Takes need lo o l fs off gs f (above, free, sum, back) = (
  omega arith,
  (f.0, f.1, free),
  omega arith,
  release-apart off need o l gs fs (omega arith) back f.2,
)

pub take_first-Takes :
    (need lo : ℕ) (fs : Free) (off : ℕ) (gs : Free)
    → 0 < need
    → IsFree lo fs
    → take_first need fs ≡ some (off, gs)
    → Takes lo need fs off gs
unfolding take_first
take_first-Takes need lo [] off gs pos f h = absurd (ground arith)
take_first-Takes need lo ((o, l) ∷ fs) off gs pos f h =
    go (leb need l) refl (take_first need fs)
      (λ off' gs' e. take_first-Takes need (o + l + 1) fs off' gs' pos f.2 e) h
  where
    go :
        (b : Bool)
        → leb need l ≡ b
        → (q : Option (ℕ × Free))
        → ((off' : ℕ) (gs' : Free) → q ≡ some (off', gs') → Takes (o + l + 1) need fs off' gs')
        → (if b
            then some (o, if l == need then fs else (o + need, l - need) ∷ fs)
            else elim q as (λ _. Option (ℕ × Free)) [
              | none ↦ none
              | some r ↦ some (r.0, (o, l) ∷ r.1)
            ])
          ≡ some (off, gs)
        → Takes lo need ((o, l) ∷ fs) off gs
    go true e q later same =
        let e1 : o ≡ off = cc in
        let e2 : (if l == need then fs else (o + need, l - need) ∷ fs) ≡ gs = cc in
        rw (← e1, ← e2) (head-Takes need lo o l fs pos f (leb→le need l e))
    go false e none later same = absurd (ground arith)
    go false e (some (off', gs')) later same =
        let e1 : off' ≡ off = cc in
        let e2 : (o, l) ∷ gs' ≡ gs = cc in
        rw (← e1, ← e2) (later-Takes need lo o l fs off' gs' f (later off' gs' refl))

take_first-some :
    (need : ℕ) (fs : Free) → fs ≢ [] → need ≤ largest_free fs → take_first need fs ≢ none
unfolding take_first largest_free
take_first-some need [] full h = absurd (full refl)
take_first-some need ((o, l) ∷ []) full h = ground arith
take_first-some need ((o, l) ∷ (p, k) ∷ fs) full h =
    ground (arith, take_first-some need ((p, k) ∷ fs) (λ e. absurd (ground arith)))

take_first-none :
    (need : ℕ) (fs : Free) → (largest_free fs < need) ⊎ (fs ≡ []) → take_first need fs ≡ none
unfolding take_first largest_free
take_first-none need [] h = refl
take_first-none need ((o, l) ∷ fs) (inr e) = absurd (ground arith)
take_first-none need ((o, l) ∷ fs) (inl h) = ground (arith, take_first-none need fs)

-- No range is long enough exactly when the largest is too short or there is none.
pub take_first-none_iff :
    (need : ℕ) (fs : Free) → (take_first need fs ≡ none) ↔ ((largest_free fs < need) ⊎ (fs ≡ []))
take_first-none_iff need [] = (λ h. inr refl, take_first-none need [])
take_first-none_iff need ((o, l) ∷ fs) = (
  λ h. elim (dec_lt (largest_free ((o, l) ∷ fs)) need) [
    | yes t ↦ inl t
    | no f ↦
        let le : need ≤ largest_free ((o, l) ∷ fs) = omega arith in
        absurd (take_first-some need ((o, l) ∷ fs) (λ e. absurd (ground arith)) le h)
  ],
  take_first-none need ((o, l) ∷ fs),
)
