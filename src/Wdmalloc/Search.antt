-- ===== src/Wdmalloc/Search.antt =====
-- The best-fit search of `wdmalloc` along a free list.
use waddle_os.Base.{
  ℕ, zero, suc, ◌^◌, ◌≤◌, ◌<◌, ◌≡◌, refl, ◌⊎◌, inl, inr, Bool, true, false, ◌&&◌, ltb, leb,
  if◌then◌else◌, List, [], ◌∷◌, ◌++◌, length, ne→==, Bool-cases, ◌==◌, arith, ok, ap,
}
use waddle_os.Memory.{Memory}
use waddle_os.LinkedList.Ring.{has, last}
use waddle_os.Wdmalloc.{Wd, Best, sz_at, lom_at, is_free, find_best}
use waddle_os.Wdmalloc.Blocks.{Chain}
use waddle_os.Wdmalloc.Limits.{is_free-true}

-- The best of the blocks at `fs` for `n` bytes, if `best` is the best one before them.
abbrev pub search : Memory → ℕ → List ℕ → ℕ → Best → Best
search m n [] prev best = best
search m n (f ∷ fs) prev best = search m n fs f (
    if is_free (sz_at m f) && (leb n (sz_at m f) && ltb (sz_at m f) best.min_sz)
    then record { min = f; min_prev = prev; min_sz = sz_at m f }
    else best)

-- The walk reads the blocks of the free list in order, and ends.
pub find_best-search :
    (w : Wd) (n fuel a : ℕ) (fs : List ℕ) (prev : ℕ) (best : Best)
    → length fs < fuel
    → has 0 fs ≡ false
    → Chain w.mem a fs
    → find_best fuel n a prev best w ≡ ok (search w.mem n fs prev best, w)
unfolding find_best
find_best-search w n zero a fs prev best h real c = absurd (omega arith)
find_best-search w n (suc fuel) a [] prev best h real c = rw c refl
find_best-search w n (suc fuel) a (f ∷ fs) prev best h real c =
    rw (c.0, ne→== f 0 (ground arith))
      (find_best-search w n fuel (lom_at w.mem f) fs f
        (if is_free (sz_at w.mem f) && (leb n (sz_at w.mem f) && ltb (sz_at w.mem f) best.min_sz)
          then record { min = f; min_prev = prev; min_sz = sz_at w.mem f }
          else best)
        (omega arith) (ground arith) c.1)

-- The search found `block`, and `min_prev` is the element before it, or `prev`.
pub record Chosen (m : Memory) (n : ℕ) (fs : List ℕ) (prev : ℕ) (r : Best) : Type 0 where
  pub before : List ℕ
  pub block : ℕ
  pub behind : List ℕ
  pub place : fs ≡ before ++ (block ∷ behind)
  pub result : r ≡ record { min = block; min_prev = last prev before; min_sz = sz_at m block }
  pub fits : n ≤ sz_at m block

Chosen-behind :
    (m : Memory) (n f : ℕ) (fs : List ℕ) (prev : ℕ) (r : Best)
    → Chosen m n fs f r
    → Chosen m n (f ∷ fs) prev r
Chosen-behind m n f fs prev r c = record {
  before = f ∷ c.before;
  block = c.block;
  behind = c.behind;
  place = ap (◌∷◌ f) c.place;
  result = c.result;
  fits = c.fits;
}

-- No block at `fs` that fits is smaller than the one found.
abbrev pub Least : Memory → ℕ → List ℕ → Best → Type 0
Least m n fs r = (f : ℕ) → has f fs ≡ true → n ≤ sz_at m f → r.min_sz ≤ sz_at m f

-- What the search has found behind the blocks that gave it `best`.
abbrev pub Found : Memory → ℕ → List ℕ → ℕ → Best → Best → Type 0
Found m n fs prev best r =
    ((r ≡ best) ⊎ Chosen m n fs prev r) × (r.min_sz ≤ best.min_sz) × Least m n fs r

-- A block that is better than those before it.
Found-take :
    (m : Memory) (n f : ℕ) (fs : List ℕ) (prev : ℕ) (best r : Best)
    → n ≤ sz_at m f
    → sz_at m f < best.min_sz
    → Found m n fs f (record { min = f; min_prev = prev; min_sz = sz_at m f }) r
    → Found m n (f ∷ fs) prev best r
Found-take m n f fs prev best r fits less (which, low, least) = (
  elim which [
    | inl same ↦
        inr
          (record { before = []; block = f; behind = fs; place = refl; result = same; fits = fits })
    | inr later ↦ inr (Chosen-behind m n f fs prev r later)
  ],
  omega arith,
  λ g mem enough. elim (Bool-cases (g == f)) [
    | inl here ↦ let e : g ≡ f = ground arith in rw e low
    | inr there ↦ least g (ground arith) enough
  ],
)

Found-skip :
    (m : Memory) (n f : ℕ) (fs : List ℕ) (prev : ℕ) (best r : Best)
    → (n ≤ sz_at m f → best.min_sz ≤ sz_at m f)
    → Found m n fs f best r
    → Found m n (f ∷ fs) prev best r
Found-skip m n f fs prev best r worse (which, low, least) = (
  elim which [ inl same ↦ inl same | inr later ↦ inr (Chosen-behind m n f fs prev r later) ],
  low,
  λ g mem enough. elim (Bool-cases (g == f)) [
    | inl here ↦
        let e : g ≡ f = ground arith in
        let e' = ap (sz_at m) e in omega (arith, worse (omega arith))
    | inr there ↦ least g (ground arith) enough
  ],
)

Found-step :
    (m : Memory) (n f : ℕ) (fs : List ℕ) (prev : ℕ) (best r : Best) (better : Bool)
    → (better ≡ true → (n ≤ sz_at m f) × (sz_at m f < best.min_sz))
    → (better ≡ false → n ≤ sz_at m f → best.min_sz ≤ sz_at m f)
    → Found m n fs f
        (if better then record { min = f; min_prev = prev; min_sz = sz_at m f } else best)
        r
    → Found m n (f ∷ fs) prev best r
Found-step m n f fs prev best r true so else_ rest =
    Found-take m n f fs prev best r (so refl).0 (so refl).1 rest
Found-step m n f fs prev best r false so else_ rest =
    Found-skip m n f fs prev best r (else_ refl) rest

-- The search finds the first of the smallest blocks that fit, if it finds one.
pub search-Found :
    (m : Memory) (n : ℕ) (fs : List ℕ) (prev : ℕ) (best : Best)
    → ((f : ℕ) → has f fs ≡ true → sz_at m f < 2 ^ 15)
    → Found m n fs prev best (search m n fs prev best)
search-Found m n [] prev best h = (inl refl, omega arith, λ f mem. absurd (ground arith))
search-Found m n (f ∷ fs) prev best h =
    let fine = is_free-true (sz_at m f) (h f (ground arith)) in
    Found-step m n f fs prev best _
      (is_free (sz_at m f) && (leb n (sz_at m f) && ltb (sz_at m f) best.min_sz))
      (λ so. (ground arith, ground arith)) (λ worse fit. ground arith)
      (search-Found m n fs f _ (λ g mem. h g (ground arith)))
