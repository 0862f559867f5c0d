-- ===== src/Wdmalloc/Tiling.antt =====
-- How a memory keeps the headers of blocks, and the links of a free list, that a write misses.
use waddle_os.Base.{
  ℕ, ◌+◌, ◌≤◌, ◌<◌, ◌≡◌, ◌∙◌, ◌⊎◌, inl, inr, true, List, [], ◌∷◌, ◌++◌, ◌&&◌, ◌==◌, Bool-cases,
  arith,
}
use waddle_os.Memory.{Memory, write_field}
use waddle_os.Memory.Fields.{read_field-same, read_field-disjoint, write_field-outside}
use waddle_os.Wdmalloc.{prev_sz_at, sz_at, lom_at}
use waddle_os.Wdmalloc.Blocks.{
  Block, bytes_of, extent, last_size, is_unused, Tiles, le-extent, free_at, used_at, free_at-within,
  used_at-within, free, used,
}

-- The bytes from `p` to before `q` are the same.
abbrev pub Same : Memory → Memory → ℕ → ℕ → Type 0
Same m m' p q = (a : ℕ) → p ≤ a → a < q → m' a ≡ m a

pub sz_at-Same : (m m' : Memory) (p : ℕ) → Same m m' (p + 2) (p + 4) → sz_at m' p ≡ sz_at m p
sz_at-Same m m' p h = read_field-same 2 m m' (p + 2) (λ a low high. h a (omega arith) (omega arith))

pub prev_sz_at-Same :
    (m m' : Memory) (p : ℕ) → Same m m' p (p + 2) → prev_sz_at m' p ≡ prev_sz_at m p
prev_sz_at-Same m m' p h = read_field-same 2 m m' p (λ a low high. h a low high)

pub lom_at-Same : (m m' : Memory) (p : ℕ) → Same m m' (p + 4) (p + 12) → lom_at m' p ≡ lom_at m p
lom_at-Same m m' p h =
    read_field-same 8 m m' (p + 4) (λ a low high. h a (omega arith) (omega arith))

pub Tiles-prev_sz :
    (m : Memory) (p d : ℕ) (bs : List Block) → Tiles m p d bs → 0 < extent bs → prev_sz_at m p ≡ d
Tiles-prev_sz m p d [] t more = absurd (omega arith)
Tiles-prev_sz m p d (b ∷ bs) t more = t.0

-- Blocks whose bytes are the same but for the first header's first field, which may say that the
-- block before them has changed.
pub Tiles-behind :
    (m m' : Memory) (p d d' : ℕ) (bs : List Block)
    → (0 < extent bs → prev_sz_at m' p ≡ d')
    → Same m m' (p + 2) (p + extent bs)
    → Tiles m p d bs
    → Tiles m' p d' bs
Tiles-behind m m' p d d' [] pv h t = tt
Tiles-behind m m' p d d' (b ∷ bs) pv h t = (
  pv (omega arith),
  sz_at-Same m m' p (λ a low high. h a low (omega arith)) ∙ t.1,
  Tiles-behind m m' (p + (12 + bytes_of b)) (bytes_of b) (bytes_of b) bs
      (λ more.
        prev_sz_at-Same m m' (p + (12 + bytes_of b))
          (λ a low high. h a (omega arith) (omega (arith, le-extent bs more)))
        ∙ Tiles-prev_sz m _ _ bs t.2 more)
      (λ a low high. h a (omega arith) (omega arith)) t.2,
)

pub Tiles-Same :
    (m m' : Memory) (p d : ℕ) (bs : List Block)
    → Same m m' p (p + extent bs)
    → Tiles m p d bs
    → Tiles m' p d bs
Tiles-Same m m' p d [] h t = tt
Tiles-Same m m' p d (b ∷ bs) h t =
    Tiles-behind m m' p d d (b ∷ bs)
      (λ more. prev_sz_at-Same m m' p (λ a low high. h a low (omega arith)) ∙ t.0)
      (λ a low high. h a (omega arith) high) t

pub Tiles-split :
    (m : Memory) (p d : ℕ) (xs ys : List Block) (q : ℕ)
    → q ≡ p + extent xs
    → Tiles m p d (xs ++ ys)
    → Tiles m p d xs × Tiles m q (last_size d xs) ys
Tiles-split m p d [] ys q e t = let e' : q ≡ p = omega arith in (tt, rw e' t)
Tiles-split m p d (b ∷ xs) ys q e t =
    let (front, back) =
      Tiles-split m (p + (12 + bytes_of b)) (bytes_of b) xs ys q (omega arith) t.2 in
    ((t.0, t.1, front), back)

pub Tiles-join :
    (m : Memory) (p d : ℕ) (xs ys : List Block) (q : ℕ)
    → q ≡ p + extent xs
    → Tiles m p d xs
    → Tiles m q (last_size d xs) ys
    → Tiles m p d (xs ++ ys)
Tiles-join m p d [] ys q e t u = let e' : p ≡ q = omega arith in rw e' u
Tiles-join m p d (b ∷ xs) ys q e t u =
    (t.0, t.1, Tiles-join m (p + (12 + bytes_of b)) (bytes_of b) xs ys q (omega arith) t.2 u)

-- The blocks `mid` become `mid'` of the same length, and nothing before them changes.
pub Tiles-edit :
    (m m' : Memory) (start : ℕ) (xs mid mid' ys : List Block) (q r : ℕ)
    → q ≡ start + extent xs
    → r ≡ q + extent mid
    → extent mid' ≡ extent mid
    → Same m m' start q
    → Tiles m' q (last_size 0 xs) mid'
    → (0 < extent ys → prev_sz_at m' r ≡ last_size (last_size 0 xs) mid')
    → Same m m' (r + 2) (r + extent ys)
    → Tiles m start 0 (xs ++ (mid ++ ys))
    → Tiles m' start 0 (xs ++ (mid' ++ ys))
Tiles-edit m m' start xs mid mid' ys q r at behind long low new pv high t =
    let (front, rest) = Tiles-split m start 0 xs (mid ++ ys) q at t in
    let (old, back) = Tiles-split m q (last_size 0 xs) mid ys r behind rest in
    Tiles-join m' start 0 xs (mid' ++ ys) q at
      (Tiles-Same m m' start 0 xs (λ a above below. low a above (omega arith)) front)
      (Tiles-join m' q (last_size 0 xs) mid' ys r (omega arith) new
        (Tiles-behind m m' r (last_size (last_size 0 xs) mid) _ ys pv high back))

-- A write to the link of a free block.
pub Tiles-set_lom :
    (m : Memory) (p d : ℕ) (bs : List Block) (f v : ℕ)
    → free_at p bs f ≡ true
    → Tiles m p d bs
    → Tiles (write_field 8 m (f + 4) v) p d bs
Tiles-set_lom m p d [] f v h t = tt
Tiles-set_lom m p d (b ∷ bs) f v h t = elim (Bool-cases (is_unused b && (f == p))) [
  | inl here ↦
      let e : f ≡ p = ground arith in
      (
        read_field-disjoint 2 8 m (f + 4) p v (inl (omega arith)) ∙ t.0,
        read_field-disjoint 2 8 m (f + 4) (p + 2) v (inl (omega arith)) ∙ t.1,
        Tiles-Same m (write_field 8 m (f + 4) v) (p + (12 + bytes_of b)) (bytes_of b) bs
            (λ a low high. write_field-outside 8 m (f + 4) v a (inr (omega arith))) t.2,
      )
  | inr there ↦
      let later : free_at (p + (12 + bytes_of b)) bs f ≡ true = ground arith in
      let (low, high) = free_at-within (p + (12 + bytes_of b)) bs f later in
      (
        read_field-disjoint 2 8 m (f + 4) p v (inl (omega arith)) ∙ t.0,
        read_field-disjoint 2 8 m (f + 4) (p + 2) v (inl (omega arith)) ∙ t.1,
        Tiles-set_lom m (p + (12 + bytes_of b)) (bytes_of b) bs f v later t.2,
      )
]

-- Two free blocks are the same or do not overlap, and none overlaps an allocated byte.
pub free_at-apart :
    (p : ℕ) (bs : List Block) (f g : ℕ)
    → free_at p bs f ≡ true
    → free_at p bs g ≡ true
    → (f ≡ g) ⊎ (f + 12 ≤ g) ⊎ (g + 12 ≤ f)
free_at-apart p [] f g h k = absurd (ground arith)
free_at-apart p (b ∷ bs) f g h k = ground (
  arith,
  free_at-apart (p + (12 + bytes_of b)) bs f g,
  free_at-within (p + (12 + bytes_of b)) bs f,
  free_at-within (p + (12 + bytes_of b)) bs g,
)

pub used_at-apart :
    (p : ℕ) (bs : List Block) (f a : ℕ)
    → free_at p bs f ≡ true
    → used_at p bs a ≡ true
    → (a < f) ⊎ (f + 12 ≤ a)
used_at-apart p [] f a h k = absurd (ground arith)
used_at-apart p (free s ∷ bs) f a h k =
    ground (arith, used_at-apart (p + (12 + s)) bs f a, used_at-within (p + (12 + s)) bs a)
used_at-apart p (used s ∷ bs) f a h k =
    ground (arith, used_at-apart (p + (12 + s)) bs f a, free_at-within (p + (12 + s)) bs f)
