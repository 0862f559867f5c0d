-- ===== src/Wdmalloc/Blocks.antt =====
-- The heap of kernel/mem/wdmalloc.c as a list of blocks, and what it means that the bytes between
-- `heap_start` and its end are these blocks and the free list links the free ones.
use waddle_os.Base.{
  ℕ, suc, ◌+◌, ◌*◌, ◌^◌, ◌≤◌, ◌<◌, ◌≡◌, refl, ◌≢◌, ◌⊎◌, inl, inr, Bool, true, false, not, ◌||◌,
  ◌&&◌, ◌==◌, ltb, leb, List, [], ◌∷◌, ◌++◌, length, bit_or, ap, Bool-cases, arith,
}
use waddle_os.Memory.{Memory}
use waddle_os.LinkedList.Ring.{has, Distinct}
use waddle_os.Wdmalloc.{Wd, prev_sz_at, sz_at, lom_at, alloc_bit}

-- A block and the bytes behind its header.
pub data Block : Type 0 where
  free : ℕ → Block
  used : ℕ → Block

abbrev pub bytes_of : Block → ℕ
bytes_of (free s) = s
bytes_of (used s) = s

abbrev pub is_unused : Block → Bool
is_unused (free s) = true
is_unused (used s) = false

-- Its size field.
abbrev pub field_of : Block → ℕ
field_of (free s) = s
field_of (used s) = bit_or s alloc_bit

-- The bytes of the blocks with their headers.
abbrev pub extent : List Block → ℕ
extent [] = 0
extent (b ∷ bs) = 12 + bytes_of b + extent bs

abbrev pub free_count : List Block → ℕ
free_count [] = 0
free_count (free s ∷ bs) = suc (free_count bs)
free_count (used s ∷ bs) = free_count bs

-- The size of the last block, or `d`.
abbrev pub last_size : ℕ → List Block → ℕ
last_size d [] = d
last_size d (b ∷ bs) = last_size (bytes_of b) bs

-- Whether the header of a free block lies at `q`, if the blocks lie from `p` on.
abbrev pub free_at : ℕ → List Block → ℕ → Bool
free_at p [] q = false
free_at p (b ∷ bs) q = (is_unused b && (q == p)) || free_at (p + (12 + bytes_of b)) bs q

-- Whether `a` is a byte of an allocated block, behind its header.
abbrev pub used_at : ℕ → List Block → ℕ → Bool
used_at p [] a = false
used_at p (b ∷ bs) a =
    (not (is_unused b) && (leb (p + 12) a && ltb a (p + (12 + bytes_of b))))
    || used_at (p + (12 + bytes_of b)) bs a

-- The headers of the blocks from `p` on, the first of which has a block of `d` bytes before it.
abbrev pub Tiles : Memory → ℕ → ℕ → List Block → Type 0
Tiles m p d [] = Unit {0}
Tiles m p d (b ∷ bs) =
    (prev_sz_at m p ≡ d)
    × (sz_at m p ≡ field_of b)
    × Tiles m (p + (12 + bytes_of b)) (bytes_of b) bs

-- The links lead from `a` through the headers at `fs` to NULL.
abbrev pub Chain : Memory → ℕ → List ℕ → Type 0
Chain m a [] = a ≡ 0
Chain m a (f ∷ fs) = (a ≡ f) × Chain m (lom_at m f) fs

-- The heap of `size` bytes at `start` consists of the blocks `bs`.
pub record IsHeap (w : Wd) (start size : ℕ) (bs : List Block) : Type 0 where
  pub from : w.heap_start ≡ start
  pub bytes : w.heap_size ≡ size
  pub real : start ≢ 0
  pub ends : start + size < 2 ^ 64
  pub small : size < 2 ^ 15 + 12
  pub whole : extent bs ≡ size
  pub tiles : Tiles w.mem start 0 bs
  pub free_list : List ℕ
  pub chain : Chain w.mem w.freelist_head free_list
  pub distinct : Distinct free_list
  pub listed : (q : ℕ) → has q free_list ≡ free_at start bs q
  pub count : length free_list ≡ free_count bs

pub extent-append : (xs ys : List Block) → extent (xs ++ ys) ≡ extent xs + extent ys
extent-append [] ys = omega arith
extent-append (b ∷ xs) ys = omega (arith, extent-append xs ys)

-- Blocks that have a byte have a header.
pub le-extent : (bs : List Block) → 0 < extent bs → 12 ≤ extent bs
le-extent [] h = absurd (omega arith)
le-extent (b ∷ bs) h = omega arith

pub extent-cases : (bs : List Block) → (extent bs ≡ 0) ⊎ (12 ≤ extent bs)
extent-cases [] = inl refl
extent-cases (b ∷ bs) = inr (omega arith)

pub free_count-append : (xs ys : List Block) → free_count (xs ++ ys) ≡ free_count xs + free_count ys
free_count-append [] ys = omega arith
free_count-append (free s ∷ xs) ys = omega (arith, free_count-append xs ys)
free_count-append (used s ∷ xs) ys = free_count-append xs ys

pub le_extent-free_count : (bs : List Block) → 12 * free_count bs ≤ extent bs
le_extent-free_count [] = omega arith
le_extent-free_count (free s ∷ bs) = omega (arith, le_extent-free_count bs)
le_extent-free_count (used s ∷ bs) = omega (arith, le_extent-free_count bs)

pub free_at-append :
    (p : ℕ) (xs ys : List Block) (r q : ℕ)
    → r ≡ p + extent xs
    → free_at p (xs ++ ys) q ≡ (free_at p xs q || free_at r ys q)
free_at-append p [] ys r q e = let e' : r ≡ p = omega arith in rw e' refl
free_at-append p (b ∷ xs) ys r q e =
    ground (arith, free_at-append (p + (12 + bytes_of b)) xs ys r q (omega arith))

pub used_at-append :
    (p : ℕ) (xs ys : List Block) (r a : ℕ)
    → r ≡ p + extent xs
    → used_at p (xs ++ ys) a ≡ (used_at p xs a || used_at r ys a)
used_at-append p [] ys r a e = let e' : r ≡ p = omega arith in rw e' refl
used_at-append p (b ∷ xs) ys r a e =
    ground (arith, used_at-append (p + (12 + bytes_of b)) xs ys r a (omega arith))

-- A free block lies between the ends of the blocks.
pub free_at-within :
    (p : ℕ) (bs : List Block) (q : ℕ) → free_at p bs q ≡ true → (p ≤ q) × (q + 12 ≤ p + extent bs)
free_at-within p [] q h = ground arith
free_at-within p (b ∷ bs) q h = ground (arith, free_at-within (p + (12 + bytes_of b)) bs q)

pub used_at-within :
    (p : ℕ) (bs : List Block) (a : ℕ) → used_at p bs a ≡ true → (p + 12 ≤ a) × (a < p + extent bs)
used_at-within p [] a h = ground arith
used_at-within p (b ∷ bs) a h = ground (arith, used_at-within (p + (12 + bytes_of b)) bs a)

-- Where a free block lies in the list.
pub free_at-split :
    (p : ℕ) (bs : List Block) (q : ℕ)
    → free_at p bs q ≡ true
    → (xs : List Block) × (s : ℕ) × (ys : List Block) × (bs ≡ xs ++ (free s ∷ ys))
      × (q ≡ p + extent xs)
free_at-split p [] q h = absurd (ground arith)
free_at-split p (free s ∷ bs) q h = elim (Bool-cases (q == p)) [
  | inl here ↦ ([], s, bs, refl, ground arith)
  | inr behind ↦
      let (xs, t, ys, e, at) = free_at-split (p + (12 + s)) bs q (ground arith) in
      (free s ∷ xs, t, ys, ap (◌∷◌ (free s)) e, omega arith)
]
free_at-split p (used s ∷ bs) q h =
    let (xs, t, ys, e, at) = free_at-split (p + (12 + s)) bs q h in
    (used s ∷ xs, t, ys, ap (◌∷◌ (used s)) e, omega arith)
