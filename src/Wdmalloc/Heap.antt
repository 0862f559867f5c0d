-- ===== src/Wdmalloc/Heap.antt =====
-- What the free list says of the blocks of the kernel heap, and the blocks of the free list.
use waddle_os.Base.{
  ℕ, ◌+◌, ◌%◌, ◌^◌, ◌≤◌, ◌<◌, ◌≡◌, refl, ◌∙◌, ◌⊎◌, inl, inr, true, false, ltb, if◌then◌else◌, List,
  ◌∷◌, ◌++◌, length, lt→ltb, le→leb, Bool-cases, arith, sym,
}
use mathlib.Core.Path.{subst}
use waddle_os.Memory.{Memory, write_field}
use waddle_os.Memory.Fields.{read_field-write_field, write_field-outside}
use waddle_os.LinkedList.Ring.{has}
use waddle_os.Wdmalloc.{Wd, prev_sz_at, sz_at, in_heap, list_fuel}
use waddle_os.Wdmalloc.Blocks.{
  Block, free, extent, IsHeap, used_at, free_at-append, free_at-within, free_at-split,
  extent-append, le_extent-free_count,
}
use waddle_os.Wdmalloc.Tiling.{Tiles-split, free_at-apart}
use waddle_os.Wdmalloc.Links.{Spaced}

-- The value `v` in the first field of the header at `p`, if `p` lies below `top`.
abbrev pub noted : Memory → ℕ → ℕ → ℕ → Memory
noted m p top v = if ltb p top then write_field 2 m p v else m

pub noted-outside :
    (m : Memory) (p top v a : ℕ) → (a < p) ⊎ (p + 2 ≤ a) ⊎ (top ≤ p) → noted m p top v a ≡ m a
noted-outside m p top v a h = ground (arith, write_field-outside 2 m p v a)

pub noted-prev_sz :
    (m : Memory) (p top v : ℕ) → p < top → v < 2 ^ 16 → prev_sz_at (noted m p top v) p ≡ v
noted-prev_sz m p top v h few = rw (lt→ltb p top h) (read_field-write_field 2 m p v ∙ omega arith)

-- The bytes of the allocated blocks, and those outside the heap, are the same.
pub record Kept (start size : ℕ) (bs : List Block) (m m' : Memory) : Type 0 where
  pub inside : (a : ℕ) → used_at start bs a ≡ true → m' a ≡ m a
  pub outside : (a : ℕ) → (a < start) ⊎ (start + size ≤ a) → m' a ≡ m a

pub Kept-trans :
    (start size : ℕ) (bs : List Block) (m m' m'' : Memory)
    → Kept start size bs m m'
    → Kept start size bs m' m''
    → Kept start size bs m m''
Kept-trans start size bs m m' m'' k l = record {
  inside = λ a h. l.inside a h ∙ k.inside a h;
  outside = λ a h. l.outside a h ∙ k.outside a h;
}

module _ (w : Wd) (start size : ℕ) (bs : List Block) (heap : IsHeap w start size bs) where
  -- A block that the list has.
  pub record Listed (f : ℕ) : Type 0 where
    pub before : List Block
    pub room : ℕ
    pub behind : List Block
    pub blocks : bs ≡ before ++ (free room ∷ behind)
    pub place : f ≡ start + extent before
    pub sz : sz_at w.mem f ≡ room
    pub small : room < 2 ^ 15

  pub IsHeap-Listed : (f : ℕ) → has f heap.free_list ≡ true → Listed f
  IsHeap-Listed f mem =
      let (xs, s, ys, e, at) = free_at-split start bs f (sym (heap.listed f) ∙ mem) in
      let all = subst (λ cs. extent cs ≡ size) e heap.whole in
      let tiles = Tiles-split w.mem start 0 xs (free s ∷ ys) f at (rw e at heap.tiles) in
      record {
        before = xs;
        room = s;
        behind = ys;
        blocks = e;
        place = at;
        sz = tiles.1.1;
        small = omega (arith, extent-append xs (free s ∷ ys), heap.small);
      }

  -- Every free block is in the list.
  pub IsHeap-block :
      (xs : List Block) (s : ℕ) (ys : List Block)
      → bs ≡ xs ++ (free s ∷ ys)
      → (has (start + extent xs) heap.free_list ≡ true) × (sz_at w.mem (start + extent xs) ≡ s)
  IsHeap-block xs s ys e =
      let q = start + extent xs in
      let tiles = Tiles-split w.mem start 0 xs (free s ∷ ys) q refl (rw e at heap.tiles) in
      (
        heap.listed q ∙ rw e (ground (arith, free_at-append start xs (free s ∷ ys) q q refl)),
        tiles.1.1,
      )

  pub IsHeap-within : (f : ℕ) → has f heap.free_list ≡ true → (start ≤ f) × (f + 12 ≤ start + size)
  IsHeap-within f mem =
      let (low, high) = free_at-within start bs f (sym (heap.listed f) ∙ mem) in
      (low, omega (arith, heap.whole))

  pub IsHeap-Spaced : Spaced heap.free_list
  IsHeap-Spaced f g mem mem' =
      free_at-apart start bs f g (sym (heap.listed f) ∙ mem) (sym (heap.listed g) ∙ mem')

  pub IsHeap-real : has 0 heap.free_list ≡ false
  IsHeap-real = elim (Bool-cases (has 0 heap.free_list)) [
    | inl there ↦ absurd (heap.real (omega (arith, IsHeap-within 0 there)))
    | inr missing ↦ missing
  ]

  -- The list is shorter than the bound on the walks along it.
  pub IsHeap-length : length heap.free_list < list_fuel w
  IsHeap-length = omega (arith, heap.count, le_extent-free_count bs, heap.whole, heap.bytes)

  -- A header in the heap is there in the code's test.
  pub IsHeap-in_heap : (p : ℕ) → start ≤ p → in_heap w p ≡ ltb p (start + size)
  IsHeap-in_heap p low =
      let top : (start + size) % 2 ^ 64 ≡ start + size = omega (arith, heap.ends) in
      rw (heap.from, heap.bytes, top, le→leb start p low) (ground arith)
