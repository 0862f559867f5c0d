-- ===== src/Wdmalloc/JoinPrev.antt =====
-- `coalesce` where only the block before the freed one is free.
use waddle_os.Base.{
  ℕ, ◌+◌, ◌^◌, ◌<◌, ◌≡◌, refl, ◌∙◌, inl, inr, not, ◌&&◌, ◌==◌, ltb, if◌then◌else◌, List, [], ◌∷◌,
  ◌++◌, ne→==, Bool-cases, arith, ok, sym,
}
use waddle_os.Base.Word.{u16}
use waddle_os.Wdmalloc.{Wd, sz_at, hdr_size}
use waddle_os.Wdmalloc.Free.{merge_prev}
use waddle_os.Wdmalloc.Blocks.{
  Block, free, extent, free_at, IsHeap, extent-append, free_count-append, free_at-append,
  free_at-within,
}
use waddle_os.Wdmalloc.Tiling.{Tiles-split}
use waddle_os.Wdmalloc.Links.{Chain-same}
use waddle_os.Wdmalloc.Heap.{Kept}
use waddle_os.Wdmalloc.Loose.{Loose}
use waddle_os.Wdmalloc.Join.{joined, joined-Tiles, joined-lom, joined-Kept}

module _ (w : Wd) (start size : ℕ) (xs : List Block) (a s : ℕ) (ys : List Block) (p q v : ℕ)
    (loose : Loose w start size (xs ++ (free a ∷ free s ∷ ys)) q) (at : p ≡ start + extent xs)
    (behind : q ≡ p + (12 + a)) (total : v ≡ a + 12 + s) where
  abbrev pub joined_prev : Wd
  joined_prev = record {
    mem = joined w.mem p v (start + size);
    freelist_head = w.freelist_head;
    heap_start = w.heap_start;
    heap_size = w.heap_size;
  }

  joined-ends : p + (12 + v) + extent ys ≡ start + size
  joined-ends = omega (arith, extent-append xs (free a ∷ free s ∷ ys), loose.whole)

  joined-few : v < 2 ^ 15
  joined-few = omega (arith, joined-ends, loose.small, at)

  pub merge_prev-joined :
      (next : ℕ)
      → next ≡ (if ltb (p + (12 + v)) (start + size) then p + (12 + v) else 0)
      → merge_prev q p next w ≡ ok (tt, joined_prev)
  unfolding merge_prev
  merge_prev-joined next e =
      let (old, (_, z, back)) =
        Tiles-split w.mem start 0 xs (free a ∷ free s ∷ ys) p at loose.tiles in
      let z' : sz_at w.mem q ≡ s = rw behind back.1 in
      let whole : u16 (a + hdr_size + s) ≡ v = omega (arith, joined-few) in
      elim (Bool-cases (ltb (p + (12 + v)) (start + size))) [
        | inl more ↦ rw (z, z', whole, e, more, ne→== (p + (12 + v)) 0 (omega arith)) refl
        | inr over ↦ rw (z, z', whole, e, over) refl
      ]

  joined_prev-listed :
      (f : ℕ)
      → (free_at start (xs ++ (free a ∷ free s ∷ ys)) f && not (f == q))
        ≡ free_at start (xs ++ (free v ∷ ys)) f
  joined_prev-listed f =
      let end : p + (12 + a) + (12 + s) ≡ p + (12 + v) = omega arith in
      let ys-eq = rw end at (free_at-append start xs (free a ∷ free s ∷ ys) p f at) in
      ground (
        arith,
        ys-eq,
        free_at-append start xs (free v ∷ ys) p f at,
        free_at-within start xs f,
        free_at-within (p + (12 + v)) ys f,
      )

  pub joined_prev-IsHeap : IsHeap joined_prev start size (xs ++ (free v ∷ ys))
  joined_prev-IsHeap = record {
    from = loose.from;
    bytes = loose.bytes;
    real = loose.real;
    ends = loose.ends;
    small = loose.small;
    whole = omega (
      arith,
      loose.whole,
      extent-append xs (free a ∷ free s ∷ ys),
      extent-append xs (free v ∷ ys),
    );
    tiles =
        joined-Tiles w.mem start size xs a (free s ∷ []) ys p v at (omega arith)
          (omega (arith, joined-few)) joined-ends loose.tiles;
    free_list = loose.free_list;
    chain =
        Chain-same w.mem joined_prev.mem w.freelist_head loose.free_list
          (λ f mem.
            joined-lom w.mem start size xs a (free s ∷ []) ys p v at (omega arith)
              (omega (arith, joined-few)) joined-ends f
              (ground (
                arith,
                sym (loose.listed f) ∙ mem,
                joined_prev-listed f,
                free_at-append start xs (free v ∷ ys) p f at,
                free_at-within start xs f,
                free_at-within (p + (12 + v)) ys f,
              )))
          loose.chain;
    distinct = loose.distinct;
    listed = λ f. loose.listed f ∙ joined_prev-listed f;
    count = omega (
      arith,
      loose.count,
      free_count-append xs (free a ∷ free s ∷ ys),
      free_count-append xs (free v ∷ ys),
    );
  }

  pub joined_prev-Kept : Kept start size (xs ++ (free a ∷ free s ∷ ys)) w.mem joined_prev.mem
  joined_prev-Kept =
      joined-Kept w.mem start size xs a (free s ∷ []) ys p v at (omega arith)
        (omega (arith, joined-few)) joined-ends (λ b. refl)
