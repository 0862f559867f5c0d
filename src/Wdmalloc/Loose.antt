-- ===== src/Wdmalloc/Loose.antt =====
-- The kernel heap while `wdfree` has marked a block as free and has not put it in the free list.
use waddle_os.Base.{
  ℕ, suc, ◌+◌, ◌^◌, ◌≤◌, ◌<◌, ◌≡◌, refl, ◌≢◌, ◌∙◌, ◌⊎◌, inl, inr, true, false, not, ◌&&◌, ◌==◌,
  List, [], ◌∷◌, ◌++◌, length, lt→ltb, arith, sym,
}
use waddle_os.Memory.{write_field}
use waddle_os.Memory.Fields.{read_field-disjoint, read_field-write_field, write_field-outside}
use waddle_os.LinkedList.Ring.{has, Distinct}
use waddle_os.Wdmalloc.{Wd, hdr_size, sub_ptr, uninitialised}
use waddle_os.Wdmalloc.Free.{wdfree, coalesce}
use waddle_os.Wdmalloc.Sizes.{actual_size-marked}
use waddle_os.Wdmalloc.Blocks.{
  Block, free, used, extent, free_at, Tiles, Chain, IsHeap, extent-append, free_count,
  free_count-append, free_at-append, free_at-within,
}
use waddle_os.Wdmalloc.Tiling.{prev_sz_at-Same, lom_at-Same, Tiles-edit, Tiles-split, Tiles-prev_sz}
use waddle_os.Wdmalloc.Around.{free_at-around, used_at-around}
use waddle_os.Wdmalloc.Links.{Chain-same}
use waddle_os.Wdmalloc.Heap.{Kept, IsHeap-in_heap}

-- The heap consists of the blocks `bs`, of which the free one at `q` is not in the free list.
pub record Loose (w : Wd) (start size : ℕ) (bs : List Block) (q : ℕ) : Type 0 where
  pub from : w.heap_start ≡ start
  pub bytes : w.heap_size ≡ size
  pub real : start ≢ 0
  pub ends : start + size < 2 ^ 64
  pub small : size < 2 ^ 15 + 12
  pub whole : extent bs ≡ size
  pub tiles : Tiles w.mem start 0 bs
  pub there : free_at start bs q ≡ true
  pub free_list : List ℕ
  pub chain : Chain w.mem w.freelist_head free_list
  pub distinct : Distinct free_list
  pub listed : (f : ℕ) → has f free_list ≡ (free_at start bs f && not (f == q))
  pub count : suc (length free_list) ≡ free_count bs

module _ (w : Wd) (start size : ℕ) (xs : List Block) (s : ℕ) (ys : List Block) (q : ℕ)
    (heap : IsHeap w start size (xs ++ (used s ∷ ys))) (at : q ≡ start + extent xs) where
  -- The memory behind the first two writes of `wdfree`.
  abbrev pub marked_free : Wd
  marked_free = record {
    mem = write_field 8 (write_field 2 w.mem (q + 2) s) (q + 4) 0;
    freelist_head = w.freelist_head;
    heap_start = w.heap_start;
    heap_size = w.heap_size;
  }

  marked_free-ends : q + (12 + s) + extent ys ≡ start + size
  marked_free-ends = omega (arith, extent-append xs (used s ∷ ys), heap.whole)

  pub wdfree-marked_free :
      w.freelist_head ≢ 0 → q + 12 < start + size → wdfree (q + 12) w ≡ coalesce q marked_free
  unfolding wdfree
  wdfree-marked_free head inside =
      let (old, tiles) = Tiles-split w.mem start 0 xs (used s ∷ ys) q at heap.tiles in
      rw
        (
          hdr,
          ready,
          IsHeap-in_heap w start size _ heap (q + 12) (omega (arith, at)),
          IsHeap-in_heap w start size _ heap q (omega (arith, at)),
          lt→ltb (q + 12) (start + size) inside,
          lt→ltb q (start + size) (omega arith),
          tiles.1,
          actual_size-marked s few,
        )
        refl
    where
      few : s < 2 ^ 15
      few = omega (arith, marked_free-ends, heap.small, at)

      ready : uninitialised w ≡ false
      ready = ground (arith, head, heap.from, heap.real, heap.bytes, at)

      hdr : sub_ptr (q + 12) hdr_size ≡ q
      hdr = omega (arith, heap.ends)

  marked_free-outside : (a : ℕ) → (a < q + 2) ⊎ (q + 12 ≤ a) → marked_free.mem a ≡ w.mem a
  marked_free-outside a h =
      write_field-outside 8 (write_field 2 w.mem (q + 2) s) (q + 4) 0 a (omega (arith, h))
      ∙ write_field-outside 2 w.mem (q + 2) s a (omega (arith, h))

  marked_free-Tiles : Tiles marked_free.mem start 0 (xs ++ (free s ∷ ys))
  marked_free-Tiles =
      let (old, (p, z, rest)) = Tiles-split w.mem start 0 xs (used s ∷ ys) q at heap.tiles in
      let few : s < 2 ^ 15 = omega (arith, marked_free-ends, heap.small, at) in
      Tiles-edit w.mem marked_free.mem start xs (used s ∷ []) (free s ∷ []) ys q (q + (12 + s)) at
        (omega arith) refl (λ a low high. marked_free-outside a (inl (omega arith)))
        (
          prev_sz_at-Same w.mem marked_free.mem q (λ a low high. marked_free-outside a (inl high))
              ∙ p,
          read_field-disjoint 2 8 (write_field 2 w.mem (q + 2) s) (q + 4) (q + 2) 0
                (inl (omega arith))
              ∙ read_field-write_field 2 w.mem (q + 2) s
              ∙ omega arith,
          tt,
        )
        (λ more.
          prev_sz_at-Same w.mem marked_free.mem (q + (12 + s))
            (λ a low high. marked_free-outside a (inr (omega arith)))
          ∙ Tiles-prev_sz w.mem (q + (12 + s)) s ys rest more)
        (λ a low high. marked_free-outside a (inr (omega arith))) heap.tiles

  -- A free block of the heap is not this one.
  other-free : (f : ℕ) → free_at start (xs ++ (used s ∷ ys)) f ≡ true → (f + 12 ≤ q) ⊎ (q + 12 ≤ f)
  other-free f h = elim (free_at-around start q xs (used s) ys at f h) [
    | inl below ↦ inl below
    | inr (inl here) ↦ absurd (ground (arith, here.1))
    | inr (inr above) ↦ inr (omega arith)
  ]

  marked_free-listed :
      (f : ℕ)
      → free_at start (xs ++ (used s ∷ ys)) f
        ≡ (free_at start (xs ++ (free s ∷ ys)) f && not (f == q))
  marked_free-listed f = ground (
    arith,
    free_at-append start xs (used s ∷ ys) q f at,
    free_at-append start xs (free s ∷ ys) q f at,
    free_at-within start xs f,
    free_at-within (q + (12 + s)) ys f,
  )

  pub marked_free-Loose : Loose marked_free start size (xs ++ (free s ∷ ys)) q
  marked_free-Loose = record {
    from = heap.from;
    bytes = heap.bytes;
    real = heap.real;
    ends = heap.ends;
    small = heap.small;
    whole =
        omega (arith, heap.whole, extent-append xs (free s ∷ ys), extent-append xs (used s ∷ ys));
    tiles = marked_free-Tiles;
    there = ground (arith, free_at-append start xs (free s ∷ ys) q q at);
    free_list = heap.free_list;
    chain =
        Chain-same w.mem marked_free.mem w.freelist_head heap.free_list
          (λ f mem. lom_at-Same w.mem marked_free.mem f (λ a low high.
            marked_free-outside a (omega (arith, other-free f (sym (heap.listed f) ∙ mem)))))
          heap.chain;
    distinct = heap.distinct;
    listed = λ f. heap.listed f ∙ marked_free-listed f;
    count =
        omega (
          arith,
          heap.count,
          free_count-append xs (free s ∷ ys),
          free_count-append xs (used s ∷ ys),
        );
  }

  pub marked_free-Kept : Kept start size (xs ++ (free s ∷ ys)) w.mem marked_free.mem
  marked_free-Kept = record {
    inside = λ a h. marked_free-outside a (elim (used_at-around start q xs (free s) ys at a h) [
      | inl below ↦ inl (omega arith)
      | inr (inl here) ↦ absurd (ground (arith, here.0))
      | inr (inr above) ↦ inr (omega arith)
    ]);
    outside = λ a h. marked_free-outside a (omega (arith, marked_free-ends, h));
  }
