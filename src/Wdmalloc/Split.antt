-- ===== src/Wdmalloc/Split.antt =====
-- `wdmalloc` where it splits a free block of any heap: the block's lower part stays free.
use waddle_os.Base.{
  ℕ, ◌+◌, ◌-◌, ◌^◌, ◌≤◌, ◌<◌, ◌≡◌, refl, ◌∙◌, ◌⊎◌, inl, inr, true, ltb, bit_or, List, [], ◌∷◌, ◌++◌,
  Bool-cases, arith, ok, sym,
}
use waddle_os.Base.Word.{u16}
use waddle_os.Memory.{Memory, write_field}
use waddle_os.Memory.Fields.{read_field-disjoint, read_field-write_field, write_field-outside}
use waddle_os.LinkedList.Ring.{has}
use waddle_os.Wdmalloc.{
  Wd, prev_sz_at, sz_at, lom_at, hdr_size, magic, alloc_bit, add_ptr, in_heap, split_block,
}
use waddle_os.Wdmalloc.Carve.{split_memory}
use waddle_os.Wdmalloc.Lowest.{split_memory-header}
use waddle_os.Wdmalloc.Blocks.{
  Block, free, used, extent, free_at, Tiles, IsHeap, extent-append, free_count-append,
  free_at-append, le-extent, extent-cases,
}
use waddle_os.Wdmalloc.Tiling.{
  Same, sz_at-Same, prev_sz_at-Same, lom_at-Same, Tiles-edit, Tiles-split,
}
use waddle_os.Wdmalloc.Around.{free_at-around, used_at-around}
use waddle_os.Wdmalloc.Links.{Chain-same}
use waddle_os.Wdmalloc.Heap.{Kept, noted, noted-outside, noted-prev_sz, IsHeap-in_heap}

-- The bytes that the header writes of a split miss.
split_memory-outside :
    (m : Memory) (q n rest a : ℕ)
    → (a < q + 2) ⊎ ((q + 4 ≤ a) × (a < q + 12 + rest)) ⊎ (q + 24 + rest ≤ a)
    → split_memory m q n rest a ≡ m a
split_memory-outside m q n rest a h =
    let m₁ = write_field 2 m (q + 2) rest in
    let m₂ = write_field 2 m₁ (q + (12 + rest)) rest in
    let m₃ = write_field 2 m₂ (q + (12 + rest) + 2) (bit_or n alloc_bit) in
    ground (
      arith,
      write_field-outside 8 m₃ (q + (12 + rest) + 4) magic a,
      write_field-outside 2 m₂ (q + (12 + rest) + 2) (bit_or n alloc_bit) a,
      write_field-outside 2 m₁ (q + (12 + rest)) rest a,
      write_field-outside 2 m (q + 2) rest a,
    )

split_memory-sz :
    (m : Memory) (q n rest : ℕ) → rest < 2 ^ 16 → sz_at (split_memory m q n rest) q ≡ rest
split_memory-sz m q n rest small =
    let m₁ = write_field 2 m (q + 2) rest in
    let m₂ = write_field 2 m₁ (q + (12 + rest)) rest in
    let m₃ = write_field 2 m₂ (q + (12 + rest) + 2) (bit_or n alloc_bit) in
    read_field-disjoint 2 8 m₃ (q + (12 + rest) + 4) (q + 2) magic (inl (omega arith))
    ∙ read_field-disjoint 2 2 m₂ (q + (12 + rest) + 2) (q + 2) (bit_or n alloc_bit)
        (inl (omega arith))
    ∙ read_field-disjoint 2 2 m₁ (q + (12 + rest)) (q + 2) rest (inl (omega arith))
    ∙ read_field-write_field 2 m (q + 2) rest
    ∙ omega arith

module _ (w : Wd) (start size : ℕ) (xs : List Block) (s : ℕ) (ys : List Block) (q n : ℕ)
    (heap : IsHeap w start size (xs ++ (free s ∷ ys))) (at : q ≡ start + extent xs)
    (room : n + 12 ≤ s) where
  abbrev rest : ℕ
  rest = s - n - 12

  abbrev behind : ℕ
  behind = q + (12 + rest) + (12 + n)

  abbrev pub split_heap : Wd
  split_heap = record {
    mem = noted (split_memory w.mem q n rest) behind (start + size) n;
    freelist_head = w.freelist_head;
    heap_start = w.heap_start;
    heap_size = w.heap_size;
  }

  -- The block lies in the heap, and what is behind it reaches to the heap's end.
  split-ends : q + (12 + s) + extent ys ≡ start + size
  split-ends = omega (arith, extent-append xs (free s ∷ ys), heap.whole)

  pub split_block-split_heap : split_block n q s w ≡ ok (q + 12 + (s - n), split_heap)
  unfolding split_block
  split_block-split_heap =
      rw (cut, here, adj, in_heap-behind, result)
        (elim (Bool-cases (ltb behind (start + size))) [
          | inl more ↦ rw more refl
          | inr none_behind ↦ rw none_behind refl
        ])
    where
      all : q + (12 + s) + extent ys < 2 ^ 64
      all = omega (arith, split-ends, heap.ends)

      cut : u16 (s - n - hdr_size) ≡ rest
      cut = omega (arith, split-ends, heap.small, at)

      here : add_ptr q (hdr_size + rest) ≡ q + (12 + rest)
      here = omega (arith, all)

      adj : add_ptr (q + (12 + rest)) (hdr_size + n) ≡ behind
      adj = omega (arith, all)

      in_heap-behind : in_heap w behind ≡ ltb behind (start + size)
      in_heap-behind = IsHeap-in_heap w start size _ heap behind (omega (arith, at))

      result : add_ptr (q + (12 + rest)) hdr_size ≡ q + 12 + (s - n)
      result = omega (arith, all)

  split_heap-outside :
      (a : ℕ)
      → (a < q + 2)
        ⊎ ((q + 4 ≤ a) × (a < q + 12 + rest))
        ⊎ ((q + 24 + rest ≤ a) × ((a < behind) ⊎ (behind + 2 ≤ a) ⊎ (start + size ≤ behind)))
      → split_heap.mem a ≡ w.mem a
  split_heap-outside a h = ground (
    arith,
    noted-outside (split_memory w.mem q n rest) behind (start + size) n a,
    split_memory-outside w.mem q n rest a,
  )

  -- The fields of the headers that are written.
  abbrev Headers : Type 0
  Headers =
      let m = split_heap.mem in
      let h = q + (12 + rest) in
      (prev_sz_at m q ≡ prev_sz_at w.mem q)
      × (sz_at m q ≡ rest)
      × (prev_sz_at m h ≡ rest)
      × (sz_at m h ≡ bit_or n alloc_bit)
      × (0 < extent ys → prev_sz_at m behind ≡ n)

  split_heap-headers : Headers
  split_heap-headers =
      let m₁ = split_memory w.mem q n rest in
      let m = split_heap.mem in
      let h = q + (12 + rest) in
      let below : Same m₁ m 0 behind =
        λ a low high. noted-outside m₁ behind (start + size) n a (inl high) in
      let few : s < 2 ^ 15 = omega (arith, split-ends, heap.small, at) in
      let (p, z) = split_memory-header w.mem q n rest (omega arith) (omega arith) in
      (
        prev_sz_at-Same w.mem m q (λ a low high. split_heap-outside a (inl high)),
        sz_at-Same m₁ m q (λ a low high. below a (omega arith) (omega arith))
            ∙ split_memory-sz w.mem q n rest (omega arith),
        prev_sz_at-Same m₁ m h (λ a low high. below a (omega arith) (omega arith)) ∙ p,
        sz_at-Same m₁ m h (λ a low high. below a (omega arith) (omega arith)) ∙ z,
        λ more.
            noted-prev_sz m₁ behind (start + size) n (omega (arith, split-ends, le-extent ys more))
              (omega arith),
      )

  split_heap-Tiles : Tiles split_heap.mem start 0 (xs ++ (free rest ∷ used n ∷ ys))
  split_heap-Tiles =
      let (p, z, p', z', pv) = split_heap-headers in
      let (old, tiles) = Tiles-split w.mem start 0 xs (free s ∷ ys) q at heap.tiles in
      let end : q + (12 + s) ≡ behind = omega arith in
      Tiles-edit w.mem split_heap.mem start xs (free s ∷ []) (free rest ∷ used n ∷ []) ys q behind
        at (omega arith) (omega arith) (λ a low high. split_heap-outside a (inl (omega arith)))
        (p ∙ tiles.0, z, (p', z', tt)) pv
        (λ a low high. split_heap-outside a (inr (inr (omega arith, inr (inl (omega arith))))))
        heap.tiles

  split_heap-listed :
      (f : ℕ)
      → free_at start (xs ++ (free s ∷ ys)) f ≡ free_at start (xs ++ (free rest ∷ used n ∷ ys)) f
  split_heap-listed f =
      let end : q + (12 + rest) + (12 + n) ≡ q + (12 + s) = omega arith in
      free_at-append start xs (free s ∷ ys) q f at
      ∙ rw (free_at-append start xs (free rest ∷ used n ∷ ys) q f at, end) refl

  split_heap-lom : (f : ℕ) → has f heap.free_list ≡ true → lom_at split_heap.mem f ≡ lom_at w.mem f
  split_heap-lom f mem = lom_at-Same w.mem split_heap.mem f (λ a low high.
      split_heap-outside a
        (elim (free_at-around start q xs (free s) ys at f (sym (heap.listed f) ∙ mem)) [
          | inl below ↦ inl (omega arith)
          | inr (inl here) ↦ inr (inl (omega (arith, here.0), omega (arith, here.0)))
          | inr (inr above) ↦ inr (inr (omega arith, inr (inl (omega arith))))
        ]))

  pub split_heap-IsHeap : IsHeap split_heap start size (xs ++ (free rest ∷ used n ∷ ys))
  split_heap-IsHeap = record {
    from = heap.from;
    bytes = heap.bytes;
    real = heap.real;
    ends = heap.ends;
    small = heap.small;
    whole = omega (
      arith,
      heap.whole,
      extent-append xs (free s ∷ ys),
      extent-append xs (free rest ∷ used n ∷ ys),
    );
    tiles = split_heap-Tiles;
    free_list = heap.free_list;
    chain =
        Chain-same w.mem split_heap.mem w.freelist_head heap.free_list split_heap-lom heap.chain;
    distinct = heap.distinct;
    listed = λ f. heap.listed f ∙ split_heap-listed f;
    count = omega (
      arith,
      heap.count,
      free_count-append xs (free s ∷ ys),
      free_count-append xs (free rest ∷ used n ∷ ys),
    );
  }

  pub split_heap-Kept : Kept start size (xs ++ (free s ∷ ys)) w.mem split_heap.mem
  split_heap-Kept = record {
    inside = λ a h. split_heap-outside a (elim (used_at-around start q xs (free s) ys at a h) [
      | inl below ↦ inl (omega arith)
      | inr (inl here) ↦ absurd (ground (arith, here.0))
      | inr (inr above) ↦ inr (inr (omega arith, inr (inl (omega arith))))
    ]);
    outside = λ a h. split_heap-outside a (elim h [
      | inl low ↦ inl (omega arith)
      | inr high ↦ inr (
          inr (
            omega (arith, split-ends),
            elim (extent-cases ys) [
              | inl none_behind ↦ inr (inr (omega (arith, split-ends)))
              | inr more ↦ inr (inl (omega (arith, split-ends)))
            ],
          ))
    ]);
  }
