-- ===== src/Wdmalloc/Take.antt =====
-- `wdmalloc` where it allocates a whole free block of any heap, which leaves the free list.
use waddle_os.Base.{
  ℕ, ◌+◌, ◌^◌, ◌≤◌, ◌<◌, ◌≡◌, refl, ◌≢◌, ◌∙◌, ◌⊎◌, inl, inr, true, false, ◌==◌, bit_or, List, [],
  ◌∷◌, ◌++◌, length, length-append, Bool-cases, arith, ok, sym, ap,
}
use mathlib.Core.Path.{subst}
use waddle_os.Memory.{Memory, write_field}
use waddle_os.Memory.Fields.{read_field-write_field, write_field-outside}
use waddle_os.LinkedList.Ring.{has, last, Distinct, has-append, Distinct-remove, last-mem}
use waddle_os.Wdmalloc.{Wd, sz_at, lom_at, hdr_size, magic, alloc_bit, add_ptr, take_block}
use waddle_os.Wdmalloc.Sizes.{marked_lt}
use waddle_os.Wdmalloc.Blocks.{
  Block, free, used, extent, free_at, Tiles, Chain, IsHeap, extent-append, free_count-append,
  free_at-append, free_at-within,
}
use waddle_os.Wdmalloc.Tiling.{
  prev_sz_at-Same, lom_at-Same, Tiles-edit, Tiles-split, Tiles-prev_sz, Tiles-set_lom,
  used_at-apart,
}
use waddle_os.Wdmalloc.Links.{Chain-same, linked_to, linked_to-outside, Spaced}
use waddle_os.Wdmalloc.Unlink.{Chain-head, linked_to-Tiles, front-real, unlinked-Chain}
use waddle_os.Wdmalloc.Heap.{Kept, IsHeap-within, IsHeap-Spaced, IsHeap-real}

module _ (w : Wd) (start size : ℕ) (xs : List Block) (s : ℕ) (ys : List Block) (q : ℕ)
    (us vs : List ℕ) (heap : IsHeap w start size (xs ++ (free s ∷ ys))) (at : q ≡ start + extent xs)
    (list : heap.free_list ≡ us ++ (q ∷ vs)) where
  abbrev unlinked : Wd
  unlinked = linked_to w (last 0 us) (lom_at w.mem q)

  abbrev marked : Memory
  marked = write_field 8 unlinked.mem (q + 4) magic

  abbrev pub taken : Wd
  taken = record {
    mem = write_field 2 marked (q + 2) (bit_or (sz_at marked q) alloc_bit);
    freelist_head = unlinked.freelist_head;
    heap_start = w.heap_start;
    heap_size = w.heap_size;
  }

  list-free : (f : ℕ) → has f (us ++ (q ∷ vs)) ≡ true → free_at start (xs ++ (free s ∷ ys)) f ≡ true
  list-free f mem = sym (heap.listed f) ∙ subst (λ fs. has f fs ≡ true) (sym list) mem

  list-within : (f : ℕ) → has f (us ++ (q ∷ vs)) ≡ true → (start ≤ f) × (f + 12 ≤ start + size)
  list-within f mem =
      IsHeap-within w start size _ heap f (subst (λ fs. has f fs ≡ true) (sym list) mem)

  list-low : (f : ℕ) → has f (us ++ (q ∷ vs)) ≡ true → f < 2 ^ 64
  list-low f mem = omega (arith, list-within f mem, heap.ends)

  list-real : has 0 (us ++ (q ∷ vs)) ≡ false
  list-real = rw list at (IsHeap-real w start size _ heap)

  list-Spaced : Spaced (us ++ (q ∷ vs))
  list-Spaced = subst Spaced list (IsHeap-Spaced w start size _ heap)

  list-Distinct : Distinct (us ++ (q ∷ vs))
  list-Distinct = rw list at heap.distinct

  list-Chain : Chain w.mem w.freelist_head (us ++ (q ∷ vs))
  list-Chain = rw list at heap.chain

  q-listed : has q (us ++ (q ∷ vs)) ≡ true
  q-listed = ground (arith, has-append q us (q ∷ vs))

  last-listed : last 0 us ≢ 0 → has (last 0 us) (us ++ (q ∷ vs)) ≡ true
  last-listed ne = ground (arith, last-mem 0 us, has-append (last 0 us) us (q ∷ vs))

  take-ends : q + (12 + s) + extent ys ≡ start + size
  take-ends = omega (arith, extent-append xs (free s ∷ ys), heap.whole)

  pub take_block-taken :
      take_block (record { min = q; min_prev = last 0 us; min_sz = s }) w ≡ ok (q + 12, taken)
  unfolding take_block
  take_block-taken =
      let result : add_ptr q hdr_size ≡ q + 12 = omega (arith, take-ends, heap.ends) in
      elim (Bool-cases (last 0 us == 0)) [
        | inl none_before ↦
            let first =
              Chain-head w.mem w.freelist_head us q vs list-Chain
                (front-real w us q vs list-real list-Spaced list-Distinct list-low)
                (ground arith) in
            rw (none_before, first, result) refl
        | inr some_before ↦ rw (some_before, result) refl
      ]

  unlinked-Tiles : Tiles marked start 0 (xs ++ (free s ∷ ys))
  unlinked-Tiles =
      Tiles-set_lom unlinked.mem start 0 (xs ++ (free s ∷ ys)) q magic (list-free q q-listed) (
        linked_to-Tiles w us (lom_at w.mem q) start (xs ++ (free s ∷ ys))
          (λ f mem. list-free f (ground (arith, has-append f us (q ∷ vs)))) heap.tiles)

  taken-Tiles : Tiles taken.mem start 0 (xs ++ (used s ∷ ys))
  taken-Tiles =
      let (old, (p, z, rest)) = Tiles-split marked start 0 xs (free s ∷ ys) q at unlinked-Tiles in
      let few : s < 2 ^ 15 = omega (arith, take-ends, heap.small, at) in
      let v = bit_or (sz_at marked q) alloc_bit in
      let out : (a : ℕ) → (a < q + 2) ⊎ (q + 4 ≤ a) → taken.mem a ≡ marked a = λ a h.
        write_field-outside 2 marked (q + 2) v a
          (elim h [ inl low ↦ inl low | inr high ↦ inr (omega arith) ]) in
      Tiles-edit marked taken.mem start xs (free s ∷ []) (used s ∷ []) ys q (q + (12 + s)) at
        (omega arith) refl (λ a low high. out a (inl (omega arith)))
        (
          prev_sz_at-Same marked taken.mem q (λ a low high. out a (inl high)) ∙ p,
          read_field-write_field 2 marked (q + 2) v ∙ rw z (omega (arith, marked_lt s few)),
          tt,
        )
        (λ more.
          prev_sz_at-Same marked taken.mem (q + (12 + s)) (λ a low high. out a (inr (omega arith)))
          ∙ Tiles-prev_sz marked (q + (12 + s)) s ys rest more)
        (λ a low high. out a (inr (omega arith))) unlinked-Tiles

  -- The bytes outside the header and the link to it stay.
  taken-outside :
      (a : ℕ)
      → (a < q + 2) ⊎ (q + 12 ≤ a)
      → (last 0 us ≢ 0 → (a < last 0 us + 4) ⊎ (last 0 us + 12 ≤ a))
      → taken.mem a ≡ w.mem a
  taken-outside a h g =
      write_field-outside 2 marked (q + 2) (bit_or (sz_at marked q) alloc_bit) a (omega (arith, h))
      ∙ write_field-outside 8 unlinked.mem (q + 4) magic a (omega (arith, h))
      ∙ linked_to-outside w us q vs (lom_at w.mem q)
          (front-real w us q vs list-real list-Spaced list-Distinct list-low) list-Spaced a g

  taken-listed : (f : ℕ) → has f (us ++ vs) ≡ free_at start (xs ++ (used s ∷ ys)) f
  taken-listed f = elim (Bool-cases (f == q)) [
    | inl here ↦
        let e : f ≡ q = ground arith in
        let (rest, out) = Distinct-remove us q vs list-Distinct in
        let out' = subst (λ g. has g (us ++ vs) ≡ false) (sym e) out in
        ground (
          arith,
          free_at-append start xs (used s ∷ ys) q f at,
          free_at-within start xs f,
          free_at-within (q + (12 + s)) ys f,
        )
    | inr there ↦ ground (
      arith,
      subst (λ fs. has f fs ≡ free_at start (xs ++ (free s ∷ ys)) f) list (heap.listed f),
      has-append f us vs,
      has-append f us (q ∷ vs),
      free_at-append start xs (used s ∷ ys) q f at,
      free_at-append start xs (free s ∷ ys) q f at,
    )
  ]

  taken-lom : (f : ℕ) → has f (us ++ vs) ≡ true → lom_at taken.mem f ≡ lom_at unlinked.mem f
  taken-lom f mem =
      let there : has f (us ++ (q ∷ vs)) ≡ true =
        ground (arith, has-append f us vs, has-append f us (q ∷ vs)) in
      let apart : (f + 12 ≤ q) ⊎ (q + 12 ≤ f) = elim (list-Spaced f q there q-listed) [
        | inl same ↦
            let out = (Distinct-remove us q vs list-Distinct).1 in
            absurd (ground (arith, ap (λ g. has g (us ++ vs)) same))
        | inr either ↦ either
      ] in
      lom_at-Same unlinked.mem taken.mem f (λ a low high.
        write_field-outside 2 marked (q + 2) (bit_or (sz_at marked q) alloc_bit) a
          (omega (arith, apart))
        ∙ write_field-outside 8 unlinked.mem (q + 4) magic a (omega (arith, apart)))

  pub taken-IsHeap : IsHeap taken start size (xs ++ (used s ∷ ys))
  taken-IsHeap = record {
    from = heap.from;
    bytes = heap.bytes;
    real = heap.real;
    ends = heap.ends;
    small = heap.small;
    whole =
        omega (arith, heap.whole, extent-append xs (free s ∷ ys), extent-append xs (used s ∷ ys));
    tiles = taken-Tiles;
    free_list = us ++ vs;
    chain =
        Chain-same unlinked.mem taken.mem unlinked.freelist_head (us ++ vs) taken-lom
          (unlinked-Chain w us q vs list-real list-Spaced list-Distinct list-low list-Chain);
    distinct = (Distinct-remove us q vs list-Distinct).0;
    listed = taken-listed;
    count = omega (
      arith,
      heap.count,
      ap length list,
      length-append us vs,
      length-append us (q ∷ vs),
      free_count-append xs (free s ∷ ys),
      free_count-append xs (used s ∷ ys),
    );
  }

  pub taken-Kept : Kept start size (xs ++ (free s ∷ ys)) w.mem taken.mem
  taken-Kept = record {
    inside = λ a h.
        taken-outside a
          (omega (arith, used_at-apart start (xs ++ (free s ∷ ys)) q a (list-free q q-listed) h))
          (λ ne. omega (
            arith,
            used_at-apart start (xs ++ (free s ∷ ys)) (last 0 us) a
                (list-free (last 0 us) (last-listed ne)) h,
          ));
    outside = λ a h.
        taken-outside a (omega (arith, list-within q q-listed, h))
          (λ ne. omega (arith, list-within (last 0 us) (last-listed ne), h));
  }
