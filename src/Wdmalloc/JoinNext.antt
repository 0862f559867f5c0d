-- ===== src/Wdmalloc/JoinNext.antt =====
-- `coalesce` where only the block behind the freed one is free: the freed block takes its place in
-- the free list.
use waddle_os.Base.{
  ℕ, ◌+◌, ◌^◌, ◌≤◌, ◌<◌, ◌≡◌, refl, ◌∙◌, ◌⊎◌, inl, inr, true, ltb, if◌then◌else◌, List, [], ◌∷◌,
  ◌++◌, length, length-append, ne→==, eq→==, Bool-cases, arith, ok, sym, ap,
}
use waddle_os.Base.Word.{u16}
use waddle_os.Memory.Fields.{read_field-disjoint, read_field-write_field, write_field-swap}
use waddle_os.LinkedList.Ring.{has, last, has-append}
use waddle_os.Wdmalloc.{Wd, sz_at, lom_at, hdr_size}
use waddle_os.Wdmalloc.Free.{merge_next}
use waddle_os.Wdmalloc.Blocks.{
  Block, free, extent, free_at, IsHeap, extent-append, free_count-append, free_at-append,
  free_at-within,
}
use waddle_os.Wdmalloc.Tiling.{Tiles-split}
use waddle_os.Wdmalloc.Around.{free_at-around}
use waddle_os.Wdmalloc.Links.{Chain-same, linked_to-runs}
use waddle_os.Wdmalloc.Unlink.{has-remove}
use waddle_os.Wdmalloc.FindPrev.{with_sz}
use waddle_os.Wdmalloc.Heap.{Kept, Kept-trans}
use waddle_os.Wdmalloc.Loose.{Loose}
use waddle_os.Wdmalloc.Replace.{
  replaced, q-apart, written, find_prev-next, linked_to-written, replaced-Chain, replaced-Tiles,
  replaced-Kept, replaced-Distinct, list-Distinct,
}
use waddle_os.Wdmalloc.Join.{joined, joined-Tiles, joined-lom, joined-Kept}

module _ (w : Wd) (start size : ℕ) (xs : List Block) (s b : ℕ) (ys : List Block) (q r v : ℕ)
    (us vs : List ℕ) (loose : Loose w start size (xs ++ (free s ∷ free b ∷ ys)) q)
    (list : loose.free_list ≡ us ++ (r ∷ vs)) (at : q ≡ start + extent xs)
    (beyond : r ≡ q + (12 + s)) (total : v ≡ s + 12 + b) where
  abbrev bs : List Block
  bs = xs ++ (free s ∷ free b ∷ ys)

  abbrev relinked : Wd
  relinked = replaced w q r us

  abbrev pub joined_next : Wd
  joined_next = record {
    mem = joined relinked.mem q v (start + size);
    freelist_head = relinked.freelist_head;
    heap_start = w.heap_start;
    heap_size = w.heap_size;
  }

  joined-ends : q + (12 + v) + extent ys ≡ start + size
  joined-ends = omega (arith, extent-append xs (free s ∷ free b ∷ ys), loose.whole)

  joined-few : v < 2 ^ 15
  joined-few = omega (arith, joined-ends, loose.small, at)

  pub merge_next-joined :
      (beyond_it : ℕ)
      → beyond_it ≡ (if ltb (q + (12 + v)) (start + size) then q + (12 + v) else 0)
      → merge_next q r beyond_it w ≡ ok (tt, joined_next)
  unfolding merge_next
  merge_next-joined nn e =
      let (old, (_, z, (_, z', back))) =
        Tiles-split w.mem start 0 xs (free s ∷ free b ∷ ys) q at loose.tiles in
      let fb : sz_at w.mem r ≡ b = rw beyond z' in
      let whole : u16 (s + hdr_size + b) ≡ v = omega (arith, joined-few) in
      rw
        (
          z,
          fb,
          whole,
          read_field-disjoint 8 2 w.mem (q + 2) (r + 4) v
              (omega (arith, q-apart w start size bs q r us vs loose list r there)),
          write_field-swap 8 2 w.mem (q + 2) (q + 4) (lom_at w.mem r) v (inr (omega arith)),
          find_prev-next w start size bs q r us vs loose list v,
          eq→== r r refl,
          linked_to-runs (written w start size bs q r us vs loose list v) (last 0 us) q,
          linked_to-written w start size bs q r us vs loose list v,
          e,
        )
        (elim (Bool-cases (ltb (q + (12 + v)) (start + size))) [
          | inl more ↦ rw (more, ne→== (q + (12 + v)) 0 (omega arith), joined-sz) refl
          | inr over ↦ rw over refl
        ])
    where
      there : has r (us ++ (r ∷ vs)) ≡ true
      there = ground (arith, has-append r us (r ∷ vs))

      joined-sz : sz_at (with_sz relinked q v).mem q ≡ v
      joined-sz = read_field-write_field 2 relinked.mem (q + 2) v ∙ omega (arith, joined-few)

  joined_next-listed : (f : ℕ) → has f (us ++ (q ∷ vs)) ≡ free_at start (xs ++ (free v ∷ ys)) f
  joined_next-listed f =
      let end : q + (12 + s) + (12 + b) ≡ q + (12 + v) = omega arith in
      let ys-eq = rw end at (free_at-append start xs (free s ∷ free b ∷ ys) q f at) in
      ground (
        arith,
        has-append f us (q ∷ vs),
        has-append f us vs,
        has-remove us r vs f (list-Distinct w start size bs q r us vs loose list),
        sym (ap (has f) list) ∙ loose.listed f,
        ys-eq,
        free_at-append start xs (free v ∷ ys) q f at,
        free_at-within start xs f,
        free_at-within (q + (12 + v)) ys f,
      )

  joined_next-where :
      (f : ℕ) → has f (us ++ (q ∷ vs)) ≡ true → (f + 12 ≤ q) ⊎ (f ≡ q) ⊎ (q + (12 + v) ≤ f)
  joined_next-where f mem =
      elim (free_at-around start q xs (free v) ys at f (sym (joined_next-listed f) ∙ mem)) [
        | inl below ↦ inl below
        | inr (inl here) ↦ inr (inl here.0)
        | inr (inr above) ↦ inr (inr above)
      ]

  pub joined_next-IsHeap : IsHeap joined_next start size (xs ++ (free v ∷ ys))
  joined_next-IsHeap = record {
    from = loose.from;
    bytes = loose.bytes;
    real = loose.real;
    ends = loose.ends;
    small = loose.small;
    whole = omega (
      arith,
      loose.whole,
      extent-append xs (free s ∷ free b ∷ ys),
      extent-append xs (free v ∷ ys),
    );
    tiles =
        joined-Tiles relinked.mem start size xs s (free b ∷ []) ys q v at (omega arith)
          (omega (arith, joined-few)) joined-ends
          (replaced-Tiles w start size bs q r us vs loose list);
    free_list = us ++ (q ∷ vs);
    chain =
        Chain-same relinked.mem joined_next.mem relinked.freelist_head (us ++ (q ∷ vs))
          (λ f mem.
            joined-lom relinked.mem start size xs s (free b ∷ []) ys q v at (omega arith)
              (omega (arith, joined-few)) joined-ends f (joined_next-where f mem))
          (replaced-Chain w start size bs q r us vs loose list);
    distinct = replaced-Distinct w start size bs q r us vs loose list;
    listed = joined_next-listed;
    count = omega (
      arith,
      loose.count,
      ap length list,
      length-append us (q ∷ vs),
      length-append us (r ∷ vs),
      free_count-append xs (free s ∷ free b ∷ ys),
      free_count-append xs (free v ∷ ys),
    );
  }

  pub joined_next-Kept : Kept start size bs w.mem joined_next.mem
  joined_next-Kept =
      Kept-trans start size bs w.mem relinked.mem joined_next.mem
        (replaced-Kept w start size bs q r us vs loose list)
        (joined-Kept relinked.mem start size xs s (free b ∷ []) ys q v at (omega arith)
          (omega (arith, joined-few)) joined-ends (λ b'. refl))
