-- ===== src/Wdmalloc/JoinBoth.antt =====
-- `coalesce` where both neighbours of the freed block are free: the one behind it leaves the list.
use waddle_os.Base.{
  ℕ, ◌+◌, ◌^◌, ◌≤◌, ◌<◌, ◌≡◌, refl, ◌∙◌, ◌⊎◌, inl, inr, true, ltb, if◌then◌else◌, List, [], ◌∷◌,
  ◌++◌, length, length-append, ne→==, eq→==, Bool-cases, arith, ok, sym, ap,
}
use mathlib.Core.Path.{subst}
use waddle_os.Base.Word.{u16}
use waddle_os.Memory.Fields.{read_field-disjoint, read_field-write_field}
use waddle_os.LinkedList.Ring.{has, last, Distinct, has-append, Distinct-remove, last-mem}
use waddle_os.Wdmalloc.{Wd, sz_at, lom_at, hdr_size, list_fuel}
use waddle_os.Wdmalloc.Free.{merge_both, find_prev}
use waddle_os.Wdmalloc.Blocks.{
  Block, free, extent, free_at, IsHeap, extent-append, free_count-append, free_at-append,
  free_at-within,
}
use waddle_os.Wdmalloc.Tiling.{Tiles-split}
use waddle_os.Wdmalloc.Around.{free_at-around}
use waddle_os.Wdmalloc.Links.{Chain-same, Spaced, linked_to, linked_to-runs}
use waddle_os.Wdmalloc.Unlink.{linked_to-Tiles, unlinked-Chain, has-remove}
use waddle_os.Wdmalloc.FindPrev.{find_prev-found, with_sz, linked_to-with_sz}
use waddle_os.Wdmalloc.Heap.{Kept, Kept-trans}
use waddle_os.Wdmalloc.Loose.{Loose}
use waddle_os.Wdmalloc.Aside.{
  Loose-free, Loose-Spaced, Loose-real, Loose-low, Loose-length, linked_to-Kept,
}
use waddle_os.Wdmalloc.Join.{joined, joined-Tiles, joined-lom, joined-Kept}

module _ (w : Wd) (start size : ℕ) (xs : List Block) (a s b : ℕ) (ys : List Block) (p q r v : ℕ)
    (us vs : List ℕ) (loose : Loose w start size (xs ++ (free a ∷ free s ∷ free b ∷ ys)) q)
    (list : loose.free_list ≡ us ++ (r ∷ vs)) (at : p ≡ start + extent xs)
    (behind : q ≡ p + (12 + a)) (beyond : r ≡ q + (12 + s)) (total : v ≡ a + 12 + s + 12 + b) where
  abbrev unlinked : Wd
  unlinked = linked_to w (last 0 us) (lom_at w.mem r)

  abbrev pub joined_both : Wd
  joined_both = record {
    mem = joined unlinked.mem p v (start + size);
    freelist_head = unlinked.freelist_head;
    heap_start = w.heap_start;
    heap_size = w.heap_size;
  }

  joined-ends : p + (12 + v) + extent ys ≡ start + size
  joined-ends = omega (arith, extent-append xs (free a ∷ free s ∷ free b ∷ ys), loose.whole)

  joined-few : v < 2 ^ 15
  joined-few = omega (arith, joined-ends, loose.small, at)

  list-Distinct : Distinct (us ++ (r ∷ vs))
  list-Distinct = rw list at loose.distinct

  list-free :
      (f : ℕ)
      → has f (us ++ (r ∷ vs)) ≡ true
      → free_at start (xs ++ (free a ∷ free s ∷ free b ∷ ys)) f ≡ true
  list-free f mem =
      Loose-free w start size _ q loose f (subst (λ fs. has f fs ≡ true) (sym list) mem)

  -- The state behind the first write, whose links are those before it.
  abbrev written : Wd
  written = with_sz w p v

  p-apart : (f : ℕ) → has f (us ++ (r ∷ vs)) ≡ true → (f + 12 ≤ p) ⊎ (f ≡ p) ⊎ (p + 12 ≤ f)
  p-apart f mem = ground (
    arith,
    list-free f mem,
    free_at-append start xs (free a ∷ free s ∷ free b ∷ ys) p f at,
    free_at-within start xs f,
    free_at-within (p + (12 + a)) (free s ∷ free b ∷ ys) f,
  )

  written-lom : (f : ℕ) → has f (us ++ (r ∷ vs)) ≡ true → lom_at written.mem f ≡ lom_at w.mem f
  written-lom f mem = read_field-disjoint 8 2 w.mem (p + 2) (f + 4) v (omega (arith, p-apart f mem))

  find_prev-next :
      find_prev (list_fuel w) r w.freelist_head 0 written ≡ ok ((last 0 us, r), written)
  find_prev-next =
      let real = rw list at (Loose-real w start size _ q loose) in
      let enough = Loose-length w start size _ q loose in
      find_prev-found written (list_fuel w) r w.freelist_head us vs 0
        (Chain-same w.mem written.mem w.freelist_head (us ++ (r ∷ vs)) written-lom
          (rw list at loose.chain))
        (omega (arith, enough, ap length list, length-append us (r ∷ vs)))
        (ground (arith, has-append r us vs, (Distinct-remove us r vs list-Distinct).1))
        (ground (arith, has-append 0 us (r ∷ vs), real))

  abbrev relinked : Wd
  relinked = with_sz unlinked p v

  linked_to-relinked : linked_to written (last 0 us) (lom_at w.mem r) ≡ relinked
  linked_to-relinked = linked_to-with_sz w p v (last 0 us) (lom_at w.mem r) (λ ne.
      p-apart (last 0 us) (ground (arith, last-mem 0 us, has-append (last 0 us) us (r ∷ vs))))

  pub merge_both-joined :
      (beyond_it : ℕ)
      → beyond_it ≡ (if ltb (p + (12 + v)) (start + size) then p + (12 + v) else 0)
      → merge_both q p r beyond_it w ≡ ok (tt, joined_both)
  unfolding merge_both
  merge_both-joined nn e =
      let (old, (_, z, (_, z', (_, z'', back)))) =
        Tiles-split w.mem start 0 xs (free a ∷ free s ∷ free b ∷ ys) p at loose.tiles in
      let fs : sz_at w.mem q ≡ s = rw behind z' in
      let fb : sz_at w.mem r ≡ b = rw (beyond, behind) z'' in
      let whole : u16 (a + hdr_size + s + hdr_size + b) ≡ v = omega (arith, joined-few) in
      rw
        (
          z,
          fs,
          fb,
          whole,
          find_prev-next,
          eq→== r r refl,
          written-lom r (ground (arith, has-append r us (r ∷ vs))),
          linked_to-runs written (last 0 us) (lom_at w.mem r),
          linked_to-relinked,
          e,
        )
        (elim (Bool-cases (ltb (p + (12 + v)) (start + size))) [
          | inl more ↦ rw (more, ne→== (p + (12 + v)) 0 (omega arith), joined-sz) refl
          | inr over ↦ rw over refl
        ])
    where
      joined-sz : sz_at relinked.mem p ≡ v
      joined-sz = read_field-write_field 2 unlinked.mem (p + 2) v ∙ omega (arith, joined-few)

  joined_both-listed : (f : ℕ) → has f (us ++ vs) ≡ free_at start (xs ++ (free v ∷ ys)) f
  joined_both-listed f =
      let end : p + (12 + a) + (12 + s) + (12 + b) ≡ p + (12 + v) = omega arith in
      let ys-eq = rw end at (free_at-append start xs (free a ∷ free s ∷ free b ∷ ys) p f at) in
      ground (
        arith,
        has-remove us r vs f list-Distinct,
        sym (ap (has f) list) ∙ loose.listed f,
        ys-eq,
        free_at-append start xs (free v ∷ ys) p f at,
        free_at-within start xs f,
        free_at-within (p + (12 + v)) ys f,
      )

  joined_both-where :
      (f : ℕ) → has f (us ++ vs) ≡ true → (f + 12 ≤ p) ⊎ (f ≡ p) ⊎ (p + (12 + v) ≤ f)
  joined_both-where f mem =
      elim (free_at-around start p xs (free v) ys at f (sym (joined_both-listed f) ∙ mem)) [
        | inl below ↦ inl below
        | inr (inl here) ↦ inr (inl here.0)
        | inr (inr above) ↦ inr (inr above)
      ]

  pub joined_both-IsHeap : IsHeap joined_both start size (xs ++ (free v ∷ ys))
  joined_both-IsHeap = record {
    from = loose.from;
    bytes = loose.bytes;
    real = loose.real;
    ends = loose.ends;
    small = loose.small;
    whole = omega (
      arith,
      loose.whole,
      extent-append xs (free a ∷ free s ∷ free b ∷ ys),
      extent-append xs (free v ∷ ys),
    );
    tiles =
        joined-Tiles unlinked.mem start size xs a (free s ∷ free b ∷ []) ys p v at (omega arith)
          (omega (arith, joined-few)) joined-ends
          (linked_to-Tiles w us (lom_at w.mem r) start (xs ++ (free a ∷ free s ∷ free b ∷ ys))
            (λ f mem. list-free f (ground (arith, has-append f us (r ∷ vs)))) loose.tiles);
    free_list = us ++ vs;
    chain =
        Chain-same unlinked.mem joined_both.mem unlinked.freelist_head (us ++ vs)
          (λ f mem.
            joined-lom unlinked.mem start size xs a (free s ∷ free b ∷ []) ys p v at (omega arith)
              (omega (arith, joined-few)) joined-ends f (joined_both-where f mem))
          (unlinked-Chain w us r vs (rw list at (Loose-real w start size _ q loose))
            (subst Spaced list (Loose-Spaced w start size _ q loose)) list-Distinct
            (λ f mem.
              Loose-low w start size _ q loose f (subst (λ fs. has f fs ≡ true) (sym list) mem))
            (rw list at loose.chain));
    distinct = (Distinct-remove us r vs list-Distinct).0;
    listed = joined_both-listed;
    count = omega (
      arith,
      loose.count,
      ap length list,
      length-append us vs,
      length-append us (r ∷ vs),
      free_count-append xs (free a ∷ free s ∷ free b ∷ ys),
      free_count-append xs (free v ∷ ys),
    );
  }

  pub joined_both-Kept :
      Kept start size (xs ++ (free a ∷ free s ∷ free b ∷ ys)) w.mem joined_both.mem
  joined_both-Kept =
      Kept-trans start size _ w.mem unlinked.mem joined_both.mem
        (linked_to-Kept w start size _ q loose us r vs list (lom_at w.mem r))
        (joined-Kept unlinked.mem start size xs a (free s ∷ free b ∷ []) ys p v at (omega arith)
          (omega (arith, joined-few)) joined-ends (λ b'. refl))
