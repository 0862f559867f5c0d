-- ===== src/Wdmalloc/Aside.antt =====
-- A freed block that is not in the free list, beside the blocks that are; and `coalesce` where no
-- neighbour is free, so that the block goes to the front of the list.
use waddle_os.Base.{
  ℕ, ◌+◌, ◌%◌, ◌^◌, ◌≤◌, ◌<◌, ◌≡◌, refl, ◌≢◌, ◌∙◌, ◌⊎◌, inl, inr, true, false, ◌==◌, ltb, List, ◌∷◌,
  ◌++◌, length, le→leb, Bool-cases, arith, ok, sym, ap,
}
use mathlib.Core.Path.{subst}
use waddle_os.Memory.{write_field}
use waddle_os.Memory.Fields.{read_field-disjoint, read_field-write_field, write_field-outside}
use waddle_os.LinkedList.Ring.{has, last, has-append, last-mem}
use waddle_os.Wdmalloc.{Wd, lom_at, in_heap, list_fuel}
use waddle_os.Wdmalloc.Free.{add_free}
use waddle_os.Wdmalloc.Blocks.{Block, free_at, Chain, IsHeap, free_at-within, le_extent-free_count}
use waddle_os.Wdmalloc.Tiling.{Tiles-set_lom, free_at-apart, used_at-apart}
use waddle_os.Wdmalloc.Links.{Chain-same, Spaced, linked_to, linked_to-outside}
use waddle_os.Wdmalloc.Unlink.{Chain-bound}
use waddle_os.Wdmalloc.Heap.{Kept}
use waddle_os.Wdmalloc.Loose.{Loose}

module _ (w : Wd) (start size : ℕ) (bs : List Block) (q : ℕ) (loose : Loose w start size bs q) where
  pub Loose-free : (f : ℕ) → has f loose.free_list ≡ true → free_at start bs f ≡ true
  Loose-free f mem = ground (arith, loose.listed f)

  pub Loose-within : (f : ℕ) → free_at start bs f ≡ true → (start ≤ f) × (f + 12 ≤ start + size)
  Loose-within f h =
      let (low, high) = free_at-within start bs f h in (low, omega (arith, loose.whole))

  pub Loose-low : (f : ℕ) → has f loose.free_list ≡ true → f < 2 ^ 64
  Loose-low f mem = omega (arith, Loose-within f (Loose-free f mem), loose.ends)

  pub Loose-Spaced : Spaced loose.free_list
  Loose-Spaced f g mem mem' = free_at-apart start bs f g (Loose-free f mem) (Loose-free g mem')

  pub Loose-real : has 0 loose.free_list ≡ false
  Loose-real = elim (Bool-cases (has 0 loose.free_list)) [
    | inl listed ↦ absurd (loose.real (omega (arith, Loose-within 0 (Loose-free 0 listed))))
    | inr missing ↦ missing
  ]

  pub Loose-missing : has q loose.free_list ≡ false
  Loose-missing = ground (arith, loose.listed q)

  pub Loose-apart : (f : ℕ) → has f loose.free_list ≡ true → (f + 12 ≤ q) ⊎ (q + 12 ≤ f)
  Loose-apart f mem = elim (free_at-apart start bs f q (Loose-free f mem) loose.there) [
    | inl same ↦ absurd (ground (arith, ap (λ g. has g loose.free_list) same, Loose-missing))
    | inr either ↦ either
  ]

  pub Loose-length : length loose.free_list < list_fuel w
  Loose-length = omega (arith, loose.count, le_extent-free_count bs, loose.whole, loose.bytes)

  pub Loose-in_heap : (p : ℕ) → start ≤ p → in_heap w p ≡ ltb p (start + size)
  Loose-in_heap p low =
      let top : (start + size) % 2 ^ 64 ≡ start + size = omega (arith, loose.ends) in
      rw (loose.from, loose.bytes, top, le→leb start p low) (ground arith)

  pub Loose-head : w.freelist_head < 2 ^ 64
  Loose-head =
      Chain-bound w.mem w.freelist_head loose.free_list (2 ^ 64) loose.chain (omega arith) Loose-low

  abbrev pub added : Wd
  added = record {
    mem = write_field 8 w.mem (q + 4) w.freelist_head;
    freelist_head = q;
    heap_start = w.heap_start;
    heap_size = w.heap_size;
  }

  pub add_free-added : add_free q w ≡ ok (tt, added)
  unfolding add_free
  add_free-added = refl

  pub added-IsHeap : IsHeap added start size bs
  added-IsHeap = record {
    from = loose.from;
    bytes = loose.bytes;
    real = loose.real;
    ends = loose.ends;
    small = loose.small;
    whole = loose.whole;
    tiles = Tiles-set_lom w.mem start 0 bs q w.freelist_head loose.there loose.tiles;
    free_list = q ∷ loose.free_list;
    chain = (
      refl,
      let next : lom_at added.mem q ≡ w.freelist_head =
            read_field-write_field 8 w.mem (q + 4) w.freelist_head ∙ omega (arith, Loose-head) in
          subst (λ h. Chain added.mem h loose.free_list) (sym next)
            (Chain-same w.mem added.mem w.freelist_head loose.free_list
              (λ f mem.
                read_field-disjoint 8 8 w.mem (q + 4) (f + 4) w.freelist_head
                  (omega (arith, Loose-apart f mem)))
              loose.chain),
    );
    distinct = (Loose-missing, loose.distinct);
    listed = λ f. elim (Bool-cases (f == q)) [
      | inl here ↦
          let e : f ≡ q = ground arith in ground (arith, ap (free_at start bs) e, loose.there)
      | inr other ↦ ground (arith, loose.listed f)
    ];
    count = loose.count;
  }

  pub added-Kept : Kept start size bs w.mem added.mem
  added-Kept = record {
    inside = λ a h.
        write_field-outside 8 w.mem (q + 4) w.freelist_head a
          (omega (arith, used_at-apart start bs q a loose.there h));
    outside = λ a h.
        write_field-outside 8 w.mem (q + 4) w.freelist_head a
          (omega (arith, Loose-within q loose.there, h));
  }

  -- A link of the list lies in no allocated block.
  pub linked_to-Kept :
      (us : List ℕ) (r : ℕ) (vs : List ℕ)
      → loose.free_list ≡ us ++ (r ∷ vs)
      → (x : ℕ) → Kept start size bs w.mem (linked_to w (last 0 us) x).mem
  linked_to-Kept us r vs list x =
      let front : has 0 us ≡ false =
        ground (arith, has-append 0 us (r ∷ vs), ap (has 0) list, Loose-real) in
      let listed : last 0 us ≢ 0 → free_at start bs (last 0 us) ≡ true = λ ne.
        Loose-free (last 0 us) (
          ground (
            arith,
            ap (has (last 0 us)) list,
            last-mem 0 us,
            has-append (last 0 us) us (r ∷ vs),
          )) in
      let out = linked_to-outside w us r vs x front (subst Spaced list Loose-Spaced) in
      record {
        inside =
            λ a h. out a (λ ne. omega (arith, used_at-apart start bs (last 0 us) a (listed ne) h));
        outside = λ a h. out a (λ ne. omega (arith, Loose-within (last 0 us) (listed ne), h));
      }
