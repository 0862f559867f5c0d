-- ===== src/Wdmalloc/Dump.antt =====
-- What `wd_print_heap_state` says of a heap made of blocks.
use waddle_os.Base.{
  ℕ, zero, suc, ◌+◌, ◌-◌, ◌^◌, ◌≤◌, ◌<◌, ◌≡◌, refl, ◌∙◌, Bool, true, false, not, ◌&&◌, ◌==◌, ltb,
  if◌then◌else◌, List, [], ◌∷◌, Option, none, some, ok, ne→==, eq→==, lt→ltb, not-ltb, length,
  Bool-cases, inl, inr, arith, ap,
}
use waddle_os.Base.Word.{u16, u64}
use waddle_os.Memory.{Memory}
use waddle_os.LinkedList.Ring.{has}
use waddle_os.Wdmalloc.{
  Wd, sz_at, lom_at, magic, hdr_size, add_ptr, sub_ptr, actual_size, list_fuel,
}
use waddle_os.Wdmalloc.Limits.{is_free-true}
use waddle_os.Wdmalloc.Sizes.{actual_size-id}
use waddle_os.Wdmalloc.Blocks.{Block, free, used, bytes_of, is_unused, extent, Tiles, Chain, IsHeap}
use waddle_os.Wdmalloc.Heap.{IsHeap-Listed, IsHeap-within, IsHeap-in_heap, IsHeap-length}
use waddle_os.Wdmalloc.Neighbours.{actual_size-field_of, is_free-field_of}
use waddle_os.Wdmalloc.Print.{
  Contents, next_link, magic_ok, BlockLine, ListLine, Report, block_line, block_lines, list_line,
  list_lines, print_heap_state,
}

abbrev pub contents_of : Memory → ℕ → Block → Contents
contents_of m p (free s) = next_link (lom_at m p)
contents_of m p (used s) = magic_ok (lom_at m p == magic)

-- The line of a block at `p`, with `d` bytes in the block before it, and no warning.
abbrev pub line_of : Memory → ℕ → ℕ → ℕ → ℕ → Block → BlockLine
line_of m p d number offset b = record {
  number = number;
  address = p;
  offset = offset;
  before = d;
  bytes = bytes_of b;
  contents = contents_of m p b;
  mismatch = none;
}

-- The lines of the blocks from `p` on, up to one without bytes.
abbrev pub lines_of : Memory → ℕ → ℕ → ℕ → ℕ → List Block → List BlockLine × Bool
lines_of m p d number offset [] = ([], false)
lines_of m p d number offset (b ∷ bs) =
    if bytes_of b == 0
    then (line_of m p d number offset b ∷ [], true)
    else let (rest, stopped) =
        lines_of m (p + (12 + bytes_of b)) (bytes_of b) (number + 1) (offset + (12 + bytes_of b))
          bs in
      (line_of m p d number offset b ∷ rest, stopped)

-- The lines of the elements of the free list, with no warning.
abbrev pub listing : Memory → ℕ → List ℕ → List ListLine
listing m number [] = []
listing m number (f ∷ fs) =
    (record {
      number = number;
      address = f;
      bytes = sz_at m f;
      next = lom_at m f;
      alloc_bit_set = false;
      out_of_heap = false;
    })
    ∷ listing m (number + 1) fs

contents_of-if :
    (m : Memory) (p : ℕ) (b : Block)
    → (if is_unused b then next_link (lom_at m p) else magic_ok (lom_at m p == magic))
      ≡ contents_of m p b
contents_of-if m p (free s) = refl
contents_of-if m p (used s) = refl

-- No warning if the size is the one expected.
no_mismatch :
    (offset e d : ℕ)
    → (0 < offset → e ≡ d)
    → let nothing : Option (ℕ × ℕ) = none in
      (if ltb 0 offset && not (e == d) then some (e, d) else none) ≡ nothing
no_mismatch offset e d h = elim (Bool-cases (ltb 0 offset)) [
  | inl later ↦ rw (later, eq→== e d (h (ground arith))) refl
  | inr first ↦ rw first refl
]

module _ (w : Wd) (start size : ℕ) (cs : List Block) (heap : IsHeap w start size cs) where
  -- The header before `p` has `d` bytes behind it, unless `p` is the heap's start.
  abbrev Previous : ℕ → ℕ → ℕ → Type 0
  Previous p d offset =
      (0 < offset) → (start + 12 + d ≤ p) × (actual_size (sz_at w.mem (p - d - 12)) ≡ d)

  block_line-line_of :
      (p d number offset : ℕ) (b : Block) (bs : List Block)
      → Tiles w.mem p d (b ∷ bs)
      → p + extent (b ∷ bs) ≡ start + size
      → start ≤ p
      → d < 2 ^ 15
      → Previous p d offset
      → block_line p number offset w ≡ ok (line_of w.mem p d number offset b, w)
  unfolding block_line
  block_line-line_of p d number offset b bs t end low few prev =
      rw
        (
          t.0,
          t.1,
          actual_size-field_of b small,
          is_free-field_of b small,
          contents_of-if w.mem p b,
          whole,
          no_mismatch offset _ d expected,
        )
        refl
    where
      small : bytes_of b < 2 ^ 15
      small = omega (arith, heap.small)

      whole : u16 (bytes_of b) ≡ bytes_of b
      whole = omega (arith, small)

      expected : 0 < offset → u16 (actual_size (sz_at w.mem (sub_ptr (sub_ptr p d) hdr_size))) ≡ d
      expected more =
          let (above, e) = prev more in
          let back : sub_ptr (sub_ptr p d) hdr_size ≡ p - d - 12 = omega (arith, heap.ends) in
          rw (back, e) (omega arith)

  block_lines-lines_of :
      (fuel p d number offset : ℕ) (bs : List Block)
      → Tiles w.mem p d bs
      → p + extent bs ≡ start + size
      → extent bs < fuel
      → start + offset ≡ p
      → d < 2 ^ 15
      → Previous p d offset
      → block_lines fuel p number offset w ≡ ok (lines_of w.mem p d number offset bs, w)
  unfolding block_lines
  block_lines-lines_of zero p d number offset bs t end enough at few prev = absurd (omega arith)
  block_lines-lines_of (suc fuel) p d number offset [] t end enough at few prev =
      rw
        (
          IsHeap-in_heap w start size cs heap p (omega arith),
          not-ltb p (start + size) (omega arith),
        )
        refl
  block_lines-lines_of (suc fuel) p d number offset (b ∷ bs) t end enough at few prev =
      rw
        (
          IsHeap-in_heap w start size cs heap p (omega arith),
          lt→ltb p (start + size) (omega arith),
          block_line-line_of p d number offset b bs t end (omega arith) few prev,
        )
        (elim (Bool-cases (bytes_of b == 0)) [
          | inl nothing ↦ rw (nothing, eq→== (hdr_size + bytes_of b) hdr_size (ground arith)) refl
          | inr something ↦
              rw
                (
                  something,
                  ne→== (hdr_size + bytes_of b) hdr_size (λ e. ground arith),
                  there,
                  further,
                  block_lines-lines_of fuel (p + (12 + bytes_of b)) (bytes_of b) (number + 1)
                      (offset + (12 + bytes_of b)) bs t.2 (omega arith) (omega arith) (omega arith)
                      small (λ more. (omega arith, rw (back, t.1) (actual_size-field_of b small))),
                )
                refl
        ])
    where
      small : bytes_of b < 2 ^ 15
      small = omega (arith, heap.small)

      there : add_ptr p (hdr_size + bytes_of b) ≡ p + (12 + bytes_of b)
      there = omega (arith, heap.ends)

      further : u64 (offset + (hdr_size + bytes_of b)) ≡ offset + (12 + bytes_of b)
      further = omega (arith, heap.ends)

      back : p + (12 + bytes_of b) - bytes_of b - 12 ≡ p
      back = omega arith

  list_line-plain :
      (f number : ℕ)
      → has f heap.free_list ≡ true
      → list_line f number w
        ≡ ok (
          record {
            number = number;
            address = f;
            bytes = sz_at w.mem f;
            next = lom_at w.mem f;
            alloc_bit_set = false;
            out_of_heap = false;
          },
          w,
        )
  unfolding list_line
  list_line-plain f number mem =
      let l = IsHeap-Listed w start size cs heap f mem in
      let (low, high) = IsHeap-within w start size cs heap f mem in
      let few : sz_at w.mem f < 2 ^ 15 = omega (arith, l.sz, l.small) in
      rw
        (
          actual_size-id (sz_at w.mem f) few,
          is_free-true (sz_at w.mem f) few,
          IsHeap-in_heap w start size cs heap f low,
          lt→ltb f (start + size) (omega arith),
        )
        refl

  list_lines-listing :
      (fuel a number : ℕ) (fs : List ℕ)
      → Chain w.mem a fs
      → length fs < fuel
      → ((f : ℕ) → has f fs ≡ true → has f heap.free_list ≡ true)
      → list_lines fuel a number w ≡ ok (listing w.mem number fs, w)
  unfolding list_lines
  list_lines-listing zero a number fs c enough listed = absurd (omega arith)
  list_lines-listing (suc fuel) a number [] c enough listed = rw c refl
  list_lines-listing (suc fuel) a number (f ∷ fs) c enough listed =
      let mem = listed f (ground arith) in
      let within = IsHeap-within w start size cs heap f mem in
      rw
        (
          c.0,
          ne→== f 0 (λ e. heap.real (omega arith)),
          list_line-plain f number mem,
          list_lines-listing fuel (lom_at w.mem f) (number + 1) fs c.1 (omega arith)
              (λ g there. listed g (ground arith)),
        )
        refl

  -- On a heap made of blocks, `wd_print_heap_state` ends. It prints a line for each block in turn, up
  -- to the first block without bytes, with no warning of a size that differs, and a line for each
  -- element of the free list in turn, with no warning.
  pub print_heap_state-lines_of :
      let (lines, stopped) = lines_of w.mem start 0 0 0 cs in
      print_heap_state w
      ≡ ok (
        record {
          total = size;
          blocks = lines;
          zero_size = stopped;
          free_list = listing w.mem 0 heap.free_list;
        },
        w,
      )
  unfolding print_heap_state
  print_heap_state-lines_of =
      rw
        (
          first,
          list_lines-listing (list_fuel w) w.freelist_head 0 heap.free_list heap.chain
              (IsHeap-length w start size cs heap) (λ f mem. mem),
        )
        (ap
          (λ t.
            let (lines, stopped) = lines_of w.mem start 0 0 0 cs in
            let report : Report = record {
              total = t;
              blocks = lines;
              zero_size = stopped;
              free_list = listing w.mem 0 heap.free_list;
            } in
            ok (report, w))
          heap.bytes)
    where
      first : block_lines (list_fuel w) w.heap_start 0 0 w ≡ ok (lines_of w.mem start 0 0 0 cs, w)
      first =
          ap (λ a. block_lines (list_fuel w) a 0 0 w) heap.from
          ∙ block_lines-lines_of (list_fuel w) start 0 0 0 cs heap.tiles (omega (arith, heap.whole))
              (omega (arith, heap.whole, heap.bytes)) (omega arith) (omega arith)
              (λ more. absurd (omega arith))
