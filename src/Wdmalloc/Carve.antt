-- ===== src/Wdmalloc/Carve.antt =====
-- `wdmalloc` and `wdfree` while the free list is one block: allocations are cut off its upper end.
use waddle_os.Base.{
  ℕ, ◌+◌, ◌-◌, ◌%◌, ◌^◌, ◌≤◌, ◌<◌, ◌≡◌, refl, ◌∙◌, ◌≢◌, ◌⊎◌, false, bit_or, ltb, if◌then◌else◌, inl,
  inr, lt→ltb, le→leb, ne→==, arith, ok, Bool-cases,
}
use waddle_os.Base.Word.{u16}
use waddle_os.Memory.{Memory, write_field}
use waddle_os.Memory.Fields.{read_field-disjoint, read_field-write_field, write_field-outside}
use waddle_os.Wdmalloc.{
  Wd, no_best, sz_at, lom_at, hdr_size, magic, alloc_bit, add_ptr, find_best, wdmalloc, split_block,
  uninitialised, list_fuel,
}
use waddle_os.Wdmalloc.Limits.{OneBlock, is_free-true, find_best-one}

-- The memory behind `split_block`, before the last write.
abbrev pub split_memory : Memory → ℕ → ℕ → ℕ → Memory
split_memory m start n rest =
    write_field 8
      (write_field 2 (write_field 2 (write_field 2 m (start + 2) rest) (start + (12 + rest)) rest)
        (start + (12 + rest) + 2) (bit_or n alloc_bit))
      (start + (12 + rest) + 4) magic

abbrev pub split_state : Wd → ℕ → ℕ → ℕ → ℕ → Wd
split_state w start size n rest =
    let m = split_memory w.mem start n rest in
    let behind = start + (12 + rest) + (12 + n) in
    record w { mem = if ltb behind (start + size) then write_field 2 m behind n else m }

module _ (w : Wd) (start size field n : ℕ) (one : OneBlock w start size field) (real : start ≢ 0)
    (inside : field + 12 ≤ size) (unmarked : field < 2 ^ 15) (ends : start + size < 2 ^ 64) where
  abbrev rest : ℕ
  rest = field - n - 12

  split_block-runs :
      n + 12 ≤ field
      → split_block n start field w ≡ ok (start + 12 + field - n, split_state w start size n rest)
  unfolding split_block
  split_block-runs room =
      rw
        (
          cut,
          at,
          adj,
          one.bytes,
          one.from,
          top,
          le→leb start (start + (12 + rest) + (12 + n)) (omega arith),
          result,
        )
        (elim (Bool-cases (ltb (start + (12 + rest) + (12 + n)) (start + size))) [
          | inl more ↦ rw more refl
          | inr none_behind ↦ rw none_behind refl
        ])
    where
      top : (start + size) % 2 ^ 64 ≡ start + size
      top = omega arith

      result : add_ptr (start + (12 + rest)) hdr_size ≡ start + 12 + field - n
      result = omega arith

      cut : u16 (field - n - hdr_size) ≡ rest
      cut = omega arith

      at : add_ptr start (hdr_size + rest) ≡ start + (12 + rest)
      at = omega arith

      adj : add_ptr (start + (12 + rest)) (hdr_size + n) ≡ start + (12 + rest) + (12 + n)
      adj = omega arith

  split_memory-above :
      n + 12 ≤ field
      → (a : ℕ) → (a < start + 2) ⊎ (start + 12 + field ≤ a) ⊎ ((start + 4 ≤ a) × (a < start + 12))
      → split_memory w.mem start n rest a ≡ w.mem a
  split_memory-above room a h =
      let m₁ = write_field 2 w.mem (start + 2) rest in
      let m₂ = write_field 2 m₁ (start + (12 + rest)) rest in
      let m₃ = write_field 2 m₂ (start + (12 + rest) + 2) (bit_or n alloc_bit) in
      ground (
        arith,
        write_field-outside 8 m₃ (start + (12 + rest) + 4) magic a,
        write_field-outside 2 m₂ (start + (12 + rest) + 2) (bit_or n alloc_bit) a,
        write_field-outside 2 m₁ (start + (12 + rest)) rest a,
        write_field-outside 2 w.mem (start + 2) rest a,
      )

  split_memory-fields :
      n + 12 ≤ field
      → (sz_at (split_memory w.mem start n rest) start ≡ rest)
        × (lom_at (split_memory w.mem start n rest) start ≡ 0)
  split_memory-fields room =
      let m₁ = write_field 2 w.mem (start + 2) rest in
      let m₂ = write_field 2 m₁ (start + (12 + rest)) rest in
      let m₃ = write_field 2 m₂ (start + (12 + rest) + 2) (bit_or n alloc_bit) in
      (
        rw
            (
              read_field-disjoint 2 8 m₃ (start + (12 + rest) + 4) (start + 2) magic
                  (inl (omega arith)),
              read_field-disjoint 2 2 m₂ (start + (12 + rest) + 2) (start + 2) (bit_or n alloc_bit)
                  (inl (omega arith)),
              read_field-disjoint 2 2 m₁ (start + (12 + rest)) (start + 2) rest (inl (omega arith)),
              read_field-write_field 2 w.mem (start + 2) rest,
            )
            (omega arith),
        rw
            (
              read_field-disjoint 8 8 m₃ (start + (12 + rest) + 4) (start + 4) magic
                  (inl (omega arith)),
              read_field-disjoint 8 2 m₂ (start + (12 + rest) + 2) (start + 4) (bit_or n alloc_bit)
                  (inl (omega arith)),
              read_field-disjoint 8 2 m₁ (start + (12 + rest)) (start + 4) rest (inl (omega arith)),
              read_field-disjoint 8 2 w.mem (start + 2) (start + 4) rest (inr (omega arith)),
            )
            one.lom,
      )

  pub split_state-OneBlock :
      n + 12 ≤ field → OneBlock (split_state w start size n rest) start size rest
  split_state-OneBlock room =
      let m = split_memory w.mem start n rest in
      let behind = start + (12 + rest) + (12 + n) in
      let (s, l) = split_memory-fields room in
      elim (Bool-cases (ltb behind (start + size))) [
        | inl more ↦ rw more (record {
          head = one.head;
          from = one.from;
          bytes = one.bytes;
          sz = rw (read_field-disjoint 2 2 m behind (start + 2) n (inl (omega arith))) s;
          lom = rw (read_field-disjoint 8 2 m behind (start + 4) n (inl (omega arith))) l;
        })
        | inr none_behind ↦
            rw none_behind
              (record { head = one.head; from = one.from; bytes = one.bytes; sz = s; lom = l })
      ]

  pub split_state-above :
      n + 12 ≤ field
      → (a : ℕ) → (a < start) ⊎ (start + 14 + field ≤ a)
      → (split_state w start size n rest).mem a ≡ w.mem a
  split_state-above room a h =
      let m = split_memory w.mem start n rest in
      let behind = start + (12 + rest) + (12 + n) in
      let same : m a ≡ w.mem a =
        split_memory-above room a
          (elim h [ inl before ↦ inl (omega arith) | inr behind_it ↦ inr (inl (omega arith)) ]) in
      ground (arith, write_field-outside 2 m behind n a)

  -- The search finds the block.
  pub find_best-block :
      n ≤ field
      → find_best (list_fuel w) n w.freelist_head 0 no_best w
        ≡ ok (record { min = start; min_prev = 0; min_sz = field }, w)
  find_best-block h =
      find_best-one (list_fuel w) w.freelist_head n start field w (omega (arith, one.bytes))
        one.head real one.sz one.lom
      ∙ rw (is_free-true field unmarked, le→leb n field h, lt→ltb field (2 ^ 16 - 1) (omega arith))
          refl

  pub wdmalloc-split_state :
      n + 12 ≤ field → wdmalloc n w ≡ ok (start + 12 + field - n, split_state w start size n rest)
  unfolding wdmalloc
  wdmalloc-split_state room =
      rw
        (
          uninit,
          find_best-block (omega arith),
          ne→== start 0 real,
          ne→== field (2 ^ 16 - 1) (omega arith),
          one.sz,
          lt→ltb n field (omega arith),
          le→leb hdr_size (field - n) (omega arith),
        )
        (split_block-runs room)
    where
      uninit : uninitialised w ≡ false
      uninit = ground (arith, one.head, one.from, one.bytes, real)

  -- While one block is free, of fewer than 2^15 bytes and inside a heap below 2^64, and has room
  -- for a header beside the `n` bytes asked for, `wdmalloc` returns the upper end of the block:
  -- `n` bytes behind a new header. The block stays free with the remaining size, and no byte
  -- outside it is written but the two of the next header that hold the size of the block before
  -- it.
  pub wdmalloc-carves :
      n + 12 ≤ field
      → (w' : Wd) × (wdmalloc n w ≡ ok (start + 12 + field - n, w'))
        × OneBlock w' start size (field - n - 12)
        × ((a : ℕ) → (a < start) ⊎ (start + 14 + field ≤ a) → w'.mem a ≡ w.mem a)
  wdmalloc-carves room = (
    split_state w start size n rest,
    wdmalloc-split_state room,
    split_state-OneBlock room,
    split_state-above room,
  )
