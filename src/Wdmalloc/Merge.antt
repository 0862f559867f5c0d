-- ===== src/Wdmalloc/Merge.antt =====
-- `wdfree` of the block behind the only free one.
use waddle_os.Base.{
  ℕ, ◌+◌, ◌%◌, ◌^◌, ◌≤◌, ◌<◌, ◌≡◌, refl, ◌≢◌, ◌∙◌, ◌⊎◌, inl, inr, false, ltb, bit_or, if◌then◌else◌,
  ne→==, lt→ltb, le→leb, not-ltb, Bool-cases, arith, ok, ap,
}
use waddle_os.Base.Word.{u16}
use waddle_os.Memory.{Memory, read_field, write_field}
use waddle_os.Memory.Fields.{read_field-disjoint, read_field-write_field, write_field-outside}
use waddle_os.Wdmalloc.{
  Wd, prev_sz_at, sz_at, lom_at, hdr_size, alloc_bit, add_ptr, sub_ptr, is_free,
}
use waddle_os.Wdmalloc.Free.{is_free_block, merge_prev, coalesce, wdfree}
use waddle_os.Wdmalloc.Limits.{OneBlock, is_free-true}
use waddle_os.Wdmalloc.Sizes.{actual_size-marked, actual_size-id}

-- The only free block, and the block of `n` bytes behind it with the mark of an allocation. What
-- follows is another allocated block or the end of the heap.
pub record Above (w : Wd) (start size field n : ℕ) : Type 0 where
  pub one : OneBlock w start size field
  pub prev_sz : prev_sz_at w.mem (start + 12 + field) ≡ field
  pub sz : sz_at w.mem (start + 12 + field) ≡ bit_or n alloc_bit
  pub next :
      let b = start + 24 + field + n in
      (b ≡ start + size) ⊎ ((b + 12 ≤ start + size) × (is_free (sz_at w.mem b) ≡ false))

-- The block behind that one, or NULL.
abbrev next_block : ℕ → ℕ → ℕ → ℕ
next_block start size b = if ltb b (start + size) then b else 0

module _ (start size field n : ℕ) (real : start ≢ 0) (some_bytes : 0 < n)
    (inside : field + 24 + n ≤ size) (small : field + 12 + n < 2 ^ 15)
    (ends : start + size < 2 ^ 64) where
  abbrev hdr : ℕ
  hdr = start + 12 + field

  abbrev behind : ℕ
  behind = start + 24 + field + n

  -- The heap with the memory `m`, whose free list begins at its first block.
  abbrev at : Memory → Wd
  at m = record { mem = m; freelist_head = start; heap_start = start; heap_size = size }

  coalesce-merge_prev :
      (m : Memory)
      → sz_at m start ≡ field
      → prev_sz_at m hdr ≡ field
      → sz_at m hdr ≡ n
      → (behind ≡ start + size)
        ⊎ ((behind + 12 ≤ start + size) × (is_free (sz_at m behind) ≡ false))
      → coalesce hdr (at m) ≡ merge_prev hdr start (next_block start size behind) (at m)
  unfolding coalesce is_free_block
  coalesce-merge_prev m first ps s next = elim next [
    | inl last ↦
        rw
          (
            ps,
            s,
            actual_size-id n (omega arith),
            below,
            above,
            top,
            lt→ltb start (start + size) (omega arith),
            le→leb start start (omega arith),
            not-ltb behind (start + size) (omega (arith, last)),
            ne→== start 0 real,
            first,
            is_free-true field (omega arith),
          )
          refl
    | inr allocated ↦
        rw
          (
            ps,
            s,
            actual_size-id n (omega arith),
            below,
            above,
            top,
            lt→ltb start (start + size) (omega arith),
            le→leb start start (omega arith),
            le→leb start behind (omega arith),
            lt→ltb behind (start + size) (omega (arith, allocated.0)),
            ne→== behind 0 (omega arith),
            ne→== start 0 real,
            first,
            is_free-true field (omega arith),
            allocated.1,
          )
          refl
  ]
    where
      top : (start + size) % 2 ^ 64 ≡ start + size
      top = omega arith

      below : sub_ptr (sub_ptr hdr field) hdr_size ≡ start
      below = omega arith

      above : add_ptr hdr (hdr_size + n) ≡ behind
      above = omega arith

  -- The memory behind `merge_prev`, and the one behind the first two writes of `wdfree`.
  abbrev merged : Memory → Memory
  merged m =
      let m' = write_field 2 m (start + 2) (field + 12 + n) in
      if ltb behind (start + size) then write_field 2 m' behind (field + 12 + n) else m'

  abbrev freed : Memory → Memory
  freed m = write_field 8 (write_field 2 m (hdr + 2) n) (hdr + 4) 0

  merge_prev-merged :
      (m : Memory)
      → sz_at m start ≡ field
      → sz_at m hdr ≡ n
      → merge_prev hdr start (next_block start size behind) (at m) ≡ ok (tt, at (merged m))
  unfolding merge_prev
  merge_prev-merged m first s = elim (Bool-cases (ltb behind (start + size))) [
    | inl more ↦ rw (first, s, whole, more, ne→== behind 0 (omega arith)) refl
    | inr over ↦ rw (first, s, whole, over) refl
  ]
    where
      whole : u16 (field + hdr_size + n) ≡ field + 12 + n
      whole = omega arith

  freed-sz : (m : Memory) → sz_at (freed m) hdr ≡ n
  freed-sz m =
      rw
        (
          read_field-disjoint 2 8 (write_field 2 m (hdr + 2) n) (hdr + 4) (hdr + 2) 0
              (inl (omega arith)),
          read_field-write_field 2 m (hdr + 2) n,
        )
        (omega arith)

  -- Freeing writes nothing outside the header.
  freed-disjoint :
      (k : ℕ) (m : Memory) (q : ℕ)
      → (q + k ≤ hdr + 2) ⊎ (hdr + 12 ≤ q)
      → read_field k (freed m) q ≡ read_field k m q
  freed-disjoint k m q h =
      read_field-disjoint k 8 (write_field 2 m (hdr + 2) n) (hdr + 4) q 0 (ground arith)
      ∙ read_field-disjoint k 2 m (hdr + 2) q n (ground arith)

  wdfree-merged :
      (m : Memory)
      → sz_at m start ≡ field
      → prev_sz_at m hdr ≡ field
      → sz_at m hdr ≡ bit_or n alloc_bit
      → (behind ≡ start + size)
        ⊎ ((behind + 12 ≤ start + size) × (is_free (sz_at m behind) ≡ false))
      → wdfree (start + 24 + field) (at m) ≡ ok (tt, at (merged (freed m)))
  unfolding wdfree
  wdfree-merged m first ps s next =
      rw
        (
          ne→== start 0 real,
          ne→== size 0 (omega arith),
          top,
          at_hdr,
          lt→ltb (start + 24 + field) (start + size) (omega arith),
          le→leb start (start + 24 + field) (omega arith),
          lt→ltb hdr (start + size) (omega arith),
          le→leb start hdr (omega arith),
          s,
          actual_size-marked n (omega arith),
        )
        (coalesce-merge_prev (freed m) first' (freed-disjoint 2 m hdr (inl (omega arith)) ∙ ps)
            (freed-sz m) next'
          ∙ merge_prev-merged (freed m) first' (freed-sz m))
    where
      top : (start + size) % 2 ^ 64 ≡ start + size
      top = omega arith

      at_hdr : sub_ptr (start + 24 + field) hdr_size ≡ hdr
      at_hdr = omega arith

      first' : sz_at (freed m) start ≡ field
      first' = freed-disjoint 2 m (start + 2) (inl (omega arith)) ∙ first

      next' :
          (behind ≡ start + size)
          ⊎ ((behind + 12 ≤ start + size) × (is_free (sz_at (freed m) behind) ≡ false))
      next' = elim next [
        | inl last ↦ inl last
        | inr allocated ↦
            inr
              (allocated.0, rw (freed-disjoint 2 m (behind + 2) (inr (omega arith))) (allocated.1))
      ]

  merged-OneBlock :
      (m : Memory)
      → lom_at m start ≡ 0
      → OneBlock (at (merged (freed m))) start size (field + 12 + n)
  merged-OneBlock m l =
      let m' = write_field 2 (freed m) (start + 2) (field + 12 + n) in
      let s' : sz_at m' start ≡ field + 12 + n =
        read_field-write_field 2 (freed m) (start + 2) (field + 12 + n) ∙ omega arith in
      let l' : lom_at m' start ≡ 0 =
        read_field-disjoint 8 2 (freed m) (start + 2) (start + 4) (field + 12 + n)
          (inr (omega arith))
        ∙ freed-disjoint 8 m (start + 4) (inl (omega arith))
        ∙ l in
      elim (Bool-cases (ltb behind (start + size))) [
        | inl more ↦ rw more (record {
          head = refl;
          from = refl;
          bytes = refl;
          sz =
              read_field-disjoint 2 2 m' behind (start + 2) (field + 12 + n) (inl (omega arith))
              ∙ s';
          lom =
              read_field-disjoint 8 2 m' behind (start + 4) (field + 12 + n) (inl (omega arith))
              ∙ l';
        })
        | inr over ↦ rw over (record { head = refl; from = refl; bytes = refl; sz = s'; lom = l' })
      ]

  merged-outside : (m : Memory) (a : ℕ) → (a < start) ⊎ (behind + 2 ≤ a) → merged (freed m) a ≡ m a
  merged-outside m a h =
      let m₁ = write_field 2 m (hdr + 2) n in
      let m' = write_field 2 (freed m) (start + 2) (field + 12 + n) in
      let same : m' a ≡ m a = ground (
        arith,
        write_field-outside 2 (freed m) (start + 2) (field + 12 + n) a,
        write_field-outside 8 m₁ (hdr + 4) 0 a,
        write_field-outside 2 m (hdr + 2) n a,
      ) in
      ground (arith, write_field-outside 2 m' behind (field + 12 + n) a)

  -- The header behind the merged block.
  merged-next :
      (m : Memory)
      → behind + 12 ≤ start + size
      → (prev_sz_at (merged (freed m)) behind ≡ field + 12 + n)
        × (sz_at (merged (freed m)) behind ≡ sz_at m behind)
  merged-next m h =
      let m' = write_field 2 (freed m) (start + 2) (field + 12 + n) in
      let more = lt→ltb behind (start + size) (omega (arith, h)) in
      rw more (
        read_field-write_field 2 m' behind (field + 12 + n) ∙ omega arith,
        read_field-disjoint 2 2 m' behind (behind + 2) (field + 12 + n) (inr (omega arith))
            ∙ read_field-disjoint 2 2 (freed m) (start + 2) (behind + 2) (field + 12 + n)
                (inr (omega arith))
            ∙ freed-disjoint 2 m (behind + 2) (inr (omega arith)),
      )

  at-eq : (w : Wd) → OneBlock w start size field → w ≡ at w.mem
  at-eq w one = λ i. record {
    mem = w.mem;
    freelist_head = one.head i;
    heap_start = one.from i;
    heap_size = one.bytes i;
  }

  pub wdfree-OneBlock :
      (w : Wd)
      → Above w start size field n
      → (w' : Wd) × (wdfree (start + 24 + field) w ≡ ok (tt, w'))
        × OneBlock w' start size (field + 12 + n)
        × ((a : ℕ) → (a < start) ⊎ (start + 26 + field + n ≤ a) → w'.mem a ≡ w.mem a)
        × (behind + 12 ≤ start + size
            → (prev_sz_at w'.mem behind ≡ field + 12 + n)
              × (sz_at w'.mem behind ≡ sz_at w.mem behind))
  wdfree-OneBlock w above = (
    at (merged (freed w.mem)),
    ap (wdfree (start + 24 + field)) (at-eq w above.one)
        ∙ wdfree-merged w.mem above.one.sz above.prev_sz above.sz above.next,
    merged-OneBlock w.mem above.one.lom,
    λ a h. merged-outside w.mem a (ground arith),
    merged-next w.mem,
  )
