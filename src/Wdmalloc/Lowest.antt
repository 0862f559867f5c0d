-- ===== src/Wdmalloc/Lowest.antt =====
-- A heap whose lowest block is the only free one, and the header of a block that is cut off it.
use waddle_os.Base.{
  ℕ, ◌+◌, ◌^◌, ◌≤◌, ◌<◌, ◌≡◌, ◌∙◌, ◌⊎◌, inl, inr, Bool-cases, false, ltb, bit_or, arith,
}
use mathlib.Core.Path.{subst}
use waddle_os.Memory.{Memory, write_field}
use waddle_os.Memory.Fields.{read_field-disjoint, read_field-write_field}
use waddle_os.Wdmalloc.{Wd, prev_sz_at, sz_at, alloc_bit, magic, is_free}
use waddle_os.Wdmalloc.Limits.{OneBlock}
use waddle_os.Wdmalloc.Carve.{split_memory, split_state}
use waddle_os.Wdmalloc.Sizes.{marked_lt}

-- Only the first block of the heap is free; behind it is the end of the heap, or an allocated block
-- that knows its size.
pub record Lowest (w : Wd) (start size field : ℕ) : Type 0 where
  pub one : OneBlock w start size field
  pub next :
      let b = start + 12 + field in
      (b ≡ start + size)
      ⊎ ((b + 12 ≤ start + size) × (is_free (sz_at w.mem b) ≡ false) × (prev_sz_at w.mem b ≡ field))

-- The header that `split_block` writes, `h` bytes above the block that stays free.
pub split_memory-header :
    (m : Memory) (start n rest : ℕ)
    → n < 2 ^ 15
    → rest < 2 ^ 16
    → let h = start + (12 + rest) in
      (prev_sz_at (split_memory m start n rest) h ≡ rest)
      × (sz_at (split_memory m start n rest) h ≡ bit_or n alloc_bit)
split_memory-header m start n rest few small =
    let h = start + (12 + rest) in
    let m₁ = write_field 2 m (start + 2) rest in
    let m₂ = write_field 2 m₁ h rest in
    let m₃ = write_field 2 m₂ (h + 2) (bit_or n alloc_bit) in
    (
      read_field-disjoint 2 8 m₃ (h + 4) h magic (inl (omega arith))
          ∙ read_field-disjoint 2 2 m₂ (h + 2) h (bit_or n alloc_bit) (inl (omega arith))
          ∙ read_field-write_field 2 m₁ h rest
          ∙ omega arith,
      read_field-disjoint 2 8 m₃ (h + 4) (h + 2) magic (inl (omega arith))
          ∙ read_field-write_field 2 m₂ (h + 2) (bit_or n alloc_bit)
          ∙ omega (arith, marked_lt n few),
    )

-- The same header behind the last write of `split_block`, which does not reach it.
pub split_state-header :
    (w : Wd) (start size n rest : ℕ)
    → n < 2 ^ 15
    → rest < 2 ^ 16
    → let m = (split_state w start size n rest).mem in
      let h = start + 12 + rest in (prev_sz_at m h ≡ rest) × (sz_at m h ≡ bit_or n alloc_bit)
split_state-header w start size n rest few small =
    let m = split_memory w.mem start n rest in
    let behind = start + (12 + rest) + (12 + n) in
    let (p, s) = split_memory-header w.mem start n rest few small in
    let place : start + (12 + rest) ≡ start + 12 + rest = omega arith in
    subst
      (λ h.
        (prev_sz_at (split_state w start size n rest).mem h ≡ rest)
        × (sz_at (split_state w start size n rest).mem h ≡ bit_or n alloc_bit))
      place
      (elim (Bool-cases (ltb behind (start + size))) [
        | inl more ↦ rw more (
          read_field-disjoint 2 2 m behind (start + (12 + rest)) n (inl (omega arith)) ∙ p,
          read_field-disjoint 2 2 m behind (start + (12 + rest) + 2) n (inl (omega arith)) ∙ s,
        )
        | inr over ↦ rw over (p, s)
      ])
