-- ===== src/Wdmalloc/Join.antt =====
-- A header's size field written over the blocks behind it, which makes one block of them.
use waddle_os.Base.{
  ℕ, ◌+◌, ◌^◌, ◌≤◌, ◌<◌, ◌≡◌, refl, ◌∙◌, ◌⊎◌, inl, inr, false, List, [], ◌∷◌, ◌++◌, arith,
}
use waddle_os.Memory.{Memory, write_field}
use waddle_os.Memory.Fields.{read_field-write_field, write_field-outside}
use waddle_os.Wdmalloc.{lom_at}
use waddle_os.Wdmalloc.Blocks.{
  Block, free, extent, used_at, Tiles, used_at-append, used_at-within, le-extent, extent-cases,
}
use waddle_os.Wdmalloc.Tiling.{sz_at-Same, prev_sz_at-Same, lom_at-Same, Tiles-edit, Tiles-split}
use waddle_os.Wdmalloc.Heap.{Kept, noted, noted-outside, noted-prev_sz}

-- The size field of the header at `p`, and the note of the size behind the block.
abbrev pub joined : Memory → ℕ → ℕ → ℕ → Memory
joined m p v top = noted (write_field 2 m (p + 2) v) (p + (12 + v)) top v

module _ (m : Memory) (start size : ℕ) (xs : List Block) (a : ℕ) (rest ys : List Block) (p v : ℕ)
    (at : p ≡ start + extent xs) (length_of : extent (free a ∷ rest) ≡ 12 + v) (few : v < 2 ^ 16)
    (ends : p + (12 + v) + extent ys ≡ start + size) where
  pub joined-outside :
      (b : ℕ)
      → (b < p + 2) ⊎ (p + 4 ≤ b)
      → (b < p + (12 + v)) ⊎ (p + (12 + v) + 2 ≤ b) ⊎ (start + size ≤ p + (12 + v))
      → joined m p v (start + size) b ≡ m b
  joined-outside b h g =
      noted-outside (write_field 2 m (p + 2) v) (p + (12 + v)) (start + size) v b g
      ∙ write_field-outside 2 m (p + 2) v b (omega (arith, h))

  pub joined-Tiles :
      Tiles m start 0 (xs ++ ((free a ∷ rest) ++ ys))
      → Tiles (joined m p v (start + size)) start 0 (xs ++ (free v ∷ ys))
  joined-Tiles tiles =
      let m' = joined m p v (start + size) in
      let m₁ = write_field 2 m (p + 2) v in
      let (old, (q, z, back)) = Tiles-split m start 0 xs ((free a ∷ rest) ++ ys) p at tiles in
      Tiles-edit m m' start xs (free a ∷ rest) (free v ∷ []) ys p (p + (12 + v)) at (omega arith)
        (omega arith) (λ b low high. joined-outside b (inl (omega arith)) (inl (omega arith)))
        (
          prev_sz_at-Same m m' p (λ b low high. joined-outside b (inl high) (inl (omega arith)))
              ∙ q,
          sz_at-Same m₁ m' p (λ b low high.
                noted-outside m₁ (p + (12 + v)) (start + size) v b (inl (omega arith)))
              ∙ read_field-write_field 2 m (p + 2) v
              ∙ omega arith,
          tt,
        )
        (λ more.
          noted-prev_sz m₁ (p + (12 + v)) (start + size) v (omega (arith, le-extent ys more)) few)
        (λ b low high. joined-outside b (inr (omega arith)) (inr (inl (omega arith)))) tiles

  pub joined-lom :
      (f : ℕ)
      → (f + 12 ≤ p) ⊎ (f ≡ p) ⊎ (p + (12 + v) ≤ f)
      → lom_at (joined m p v (start + size)) f ≡ lom_at m f
  joined-lom f h = lom_at-Same m (joined m p v (start + size)) f (λ b low high.
      joined-outside b (omega (arith, h)) (elim h [
        | inl below ↦ inl (omega arith)
        | inr (inl here) ↦ inl (omega arith)
        | inr (inr above) ↦ inr (inl (omega arith))
      ]))

  -- The allocated blocks lie before and behind the blocks that become one.
  pub joined-Kept :
      ((b : ℕ) → used_at p (free a ∷ rest) b ≡ false)
      → Kept start size (xs ++ ((free a ∷ rest) ++ ys)) m (joined m p v (start + size))
  joined-Kept none_used = record {
    inside = λ b h.
        let end : p + extent (free a ∷ rest) ≡ p + (12 + v) = omega arith in
        let where_it_is : (b < p) ⊎ (p + (12 + v) + 12 ≤ b) = ground (
          arith,
          used_at-append start xs ((free a ∷ rest) ++ ys) p b at,
          used_at-within start xs b,
          used_at-append p (free a ∷ rest) ys (p + extent (free a ∷ rest)) b refl,
          none_used b,
          used_at-within (p + extent (free a ∷ rest)) ys b,
          end,
        ) in
        joined-outside b (omega (arith, where_it_is)) (elim where_it_is [
          | inl below ↦ inl (omega arith)
          | inr above ↦ inr (inl (omega arith))
        ]);
    outside = λ b h. joined-outside b (omega (arith, ends, h)) (elim h [
      | inl low ↦ inl (omega arith)
      | inr high ↦ elim (extent-cases ys) [
        | inl none_behind ↦ inr (inr (omega (arith, ends)))
        | inr more ↦ inr (inl (omega (arith, ends)))
      ]
    ]);
  }
