-- ===== src/Wdmalloc/Around.antt =====
-- Where the other blocks lie if the blocks are `xs`, one at `q`, and `ys`.
use waddle_os.Base.{ℕ, ◌+◌, ◌≤◌, ◌<◌, ◌≡◌, ◌⊎◌, true, false, List, ◌∷◌, ◌++◌, arith}
use waddle_os.Wdmalloc.Blocks.{
  Block, bytes_of, is_unused, extent, free_at, used_at, free_at-append, used_at-append,
  free_at-within, used_at-within,
}

module _ (start q : ℕ) (xs : List Block) (b : Block) (ys : List Block)
    (at : q ≡ start + extent xs) where
  pub free_at-around :
      (f : ℕ)
      → free_at start (xs ++ (b ∷ ys)) f ≡ true
      → (f + 12 ≤ q) ⊎ ((f ≡ q) × (is_unused b ≡ true)) ⊎ (q + (12 + bytes_of b) ≤ f)
  free_at-around f h = ground (
    arith,
    free_at-append start xs (b ∷ ys) q f at,
    free_at-within start xs f,
    free_at-within (q + (12 + bytes_of b)) ys f,
  )

  pub used_at-around :
      (a : ℕ)
      → used_at start (xs ++ (b ∷ ys)) a ≡ true
      → (a < q)
        ⊎ ((is_unused b ≡ false) × (q + 12 ≤ a) × (a < q + (12 + bytes_of b)))
        ⊎ (q + (12 + bytes_of b) + 12 ≤ a)
  used_at-around a h = ground (
    arith,
    used_at-append start xs (b ∷ ys) q a at,
    used_at-within start xs a,
    used_at-within (q + (12 + bytes_of b)) ys a,
  )
