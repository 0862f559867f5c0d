-- ===== src/Wdmalloc/Apart.antt =====
-- Two allocations from the same free block.
use waddle_os.Base.{ℕ, ◌+◌, ◌-◌, ◌^◌, ◌≤◌, ◌<◌, ◌≡◌, ◌≢◌, inr, arith, ok}
use waddle_os.Wdmalloc.{Wd, wdmalloc}
use waddle_os.Wdmalloc.Limits.{OneBlock}
use waddle_os.Wdmalloc.Carve.{wdmalloc-carves}

-- While one block is free, of fewer than 2^15 bytes and inside a heap below 2^64, and has room for
-- two requests with a header each, the second allocation ends 12 bytes below the first, and making
-- it leaves the bytes of the first as they were.
pub wdmalloc-apart :
    (w : Wd) (start size field n k : ℕ)
    → OneBlock w start size field
    → start ≢ 0
    → field + 12 ≤ size
    → field < 2 ^ 15
    → start + size < 2 ^ 64
    → n + 12 + k + 12 ≤ field
    → (p q : ℕ) × (w₁ w₂ : Wd) × (wdmalloc n w ≡ ok (p, w₁))
      × (wdmalloc k w₁ ≡ ok (q, w₂))
      × (q + k + 12 ≡ p)
      × ((a : ℕ) → p ≤ a → a < p + n → w₂.mem a ≡ w₁.mem a)
wdmalloc-apart w start size field n k one real inside unmarked ends room =
    let (w₁, e₁, one₁, _) =
      wdmalloc-carves w start size field n one real inside unmarked ends (omega arith) in
    let (w₂, e₂, _, same) =
      wdmalloc-carves w₁ start size (field - n - 12) k one₁ real (omega arith) (omega arith) ends
        (omega arith) in
    (
      start + 12 + field - n,
      start + 12 + (field - n - 12) - k,
      w₁,
      w₂,
      e₁,
      e₂,
      omega arith,
      λ a low high. same a (inr (omega arith)),
    )
