-- ===== src/Wdmalloc/Undo.antt =====
-- Allocations and their `wdfree` in the opposite order.
use waddle_os.Base.{
  ℕ, ◌+◌, ◌-◌, ◌^◌, ◌≤◌, ◌<◌, ◌≡◌, refl, ◌≢◌, ◌∙◌, ◌⊎◌, inl, inr, false, List, [], ◌∷◌, bit_or,
  arith, ok, ap, sym,
}
use mathlib.Core.Path.{subst}
use waddle_os.Memory.{Memory}
use waddle_os.Memory.Fields.{read_field-same}
use waddle_os.Wdmalloc.{Wd, Cmd, pure, ◌>>=◌, ◌>>◌, prev_sz_at, sz_at, alloc_bit, is_free, wdmalloc}
use waddle_os.Wdmalloc.Free.{wdfree}
use waddle_os.Wdmalloc.Limits.{OneBlock, laid_out, laid_out-OneBlock}
use waddle_os.Wdmalloc.Carve.{
  split_state, split_state-OneBlock, split_state-above, wdmalloc-split_state,
}
use waddle_os.Wdmalloc.Sizes.{is_free-marked}
use waddle_os.Wdmalloc.Merge.{Above, wdfree-OneBlock}
use waddle_os.Wdmalloc.Lowest.{Lowest, split_state-header}

-- Allocations of the sizes `ns`, each given back when those behind it are.
pub alloc_free : List ℕ → Cmd (Unit {0})
alloc_free [] = pure tt
alloc_free (n ∷ ns) = do p ← wdmalloc n; alloc_free ns; wdfree p

-- The bytes that such allocations take, with a header each; no size is zero.
abbrev pub needed : List ℕ → ℕ
needed [] = 0
needed (n ∷ ns) = n + 12 + needed ns

abbrev pub Positive : List ℕ → Type 0
Positive [] = Unit {0}
Positive (n ∷ ns) = (0 < n) × Positive ns

module _ (start size : ℕ) (real : start ≢ 0) (ends : start + size < 2 ^ 64) where
  -- Behind an allocation the rest of the block is the lowest one, before the allocated block.
  split_state-Lowest :
      (w : Wd) (n rest field : ℕ)
      → OneBlock w start size field
      → field ≡ rest + 12 + n
      → field + 12 ≤ size
      → 0 < n
      → field < 2 ^ 15
      → Lowest (split_state w start size n rest) start size rest
  split_state-Lowest w n rest field one e inside some_bytes small =
      let (p, s) = split_state-header w start size n rest (omega arith) (omega arith) in
      let rest-eq : field - n - 12 ≡ rest = omega arith in
      record {
        one =
            subst (λ r. OneBlock (split_state w start size n r) start size r) rest-eq
              (split_state-OneBlock w start size field n one real inside small ends (omega arith));
        next = inr (omega arith, ap is_free s ∙ is_free-marked n (omega arith), p);
      }

  sz_at-same : (m m' : Memory) (b : ℕ) → ((a : ℕ) → b + 2 ≤ a → m' a ≡ m a) → sz_at m' b ≡ sz_at m b
  sz_at-same m m' b h = read_field-same 2 m m' (b + 2) (λ a low high. h a low)

  -- Memories that agree below the heap's start, and from the header's third byte on that is behind a
  -- block of `field` bytes.
  abbrev Outside : ℕ → Memory → Memory → Type 0
  Outside field m m' = (a : ℕ) → (a < start) ⊎ (start + 14 + field ≤ a) → m' a ≡ m a

  module _ (w w₁ w₂ : Wd) (field rest n : ℕ) (e : field ≡ rest + 12 + n)
      (low : Lowest w start size field) (out₁ : Outside field w.mem w₁.mem)
      (low₂ : Lowest w₂ start size rest) (out₂ : Outside rest w₁.mem w₂.mem) (some_bytes : 0 < n)
      (inside : field + 12 ≤ size) (small : field < 2 ^ 15)
      (mark : sz_at w₁.mem (start + 12 + rest) ≡ bit_or n alloc_bit) where
    abbrev behind : ℕ
    behind = start + 24 + rest + n

    behind-eq : start + 12 + field ≡ behind
    behind-eq = omega arith

    behind-sz : sz_at w₂.mem behind ≡ sz_at w.mem behind
    behind-sz =
        sz_at-same w₁.mem w₂.mem behind (λ a h. out₂ a (inr (omega arith)))
        ∙ sz_at-same w.mem w₁.mem behind (λ a h. out₁ a (inr (omega arith)))

    mark₂ : sz_at w₂.mem (start + 12 + rest) ≡ bit_or n alloc_bit
    mark₂ = sz_at-same w₁.mem w₂.mem (start + 12 + rest) (λ a h. out₂ a (inr (omega arith))) ∙ mark

    prev₂ : prev_sz_at w₂.mem (start + 12 + rest) ≡ rest
    prev₂ = elim low₂.next [ inl last ↦ absurd (omega arith) | inr header ↦ header.2 ]

    undo-Above : Above w₂ start size rest n
    undo-Above = record {
      one = low₂.one;
      prev_sz = prev₂;
      sz = mark₂;
      next = elim low.next [
        | inl last ↦ inl (omega arith)
        | inr header ↦ inr (
          omega (arith, header.0),
          ap is_free behind-sz ∙ subst (λ b. is_free (sz_at w.mem b) ≡ false) behind-eq header.1,
        )
      ];
    }

    -- What `wdfree` makes of the block that was allocated from the lowest one.
    undo-Lowest :
        (w₃ : Wd) × (wdfree (start + 12 + field - n) w₂ ≡ ok (tt, w₃))
        × Lowest w₃ start size field
        × Outside field w.mem w₃.mem
    undo-Lowest =
        let (w₃, run, one, out₃, header₃) =
          wdfree-OneBlock start size rest n real some_bytes (omega arith) (omega arith) ends w₂
            undo-Above in
        let place : start + 12 + field - n ≡ start + 24 + rest = omega arith in
        let whole : rest + 12 + n ≡ field = omega arith in
        (
          w₃,
          ap (λ p. wdfree p w₂) place ∙ run,
          record {
            one = subst (OneBlock w₃ start size) whole one;
            next = elim low.next [
              | inl last ↦ inl last
              | inr header ↦
                  let (p, s) = header₃ (omega (arith, header.0)) in
                  let kept = ap is_free (s ∙ behind-sz) in
                  inr (
                    header.0,
                    subst (λ b. is_free (sz_at w₃.mem b) ≡ is_free (sz_at w.mem b)) (sym behind-eq)
                          kept
                        ∙ header.1,
                    subst (λ b. prev_sz_at w₃.mem b ≡ field) (sym behind-eq) (p ∙ whole),
                  )
            ];
          },
          λ a h. out₃ a (ground arith) ∙ out₂ a (ground arith) ∙ out₁ a h,
        )

  alloc_free-cons :
      (n : ℕ) (ns : List ℕ) (w w₁ w₂ w₃ : Wd) (p : ℕ)
      → wdmalloc n w ≡ ok (p, w₁)
      → alloc_free ns w₁ ≡ ok (tt, w₂)
      → wdfree p w₂ ≡ ok (tt, w₃)
      → alloc_free (n ∷ ns) w ≡ ok (tt, w₃)
  unfolding alloc_free
  alloc_free-cons n ns w w₁ w₂ w₃ p e₁ e₂ e₃ = rw (e₁, e₂) e₃

  -- Where only the first block of the heap is free, of fewer than 2^15 bytes, any allocations that it
  -- has room for, each of at least one byte and with a header of 12, and `wdfree` of them in the
  -- opposite order end normally: every byte is free again, in one block of the old size, and nothing
  -- outside the block has been written but the two bytes of the next header that hold its size.
  pub alloc_free-Lowest :
      (ns : List ℕ) (w : Wd) (field : ℕ)
      → Lowest w start size field
      → Positive ns
      → needed ns ≤ field
      → field + 12 ≤ size
      → field < 2 ^ 15
      → (w' : Wd) × (alloc_free ns w ≡ ok (tt, w'))
        × Lowest w' start size field
        × ((a : ℕ) → (a < start) ⊎ (start + 14 + field ≤ a) → w'.mem a ≡ w.mem a)
  unfolding alloc_free
  alloc_free-Lowest [] w field low positive room inside small = (w, refl, low, λ a h. refl)
  alloc_free-Lowest (n ∷ ns) w field low positive room inside small =
      let rest = field - n - 12 in
      let e : field ≡ rest + 12 + n = omega (arith, room) in
      let w₁ = split_state w start size n rest in
      let fits : n + 12 ≤ field = omega (arith, room) in
      let out₁ = split_state-above w start size field n low.one real inside small ends fits in
      let low₁ = split_state-Lowest w n rest field low.one e inside positive.0 small in
      let (w₂, e₂, low₂, out₂) =
        alloc_free-Lowest ns w₁ rest low₁ positive.1 (omega (arith, room)) (omega arith)
          (omega arith) in
      let (w₃, e₃, low₃, out₃) =
        undo-Lowest w w₁ w₂ field rest n e low out₁ low₂ out₂ positive.0 inside small
          ((split_state-header w start size n rest (omega arith) (omega arith)).1) in
      (
        w₃,
        alloc_free-cons n ns w w₁ w₂ w₃ (start + 12 + field - n)
            (wdmalloc-split_state w start size field n low.one real inside small ends fits) e₂ e₃,
        low₃,
        out₃,
      )

-- A heap that `wdmalloc_init` has laid out is one free block.
pub laid_out-Lowest :
    (m : Memory) (start size : ℕ)
    → 12 ≤ size
    → size < 2 ^ 16
    → Lowest (laid_out m start size) start size (size - 12)
laid_out-Lowest m start size h small = record {
  one = laid_out-OneBlock m start size small;
  next = inl (omega arith);
}
