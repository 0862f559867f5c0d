-- ===== src/Wdmalloc/Release.antt =====
-- `wdfree` on any heap: the block becomes free and takes up the free blocks beside it.
use waddle_os.Base.{
  ℕ, ◌+◌, ◌<◌, ◌≡◌, refl, ◌≢◌, ◌∙◌, ◌⊎◌, inl, inr, List, [], ◌∷◌, ◌++◌, arith, ok, sym, ap,
}
use mathlib.Core.Path.{subst}
use waddle_os.Wdmalloc.{Wd, prev_sz_at}
use waddle_os.Wdmalloc.Free.{wdfree}
use waddle_os.Wdmalloc.Blocks.{Block, free, used, extent, IsHeap, extent-append}
use waddle_os.Wdmalloc.Heap.{Kept, Kept-trans}
use waddle_os.Wdmalloc.Loose.{
  Loose, marked_free, wdfree-marked_free, marked_free-Loose, marked_free-Kept,
}
use waddle_os.Wdmalloc.Neighbours.{PrevIs-start}
use waddle_os.Wdmalloc.Coalesce.{
  join_next, Coalesced, Loose-Freed, Loose-Behind, coalesce-behind_used, coalesce-behind_free,
}

-- The blocks behind `wdfree` of the one of `s` bytes between `xs` and `ys`.
abbrev pub release : List Block → ℕ → List Block → List Block
release [] s ys = join_next s ys
release (used a ∷ xs) s ys = used a ∷ release xs s ys
release (free a ∷ []) s ys = join_next (a + 12 + s) ys
release (free a ∷ b ∷ xs) s ys = free a ∷ release (b ∷ xs) s ys

pub append_assoc : (xs ys zs : List Block) → (xs ++ ys) ++ zs ≡ xs ++ (ys ++ zs)
append_assoc [] ys zs = refl
append_assoc (x ∷ xs) ys zs = ap (◌∷◌ x) (append_assoc xs ys zs)

pub release-behind_used :
    (xs : List Block) (b s : ℕ) (ys : List Block)
    → release (xs ++ (used b ∷ [])) s ys ≡ (xs ++ (used b ∷ [])) ++ join_next s ys
release-behind_used [] b s ys = refl
release-behind_used (used a ∷ xs) b s ys = ap (◌∷◌ (used a)) (release-behind_used xs b s ys)
release-behind_used (free a ∷ []) b s ys = refl
release-behind_used (free a ∷ c ∷ xs) b s ys =
    ap (◌∷◌ (free a)) (release-behind_used (c ∷ xs) b s ys)

pub release-behind_free :
    (xs : List Block) (a s : ℕ) (ys : List Block)
    → release (xs ++ (free a ∷ [])) s ys ≡ xs ++ join_next (a + 12 + s) ys
release-behind_free [] a s ys = refl
release-behind_free (used b ∷ xs) a s ys = ap (◌∷◌ (used b)) (release-behind_free xs a s ys)
release-behind_free (free b ∷ []) a s ys = refl
release-behind_free (free b ∷ c ∷ xs) a s ys =
    ap (◌∷◌ (free b)) (release-behind_free (c ∷ xs) a s ys)

split_last :
    (xs : List Block) → (xs ≡ []) ⊎ ((zs : List Block) × (b : Block) × (xs ≡ zs ++ (b ∷ [])))
split_last [] = inl refl
split_last (x ∷ xs) = inr (elim (split_last xs) [
  | inl none_left ↦ ([], x, ap (◌∷◌ x) none_left)
  | inr some_left ↦ let (zs, b, e) = some_left in (x ∷ zs, b, ap (◌∷◌ x) e)
])

-- What `coalesce` has to do for a freed block with `xs` before it.
abbrev Releases : Wd → ℕ → ℕ → ℕ → List Block → ℕ → List Block → Type 0
Releases w start size s ys q xs =
    q ≡ start + extent xs
    → Loose w start size (xs ++ (free s ∷ ys)) q
    → Coalesced w start size (xs ++ (free s ∷ ys)) q (release xs s ys)

module _ (w : Wd) (start size : ℕ) (s : ℕ) (ys : List Block) (q : ℕ) where
  Releases-first : Releases w start size s ys q []
  Releases-first at loose =
      let f = Loose-Freed w start size [] s ys q at loose in
      coalesce-behind_used w start size [] s ys q 0 at
        (PrevIs-start w start size (free s ∷ ys) q s loose f.low f.inside (omega arith)
          (ap (prev_sz_at w.mem) first ∙ loose.tiles.0))
        loose
    where
      first : q ≡ start
      first = omega arith

  Releases-used : (zs : List Block) (b : ℕ) → Releases w start size s ys q (zs ++ (used b ∷ []))
  Releases-used zs b at loose =
      let p = start + extent zs in
      let all = append_assoc zs (used b ∷ []) (free s ∷ ys) in
      let behind : q ≡ p + (12 + b) = omega (arith, extent-append zs (used b ∷ [])) in
      let l =
        Loose-Behind w start size zs (used b) s ys q p refl behind
          (subst (λ cs. Loose w start size cs q) all loose) in
      subst (Coalesced w start size ((zs ++ (used b ∷ [])) ++ (free s ∷ ys)) q)
        (sym (release-behind_used zs b s ys))
        (coalesce-behind_used w start size (zs ++ (used b ∷ [])) s ys q p at l.prev loose)

  Releases-free : (zs : List Block) (a : ℕ) → Releases w start size s ys q (zs ++ (free a ∷ []))
  Releases-free zs a at loose =
      let p = start + extent zs in
      let all = append_assoc zs (free a ∷ []) (free s ∷ ys) in
      let behind : q ≡ p + (12 + a) = omega (arith, extent-append zs (free a ∷ [])) in
      subst (λ bs. Coalesced w start size bs q (release (zs ++ (free a ∷ [])) s ys)) (sym all)
        (subst (Coalesced w start size (zs ++ (free a ∷ free s ∷ ys)) q)
          (sym (release-behind_free zs a s ys))
          (coalesce-behind_free w start size zs a s ys q p refl behind
            (subst (λ cs. Loose w start size cs q) all loose)))

  Releases-all :
      (xs : List Block)
      → (xs ≡ []) ⊎ ((zs : List Block) × (b : Block) × (xs ≡ zs ++ (b ∷ [])))
      → Releases w start size s ys q xs
  Releases-all xs (inl e) = subst (Releases w start size s ys q) (sym e) Releases-first
  Releases-all xs (inr (zs, used b, e)) =
      subst (Releases w start size s ys q) (sym e) (Releases-used zs b)
  Releases-all xs (inr (zs, free a, e)) =
      subst (Releases w start size s ys q) (sym e) (Releases-free zs a)

-- On any heap made of blocks with a free one among them, `wdfree` of the address behind the header
-- of an allocated block ends, if that address lies in the heap. The block and the free blocks on
-- either side of it are then one free block, the heap is again made of blocks, and no byte of
-- another allocated block or outside the heap changes.
pub wdfree-release :
    (w : Wd) (start size : ℕ) (xs : List Block) (s : ℕ) (ys : List Block)
    → IsHeap w start size (xs ++ (used s ∷ ys))
    → w.freelist_head ≢ 0
    → start + extent xs + 12 < start + size
    → (w' : Wd) × (wdfree (start + extent xs + 12) w ≡ ok (tt, w'))
      × IsHeap w' start size (release xs s ys)
      × Kept start size (xs ++ (free s ∷ ys)) w.mem w'.mem
wdfree-release w start size xs s ys heap head inside =
    let q = start + extent xs in
    let w₁ = marked_free w start size xs s ys q heap refl in
    let loose = marked_free-Loose w start size xs s ys q heap refl in
    let c = Releases-all w₁ start size s ys q xs (split_last xs) refl loose in
    (
      c.next,
      wdfree-marked_free w start size xs s ys q heap refl head inside ∙ c.runs,
      c.heap,
      Kept-trans start size (xs ++ (free s ∷ ys)) w.mem w₁.mem c.next.mem
          (marked_free-Kept w start size xs s ys q heap refl) c.kept,
    )
