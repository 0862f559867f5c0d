-- ===== src/Wdmalloc/Restore.antt =====
-- `wdfree` of what `wdmalloc` has just returned, where no two free blocks are neighbours.
use waddle_os.Base.{
  ℕ, ◌+◌, ◌-◌, ◌≤◌, ◌<◌, ◌≡◌, refl, ◌≢◌, ◌∙◌, inl, inr, true, ◌&&◌, ltb, leb, List, [], ◌∷◌, ◌++◌,
  Bool-cases, arith, ok, sym, ap,
}
use mathlib.Core.Path.{subst}
use waddle_os.Wdmalloc.{Wd, wdmalloc}
use waddle_os.Wdmalloc.Free.{wdfree}
use waddle_os.Wdmalloc.Blocks.{Block, free, used, extent, IsHeap, extent-append}
use waddle_os.Wdmalloc.Malloc.{cut, granted, wdmalloc-Served}
use waddle_os.Wdmalloc.Coalesce.{join_next}
use waddle_os.Wdmalloc.Release.{release-behind_free, append_assoc, wdfree-release}
use waddle_os.Wdmalloc.Separate.{separate, join_next-separate, release-separate}
use waddle_os.Wdmalloc.Reached.{ok_unique}

-- The end of the round trip for a block that a request has been served from.
restore :
    (w : Wd) (start size n : ℕ) (xs : List Block) (s : ℕ) (ys : List Block)
    → separate (xs ++ (free s ∷ ys)) ≡ true
    → n ≤ s
    → IsHeap w start size (xs ++ (cut n s ++ ys))
    → w.freelist_head ≢ 0
    → start + extent xs + 12 + (s - granted n s) < start + size
    → (w' : Wd) × (wdfree (start + extent xs + 12 + (s - granted n s)) w ≡ ok (tt, w'))
      × IsHeap w' start size (xs ++ (free s ∷ ys))
restore w start size n xs s ys apart enough heap head inside =
    elim (Bool-cases (ltb n s && leb 12 (s - n))) [
      | inl roomy ↦
          let rest = s - n - 12 in
          let before = xs ++ (free rest ∷ []) in
          let all : granted n s ≡ n = rw roomy refl in
          let place : start + extent before + 12 ≡ start + extent xs + 12 + (s - granted n s) =
            ground (arith, all, extent-append xs (free rest ∷ [])) in
          let heap₁ : IsHeap w start size (xs ++ (free rest ∷ used n ∷ ys)) = rw roomy at heap in
          let heap₂ =
            subst (IsHeap w start size) (sym (append_assoc xs (free rest ∷ []) (used n ∷ ys)))
              heap₁ in
          let (w', run, heap', kept) =
            wdfree-release w start size before n ys heap₂ head (omega (arith, place)) in
          let total : rest + 12 + n ≡ s = ground arith in
          let same =
            release-behind_free xs rest n ys
            ∙ ap (λ t. xs ++ join_next t ys) total
            ∙ ap (λ zs. xs ++ zs) (join_next-separate xs s ys apart) in
          (w', ap (λ p. wdfree p w) (sym place) ∙ run, subst (IsHeap w' start size) same heap')
      | inr tight ↦
          let all : granted n s ≡ s = rw tight refl in
          let place : start + extent xs + 12 ≡ start + extent xs + 12 + (s - granted n s) =
            omega (arith, all) in
          let heap₁ : IsHeap w start size (xs ++ (used s ∷ ys)) = rw tight at heap in
          let (w', run, heap', kept) =
            wdfree-release w start size xs s ys heap₁ head (omega (arith, place)) in
          (
            w',
            ap (λ p. wdfree p w) (sym place) ∙ run,
            subst (IsHeap w' start size) (release-separate xs s ys apart) heap',
          )
    ]

-- On any heap made of blocks in which no two free ones are neighbours, `wdfree` of the address that
-- `wdmalloc` has just returned restores the blocks of the heap, if that address is not NULL and lies
-- in the heap, and a free block was left.
pub wdfree-wdmalloc :
    (w w₁ : Wd) (start size n p : ℕ) (bs : List Block)
    → IsHeap w start size bs
    → separate bs ≡ true
    → wdmalloc n w ≡ ok (p, w₁)
    → p ≢ 0
    → p < start + size
    → w₁.freelist_head ≢ 0
    → (w₂ : Wd) × (wdfree p w₁ ≡ ok (tt, w₂)) × IsHeap w₂ start size bs
wdfree-wdmalloc w w₁ start size n p bs heap apart run ne inside head =
    elim (wdmalloc-Served w start size bs n heap) [
      | inl full ↦ absurd (ne (sym (ok_unique _ 0 p w w₁ full.1 run).0))
      | inr s ↦
          let (p-eq, w-eq) = ok_unique _ _ p s.next w₁ s.runs run in
          let (w₂, run₂, heap₂) =
            restore w₁ start size n s.before s.room s.behind
              (subst (λ cs. separate cs ≡ true) s.blocks apart) s.enough
              (subst (λ v. IsHeap v start size (s.before ++ (cut n s.room ++ s.behind))) w-eq
                s.heap)
              head (omega (arith, p-eq)) in
          (
            w₂,
            ap (λ a. wdfree a w₁) (sym p-eq) ∙ run₂,
            subst (IsHeap w₂ start size) (sym s.blocks) heap₂,
          )
    ]
