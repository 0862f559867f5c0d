-- ===== src/Wdmalloc/Separate.antt =====
-- Heaps in which no two free blocks are neighbours, as allocation and release keep them.
use waddle_os.Base.{
  ℕ, ◌+◌, ◌-◌, ◌≡◌, refl, Bool, true, false, ◌&&◌, ltb, leb, List, [], ◌∷◌, ◌++◌, Bool-cases, inl,
  inr, arith, ap,
}
use waddle_os.Wdmalloc.Blocks.{Block, free, used}
use waddle_os.Wdmalloc.Malloc.{cut}
use waddle_os.Wdmalloc.Coalesce.{join_next}
use waddle_os.Wdmalloc.Release.{release}

-- No two free blocks are neighbours.
abbrev pub separate : List Block → Bool
separate [] = true
separate (used a ∷ bs) = separate bs
separate (free a ∷ []) = true
separate (free a ∷ used b ∷ bs) = separate bs
separate (free a ∷ free b ∷ bs) = false

-- Between such blocks a free one joins nothing.
pub join_next-separate :
    (xs : List Block) (s : ℕ) (ys : List Block)
    → separate (xs ++ (free s ∷ ys)) ≡ true
    → join_next s ys ≡ free s ∷ ys
join_next-separate [] s [] h = refl
join_next-separate [] s (used b ∷ ys) h = refl
join_next-separate [] s (free b ∷ ys) h = absurd (ground arith)
join_next-separate (used a ∷ xs) s ys h = join_next-separate xs s ys h
join_next-separate (free a ∷ []) s ys h = absurd (ground arith)
join_next-separate (free a ∷ used b ∷ xs) s ys h = join_next-separate xs s ys h
join_next-separate (free a ∷ free b ∷ xs) s ys h = absurd (ground arith)

pub release-separate :
    (xs : List Block) (s : ℕ) (ys : List Block)
    → separate (xs ++ (free s ∷ ys)) ≡ true
    → release xs s ys ≡ xs ++ (free s ∷ ys)
release-separate [] s ys h = join_next-separate [] s ys h
release-separate (used a ∷ xs) s ys h = ap (◌∷◌ (used a)) (release-separate xs s ys h)
release-separate (free a ∷ []) s ys h = absurd (ground arith)
release-separate (free a ∷ used b ∷ xs) s ys h =
    ap (λ zs. free a ∷ used b ∷ zs) (release-separate xs s ys h)
release-separate (free a ∷ free b ∷ xs) s ys h = absurd (ground arith)

separate-split :
    (xs : List Block) (s r n : ℕ) (ys : List Block)
    → separate (xs ++ (free s ∷ ys)) ≡ true
    → separate (xs ++ (free r ∷ used n ∷ ys)) ≡ true
separate-split [] s r n [] h = refl
separate-split [] s r n (used b ∷ ys) h = h
separate-split [] s r n (free b ∷ ys) h = absurd (ground arith)
separate-split (used a ∷ xs) s r n ys h = separate-split xs s r n ys h
separate-split (free a ∷ []) s r n ys h = absurd (ground arith)
separate-split (free a ∷ used b ∷ xs) s r n ys h = separate-split xs s r n ys h
separate-split (free a ∷ free b ∷ xs) s r n ys h = absurd (ground arith)

separate-take :
    (xs : List Block) (s : ℕ) (ys : List Block)
    → separate (xs ++ (free s ∷ ys)) ≡ true
    → separate (xs ++ (used s ∷ ys)) ≡ true
separate-take [] s [] h = refl
separate-take [] s (used b ∷ ys) h = h
separate-take [] s (free b ∷ ys) h = absurd (ground arith)
separate-take (used a ∷ xs) s ys h = separate-take xs s ys h
separate-take (free a ∷ []) s ys h = absurd (ground arith)
separate-take (free a ∷ used b ∷ xs) s ys h = separate-take xs s ys h
separate-take (free a ∷ free b ∷ xs) s ys h = absurd (ground arith)

pub separate-cut :
    (xs : List Block) (n s : ℕ) (ys : List Block)
    → separate (xs ++ (free s ∷ ys)) ≡ true
    → separate (xs ++ (cut n s ++ ys)) ≡ true
separate-cut xs n s ys h = elim (Bool-cases (ltb n s && leb 12 (s - n))) [
  | inl roomy ↦ rw roomy (separate-split xs s (s - n - 12) n ys h)
  | inr tight ↦ rw tight (separate-take xs s ys h)
]

separate-join_next :
    (s : ℕ) (ys : List Block) → separate ys ≡ true → separate (join_next s ys) ≡ true
separate-join_next s [] h = refl
separate-join_next s (used b ∷ ys) h = h
separate-join_next s (free b ∷ []) h = refl
separate-join_next s (free b ∷ used c ∷ ys) h = h
separate-join_next s (free b ∷ free c ∷ ys) h = absurd (ground arith)

pub separate-release :
    (xs : List Block) (s : ℕ) (ys : List Block)
    → separate (xs ++ (used s ∷ ys)) ≡ true
    → separate (release xs s ys) ≡ true
separate-release [] s ys h = separate-join_next s ys h
separate-release (used a ∷ xs) s ys h = separate-release xs s ys h
separate-release (free a ∷ []) s ys h = separate-join_next (a + 12 + s) ys h
separate-release (free a ∷ used b ∷ xs) s ys h = separate-release xs s ys h
separate-release (free a ∷ free b ∷ xs) s ys h = absurd (ground arith)
