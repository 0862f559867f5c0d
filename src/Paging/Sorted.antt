-- ===== src/Paging/Sorted.antt =====
-- Memory maps in the order of their start addresses, and insertion into them: the reference for
-- the sort of `memory_map_init` in kernel/mem/paging.c.
use waddle_os.Base.{
  ℕ, suc, ◌≤◌, ◌≡◌, refl, ap, true, false, ltb, if◌then◌else◌, List, [], ◌∷◌, ◌++◌, length, arith,
  Bool-cases, inl, inr, ltb→lt,
}
use mathlib.Core.List.{Perm, perm_middle}
use mathlib.Core.List.Perm
use waddle_os.Paging.{MmapEntry}

-- Insertion behind every entry that does not start later.
abbrev pub insert_entry : MmapEntry → List MmapEntry → List MmapEntry
insert_entry x [] = x ∷ []
insert_entry x (y ∷ ys) = if ltb x.addr y.addr then x ∷ y ∷ ys else y ∷ insert_entry x ys

-- The entries of `xs`, one after the other, inserted into `sorted`.
abbrev pub insert_all : List MmapEntry → List MmapEntry → List MmapEntry
insert_all [] sorted = sorted
insert_all (x ∷ xs) sorted = insert_all xs (insert_entry x sorted)

-- All entries of `xs` start at `a` or later.
abbrev pub StartFrom : ℕ → List MmapEntry → Type 0
StartFrom a [] = Unit {0}
StartFrom a (x ∷ xs) = (a ≤ x.addr) × StartFrom a xs

abbrev pub Sorted : List MmapEntry → Type 0
Sorted [] = Unit {0}
Sorted (x ∷ xs) = StartFrom x.addr xs × Sorted xs

-- All entries of `xs` start before `a`, or there.
abbrev pub StartUpTo : ℕ → List MmapEntry → Type 0
StartUpTo a [] = Unit {0}
StartUpTo a (x ∷ xs) = (x.addr ≤ a) × StartUpTo a xs

StartFrom-le : (a b : ℕ) (xs : List MmapEntry) → a ≤ b → StartFrom b xs → StartFrom a xs
StartFrom-le a b [] h f = tt
StartFrom-le a b (x ∷ xs) h f = (omega (arith, f.0), StartFrom-le a b xs h f.1)

StartFrom-insert_entry :
    (a : ℕ) (x : MmapEntry) (ys : List MmapEntry)
    → a ≤ x.addr
    → StartFrom a ys
    → StartFrom a (insert_entry x ys)
StartFrom-insert_entry a x [] h f = (h, tt)
StartFrom-insert_entry a x (y ∷ ys) h f = elim (Bool-cases (ltb x.addr y.addr)) [
  | inl less ↦ rw less (h, (f.0, f.1))
  | inr more ↦ rw more (f.0, StartFrom-insert_entry a x ys h f.1)
]

pub insert_entry-Sorted :
    (x : MmapEntry) (ys : List MmapEntry) → Sorted ys → Sorted (insert_entry x ys)
insert_entry-Sorted x [] s = (tt, tt)
insert_entry-Sorted x (y ∷ ys) s = elim (Bool-cases (ltb x.addr y.addr)) [
  | inl less ↦
      let lt = ltb→lt x.addr y.addr less in
      rw less
        ((omega (arith, lt), StartFrom-le x.addr y.addr ys (omega (arith, lt)) s.0), (s.0, s.1))
  | inr more ↦
      let le : y.addr ≤ x.addr = ground (arith, more) in
      rw more (StartFrom-insert_entry y.addr x ys le s.0, insert_entry-Sorted x ys s.1)
]

pub length-insert_entry :
    (x : MmapEntry) (ys : List MmapEntry) → length (insert_entry x ys) ≡ suc (length ys)
length-insert_entry x [] = refl
length-insert_entry x (y ∷ ys) = elim (Bool-cases (ltb x.addr y.addr)) [
  | inl less ↦ rw less refl
  | inr more ↦ rw more (ap suc (length-insert_entry x ys))
]

insert_entry-Perm : (x : MmapEntry) (ys : List MmapEntry) → Perm (insert_entry x ys) (x ∷ ys)
insert_entry-Perm x [] = Perm.rfl
insert_entry-Perm x (y ∷ ys) = elim (Bool-cases (ltb x.addr y.addr)) [
  | inl less ↦ rw less Perm.rfl
  | inr more ↦ rw more (Perm.trans (Perm.cons y (insert_entry-Perm x ys)) (Perm.swap x y ys))
]

-- Insertion between entries that start no later and entries that start later.
pub insert_entry-between :
    (x : MmapEntry) (ps qs : List MmapEntry)
    → StartUpTo x.addr ps
    → StartFrom (suc x.addr) qs
    → insert_entry x (ps ++ qs) ≡ ps ++ (x ∷ qs)
insert_entry-between x [] [] low high = refl
insert_entry-between x [] (q ∷ qs) low high =
    let less : ltb x.addr q.addr ≡ true = ground (arith, high.0) in rw less refl
insert_entry-between x (p ∷ ps) qs low high =
    let more : ltb x.addr p.addr ≡ false = ground (arith, low.0) in
    rw more (ap (λ l. p ∷ l) (insert_entry-between x ps qs low.1 high))

-- The last entry of a list that is not empty.
pub split :
    (x : MmapEntry) (xs : List MmapEntry)
    → (ps : List MmapEntry) × (p : MmapEntry) × (x ∷ xs ≡ ps ++ (p ∷ []))
split x [] = ([], x, refl)
split x (y ∷ ys) = let (ps, p, e) = split y ys in (x ∷ ps, p, ap (λ l. x ∷ l) e)

StartFrom-append :
    (a : ℕ) (ps qs : List MmapEntry) → StartFrom a (ps ++ qs) → StartFrom a ps × StartFrom a qs
StartFrom-append a [] qs f = (tt, f)
StartFrom-append a (p ∷ ps) qs f =
    let (front, back) = StartFrom-append a ps qs f.1 in ((f.0, front), back)

-- The last entry of a sorted list starts last.
pub Sorted-last :
    (ps : List MmapEntry) (p : MmapEntry)
    → Sorted (ps ++ (p ∷ []))
    → Sorted ps × StartUpTo p.addr ps
Sorted-last [] p s = (tt, tt)
Sorted-last (q ∷ ps) p s =
    let (front, back) = StartFrom-append q.addr ps (p ∷ []) s.0 in
    let (sorted, low) = Sorted-last ps p s.1 in ((front, sorted), (back.0, low))

pub StartUpTo-end :
    (a : ℕ) (ps : List MmapEntry) (p : MmapEntry)
    → p.addr ≤ a
    → StartUpTo p.addr ps
    → StartUpTo a (ps ++ (p ∷ []))
StartUpTo-end a [] p h low = (h, tt)
StartUpTo-end a (q ∷ ps) p h low = (omega (arith, h, low.0), StartUpTo-end a ps p h low.1)

pub insert_all-Sorted : (xs ps : List MmapEntry) → Sorted ps → Sorted (insert_all xs ps)
insert_all-Sorted [] ps sorted = sorted
insert_all-Sorted (x ∷ xs) ps sorted =
    insert_all-Sorted xs (insert_entry x ps) (insert_entry-Sorted x ps sorted)

pub insert_all-Perm : (xs ps : List MmapEntry) → Perm (insert_all xs ps) (xs ++ ps)
insert_all-Perm [] ps = Perm.rfl
insert_all-Perm (x ∷ xs) ps =
    Perm.trans (insert_all-Perm xs (insert_entry x ps))
      (Perm.trans (Perm.append_left xs (insert_entry-Perm x ps)) (perm_middle xs ps))
