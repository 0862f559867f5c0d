-- ===== src/Paging/Sort.antt =====
-- The sort of `memory_map_init` in kernel/mem/paging.c.
use waddle_os.Base.{
  ℕ, zero, suc, ◌+◌, ◌-◌, ◌≤◌, ◌≡◌, refl, ◌∙◌, sym, ap, true, false, ltb, List, [], ◌∷◌, ◌++◌,
  length, length-append, set, arith, Bool-cases, inl, inr,
}
use mathlib.Core.Path.{subst}
use mathlib.Core.List.{append-nil, append_assoc, Perm}
use mathlib.Core.List.Perm
use waddle_os.Paging.{MmapEntry, entry_at, sink, sort_loop, sort_map}
use waddle_os.Paging.Sorted.{
  Sorted, Sorted-last, StartFrom, StartUpTo, StartUpTo-end, insert_all, insert_all-Perm,
  insert_all-Sorted, insert_entry, insert_entry-Sorted, insert_entry-between, length-insert_entry,
  split,
}

-- The array behind a prefix: the next two entries, and their exchange.
entry_at-append :
    (ps : List MmapEntry) (x : MmapEntry) (rest : List MmapEntry)
    → entry_at (ps ++ (x ∷ rest)) (length ps) ≡ x
entry_at-append [] x rest = refl
entry_at-append (p ∷ ps) x rest = entry_at-append ps x rest

entry_at-append_suc :
    (ps : List MmapEntry) (x y : MmapEntry) (rest : List MmapEntry)
    → entry_at (ps ++ (x ∷ y ∷ rest)) (suc (length ps)) ≡ y
entry_at-append_suc [] x y rest = refl
entry_at-append_suc (p ∷ ps) x y rest = entry_at-append_suc ps x y rest

exchange :
    (ps : List MmapEntry) (x y : MmapEntry) (rest : List MmapEntry)
    → set (set (ps ++ (x ∷ y ∷ rest)) (length ps) y) (suc (length ps)) x ≡ ps ++ (y ∷ x ∷ rest)
exchange [] x y rest = refl
exchange (p ∷ ps) x y rest = ap (λ l. p ∷ l) (exchange ps x y rest)

-- One round of the inner loop, at the entry `x` behind `ps` and `p`.
sink-suc_less :
    (ps : List MmapEntry) (p x : MmapEntry) (rest : List MmapEntry)
    → ltb x.addr p.addr ≡ true
    → sink (suc (length ps)) (ps ++ (p ∷ x ∷ rest)) ≡ sink (length ps) (ps ++ (x ∷ p ∷ rest))
unfolding sink
sink-suc_less ps p x rest less =
    rw
      (entry_at-append ps p (x ∷ rest), entry_at-append_suc ps p x rest, less, exchange ps p x rest)
      refl

sink-suc_more :
    (ps : List MmapEntry) (p x : MmapEntry) (rest : List MmapEntry)
    → ltb x.addr p.addr ≡ false
    → sink (suc (length ps)) (ps ++ (p ∷ x ∷ rest)) ≡ ps ++ (p ∷ x ∷ rest)
unfolding sink
sink-suc_more ps p x rest more =
    rw (entry_at-append ps p (x ∷ rest), entry_at-append_suc ps p x rest, more) refl

-- What the inner loop is to do at the entry `x` behind `ps`, when it has passed `qs`.
abbrev Inserts : List MmapEntry → List MmapEntry → List MmapEntry → MmapEntry → Type 0
Inserts ps qs rest x =
    sink (length ps) (ps ++ (x ∷ (qs ++ rest))) ≡ insert_entry x (ps ++ qs) ++ rest

Inserts-none :
    (qs rest : List MmapEntry) (x : MmapEntry) → StartFrom (suc x.addr) qs → Inserts [] qs rest x
unfolding sink
Inserts-none qs rest x high = ap (λ l. l ++ rest) (sym (insert_entry-between x [] qs tt high))

Inserts-end :
    (ps : List MmapEntry) (p : MmapEntry) (qs rest : List MmapEntry) (x : MmapEntry)
    → StartUpTo p.addr ps
    → StartFrom (suc x.addr) qs
    → (StartFrom (suc x.addr) (p ∷ qs) → Inserts ps (p ∷ qs) rest x)
    → Inserts (ps ++ (p ∷ [])) qs rest x
Inserts-end ps p qs rest x low high before =
    subst
      (λ n.
        sink n ((ps ++ (p ∷ [])) ++ (x ∷ (qs ++ rest)))
        ≡ insert_entry x ((ps ++ (p ∷ [])) ++ qs) ++ rest)
      (sym len)
      (ap (sink (suc (length ps))) (append_assoc ps (p ∷ []) (x ∷ (qs ++ rest)))
        ∙ elim (Bool-cases (ltb x.addr p.addr)) [
          | inl less ↦
              sink-suc_less ps p x (qs ++ rest) less
              ∙ before (ground (arith, less), high)
              ∙ ap (λ l. insert_entry x l ++ rest) (sym (append_assoc ps (p ∷ []) qs))
          | inr more ↦
              let le : p.addr ≤ x.addr = ground (arith, more) in
              let placed =
                insert_entry-between x (ps ++ (p ∷ [])) qs (StartUpTo-end x.addr ps p le low)
                  high in
              sink-suc_more ps p x (qs ++ rest) more
              ∙ sym (
                  ap (λ l. l ++ rest) placed
                  ∙ append_assoc (ps ++ (p ∷ [])) (x ∷ qs) rest
                  ∙ append_assoc ps (p ∷ []) (x ∷ (qs ++ rest)))
        ])
  where
    len : length (ps ++ (p ∷ [])) ≡ suc (length ps)
    len = omega (arith, length-append ps (p ∷ []))

Inserts-Sorted :
    (j : ℕ) (ps qs rest : List MmapEntry) (x : MmapEntry)
    → length ps ≡ j
    → Sorted ps
    → StartFrom (suc x.addr) qs
    → Inserts ps qs rest x
Inserts-Sorted j [] qs rest x e sorted high = Inserts-none qs rest x high
Inserts-Sorted zero (p ∷ ps) qs rest x e sorted high = absurd (omega arith)
Inserts-Sorted (suc j) (q ∷ ps₀) qs rest x e sorted high =
    let (ps, p, parts) = split q ps₀ in
    let (front, low) = Sorted-last ps p (subst Sorted parts sorted) in
    let len : length ps ≡ j = omega (arith, ap length parts, length-append ps (p ∷ [])) in
    subst (λ l. Inserts l qs rest x) (sym parts)
      (Inserts-end ps p qs rest x low high
        (λ high'. Inserts-Sorted j ps (p ∷ qs) rest x len front high'))

-- The outer loop behind a sorted prefix.
sort_loop-insert_all :
    (ps xs : List MmapEntry)
    → Sorted ps
    → sort_loop (length xs) (length ps) (ps ++ xs) ≡ insert_all xs ps
unfolding sort_loop
sort_loop-insert_all ps [] sorted = append-nil ps
sort_loop-insert_all ps (x ∷ xs) sorted =
    ap (sort_loop (length xs) (length ps + 1))
      (Inserts-Sorted (length ps) ps [] xs x refl sorted tt)
    ∙ ap (λ l. sort_loop (length xs) (length ps + 1) (insert_entry x l ++ xs)) (append-nil ps)
    ∙ ap (λ n. sort_loop (length xs) n (insert_entry x ps ++ xs)) len
    ∙ sort_loop-insert_all (insert_entry x ps) xs (insert_entry-Sorted x ps sorted)
  where
    len : length ps + 1 ≡ length (insert_entry x ps)
    len = omega (arith, length-insert_entry x ps)

-- The sort of `memory_map_init`, for any number of entries, is the insertion of the entries, one
-- after the other, into a sorted list, behind those that start no later. Its result is in the order
-- of the start addresses and has the same entries, each as often.
pub sort_map-insert_all :
    (xs : List MmapEntry)
    → (sort_map xs ≡ insert_all xs []) × Sorted (sort_map xs) × Perm (sort_map xs) xs
unfolding sort_map
sort_map-insert_all [] = (refl, tt, Perm.rfl)
sort_map-insert_all (x ∷ xs) =
    let same : sort_map (x ∷ xs) ≡ insert_all xs (x ∷ []) =
      let rounds : suc (length xs) - 1 ≡ length xs = omega arith in
      rw rounds (sort_loop-insert_all (x ∷ []) xs (tt, tt)) in
    (
      same,
      subst Sorted (sym same) (insert_all-Sorted xs (x ∷ []) (tt, tt)),
      subst (λ l. Perm l (x ∷ xs)) (sym same)
          (subst (Perm (insert_all xs (x ∷ []))) (append-nil (x ∷ xs))
            (insert_all-Perm (x ∷ xs) [])),
    )
