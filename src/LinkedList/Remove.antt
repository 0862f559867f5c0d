-- ===== src/LinkedList/Remove.antt =====
-- `list_remove` at any index.
use waddle_os.Base.{
  ℕ, suc, ◌+◌, ◌-◌, ◌<◌, ◌≡◌, refl, ◌≢◌, ◌∙◌, sym, List, [], ◌∷◌, ◌++◌, length, length-append,
  arith, ok, ne→==, eq→==, lt→ltb,
}
use mathlib.Core.Path.{subst}
use mathlib.Core.List.{append-nil}
use waddle_os.LinkedList.Nodes.{Store, load_head-ok}
use waddle_os.LinkedList.Ring.{
  ◌∈◌, ◌∉◌, last, Linked, IsList, Linked-split, Linked-join, Linked-ends, Linked-frame,
  Linked-retarget, last-mem, has-append, Distinct-front, Distinct-remove,
}
use waddle_os.LinkedList.{pop, pop_first, remove}
use waddle_os.LinkedList.Link.{with_len}
use waddle_os.LinkedList.Unlink.{after_unlink, unlinked, unlink-ok, Removed, Removed-of_Circle}
use waddle_os.LinkedList.Pop.{pop-Removed, pop_first-Removed}
use waddle_os.LinkedList.Walk.{get-get_or}
use waddle_os.LinkedList.Insert.{Distinct-apart, get_or-append}

module _ (s : Store) (head x : ℕ) (ys : List ℕ) (e n : ℕ) (zs : List ℕ)
    (is : IsList s head (x ∷ (ys ++ (e ∷ n ∷ zs)))) where
  abbrev whole : List ℕ
  whole = x ∷ (ys ++ (e ∷ n ∷ zs))

  parts : Linked s.elems x ys e × Linked s.elems e (n ∷ zs) x
  parts = Linked-split s.elems x ys e (n ∷ zs) x is.circle.1

  before : (s.elems e).prev ≡ last x ys
  before = (Linked-ends s.elems x ys e parts.0).1

  once : e ∉ x ∷ (ys ++ (n ∷ zs))
  once = (Distinct-remove (x ∷ ys) e (n ∷ zs) is.distinct).1

  last-apart : last x ys ∉ e ∷ n ∷ zs
  last-apart = Distinct-apart (x ∷ ys) (e ∷ n ∷ zs) (last x ys) is.distinct (last-mem x ys)

  -- The element behind the removed one occurs once.
  next-once : n ∉ x ∷ (ys ++ zs)
  next-once = (Distinct-remove (x ∷ ys) n zs (Distinct-remove (x ∷ ys) e (n ∷ zs) is.distinct).0).1

  in_front : (q : ℕ) → q ∈ x ∷ ys → q ∉ e ∷ n ∷ zs
  in_front q m = Distinct-apart (x ∷ ys) (e ∷ n ∷ zs) q is.distinct m

  skip-Linked : (p : ℕ) → p ≡ last x ys → Linked (unlinked s.elems p e n) x (ys ++ (n ∷ zs)) x
  skip-Linked p eq =
      let g = unlinked s.elems (last x ys) e n in
      let front : Linked g x ys n =
        Linked-retarget s.elems g x ys e n (last x ys) parts.0
          (Distinct-front (x ∷ ys) (e ∷ n ∷ zs) is.distinct) refl (ground (arith, last-apart))
          (ground (arith, once, has-append e ys (n ∷ zs))) (λ q m ne. ground (arith, in_front q m))
          (λ q m. ground (arith, in_front q)) in
      let back : Linked g n zs x =
        Linked-frame s.elems g n zs x parts.1.2
          (λ q m. ground (arith, once, last-apart, has-append e ys (n ∷ zs)))
          (λ q m. ground (arith, next-once, once, has-append n ys zs, has-append e ys (n ∷ zs)))
          (ground (arith, next-once, once)) in
      rw eq (Linked-join g x ys n zs x front back)

  mem : (q : ℕ) → q ∈ e ∷ n ∷ zs → q ∈ whole
  mem q m = ground (arith, has-append q ys (e ∷ n ∷ zs))

  not_null : (q : ℕ) → q ∈ whole → q ≢ 0
  not_null q m eq = let m' = subst (λ b. b ∈ whole) eq m in ground (arith, is.nonnull)

  prev-mem : (s.elems e).prev ∈ whole
  prev-mem =
      let m : last x ys ∈ whole =
        ground (arith, last-mem x ys, has-append (last x ys) ys (e ∷ n ∷ zs)) in
      subst (λ q. q ∈ whole) (sym before) m

  next-mem : (s.elems e).next ∈ whole
  next-mem = subst (λ q. q ∈ whole) (sym parts.1.0) (mem n (ground arith))

  remove_between-runs :
      remove head (suc (length ys)) s
      ≡ ok (tt, after_unlink s e (with_len s.heads head ((s.heads head).len - 1)))
  unfolding remove
  remove_between-runs =
      rw
        (
          ne→== head 0 is.real,
          load_head-ok is.real,
          lt→ltb (suc (length ys)) (s.heads head).len (omega (arith, len)),
          ne→== (suc (length ys)) 0 (omega arith),
          ne→== (suc (length ys)) ((s.heads head).len - 1) (omega (arith, len)),
          get-get_or s head whole (suc (length ys)) is (omega (arith, within)),
          get_or-append ys e (n ∷ zs),
          unlink-ok s head e is.real (not_null e (mem e (ground arith))) (not_null _ prev-mem)
              (not_null _ next-mem),
        )
        refl
    where
      within : suc (length ys) + 1 < length whole
      within = omega (arith, length-append ys (e ∷ n ∷ zs))

      len : suc (length ys) + 1 < (s.heads head).len
      len = omega (arith, within, is.len)

  remove_between-Removed :
      Removed s
        (after_unlink s e (with_len s.heads head ((s.heads head).len - 1)))
        head
        e
        whole
        ((x ∷ ys) ++ (n ∷ zs))
  remove_between-Removed =
      Removed-of_Circle s head e (with_len s.heads head ((s.heads head).len - 1)) whole (x ∷ ys)
        (n ∷ zs) refl is prev-mem next-mem
        (
          ground (arith, is.circle.0),
          subst (λ b. Linked (unlinked s.elems (s.elems e).prev e b) x (ys ++ (n ∷ zs)) x)
              (sym parts.1.0) (skip-Linked (s.elems e).prev before),
        )
        (ground arith) (λ h ne. ground arith)

-- At both ends of the list the removal is a pop.
remove_first-pop_first :
    (s : Store) (head x : ℕ) (xs : List ℕ)
    → IsList s head (x ∷ xs)
    → remove head 0 s ≡ pop_first head s
unfolding remove
remove_first-pop_first s head x xs is =
    rw
      (
        ne→== head 0 is.real,
        load_head-ok is.real,
        lt→ltb 0 (s.heads head).len (omega (arith, is.len)),
      )
      refl

remove_end-pop :
    (s : Store) (head x : ℕ) (ys : List ℕ) (e : ℕ)
    → IsList s head (x ∷ (ys ++ (e ∷ [])))
    → remove head (suc (length ys)) s ≡ pop head s
unfolding remove
remove_end-pop s head x ys e is =
    rw
      (
        ne→== head 0 is.real,
        load_head-ok is.real,
        lt→ltb (suc (length ys)) (s.heads head).len (omega (arith, len)),
        ne→== (suc (length ys)) 0 (omega arith),
        eq→== (suc (length ys)) ((s.heads head).len - 1) (omega (arith, len)),
      )
      refl
  where
    len : (s.heads head).len ≡ length ys + 2
    len = omega (arith, is.len, length-append ys (e ∷ []))

-- On a well-formed list, `list_remove` of an index below the length ends normally: the element with
-- the index is in no list any more, the others stay a well-formed list in their order, and no other
-- list has changed.
pub remove-Removed :
    (s : Store) (head : ℕ) (ys : List ℕ) (e : ℕ) (zs : List ℕ)
    → IsList s head (ys ++ (e ∷ zs))
    → (s' : Store) × (remove head (length ys) s ≡ ok (tt, s'))
      × Removed s s' head e (ys ++ (e ∷ zs)) (ys ++ zs)
remove-Removed s head [] e zs is =
    let (s', runs, r) = pop_first-Removed s head e zs is in
    (s', remove_first-pop_first s head e zs is ∙ runs, r)
remove-Removed s head (x ∷ ys) e [] is =
    let (s', runs, r) = pop-Removed s head (x ∷ ys) e is in
    (
      s',
      remove_end-pop s head x ys e is ∙ runs,
      subst (Removed s s' head e ((x ∷ ys) ++ (e ∷ []))) (sym (append-nil (x ∷ ys))) r,
    )
remove-Removed s head (x ∷ ys) e (n ∷ zs) is =
    (_, remove_between-runs s head x ys e n zs is, remove_between-Removed s head x ys e n zs is)
