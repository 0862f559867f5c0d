-- ===== src/LinkedList/Pop.antt =====
-- `list_pop` and `list_pop_first`.
use waddle_os.Base.{
  ℕ, ◌-◌, ◌≡◌, refl, ◌≢◌, sym, ap, ◌==◌, List, [], ◌∷◌, ◌++◌, length-append, arith, ok,
  if◌then◌else◌, ne→==, lt→ltb, Bool-cases, inl, inr,
}
use mathlib.Core.Path.{subst}
use mathlib.Core.List.{append-nil}
use waddle_os.LinkedList.Nodes.{Store, Head, Elem, update, load-ok, load_head-ok, store_head-ok}
use waddle_os.LinkedList.Ring.{
  ◌∈◌, last, Linked, Circle, IsList, Linked-split, Linked-ends, Distinct-remove, Distinct-front,
  last-mem, has-append,
}
use waddle_os.LinkedList.Link.{with_len}
use waddle_os.LinkedList.Unlink.{
  after_unlink, unlinked, unlink-ok, Removed, Removed-of_Circle, Linked-close,
}
use waddle_os.LinkedList.{pop, pop_first}

mem_real : (s : Store) (head : ℕ) (xs : List ℕ) (a : ℕ) → IsList s head xs → a ∈ xs → a ≢ 0
mem_real s head xs a is m e = let m' = subst (λ b. b ∈ xs) e m in ground (arith, is.nonnull)

-- In a circle both neighbours of the first element are in the list.
Circle-neighbours :
    (f : ℕ → Elem) (x : ℕ) (xs : List ℕ)
    → Linked f x xs x
    → ((f x).prev ∈ x ∷ xs) × ((f x).next ∈ x ∷ xs)
Circle-neighbours f x [] l = ground (arith, l.0, l.1)
Circle-neighbours f x (y ∷ ys) l =
    let ends = (Linked-ends f x (y ∷ ys) x l).1 in
    (subst (λ a. a ∈ x ∷ y ∷ ys) (sym ends) (last-mem x (y ∷ ys)), ground (arith, l.0))

-- The heads behind `list_pop_first`.
abbrev shifted : Store → ℕ → ℕ → ℕ → Head
shifted s head x =
    let counted = with_len s.heads head ((s.heads head).len - 1) in
    update counted head
      (record (counted head) { first = if (counted head).len == 0 then 0 else (s.elems x).next })

-- The heads behind `list_pop`.
abbrev emptied : Store → ℕ → ℕ → Head
emptied s head =
    let counted = with_len s.heads head ((s.heads head).len - 1) in
    if (counted head).len == 0
    then update counted head (record (counted head) { first = 0 })
    else counted

module _ (s : Store) (head : ℕ) where
  abbrev first : ℕ
  first = (s.heads head).first

  module _ (x : ℕ) (xs : List ℕ) (is : IsList s head (x ∷ xs)) where
    first-mem : first ∈ x ∷ xs
    first-mem = rw (is.circle.0) (ground arith)

    first-neighbours : ((s.elems first).prev ∈ x ∷ xs) × ((s.elems first).next ∈ x ∷ xs)
    first-neighbours =
        subst (λ a. ((s.elems a).prev ∈ x ∷ xs) × ((s.elems a).next ∈ x ∷ xs)) (sym is.circle.0)
          (Circle-neighbours s.elems x xs is.circle.1)

    not_null : (a : ℕ) → a ∈ x ∷ xs → a ≢ 0
    not_null a m = mem_real s head (x ∷ xs) a is m

    pop_first-runs : pop_first head s ≡ ok (tt, after_unlink s first (shifted s head first))
    unfolding pop_first
    pop_first-runs =
        rw
          (
            ne→== head 0 is.real,
            load_head-ok is.real,
            lt→ltb 0 (s.heads head).len (ground (arith, is.len)),
            load-ok (not_null first first-mem),
            unlink-ok s head first is.real (not_null first first-mem)
                (not_null _ (first-neighbours.0)) (not_null _ (first-neighbours.1)),
            load_head-ok is.real,
            store_head-ok is.real,
          )
          refl

    pop-runs :
        (e : ℕ)
        → (s.elems first).prev ≡ e
        → e ∈ x ∷ xs
        → (s.elems e).prev ∈ x ∷ xs
        → (s.elems e).next ∈ x ∷ xs
        → pop head s ≡ ok (tt, after_unlink s e (emptied s head))
    unfolding pop
    pop-runs e eq m mp mn =
        rw
          (
            ne→== head 0 is.real,
            load_head-ok is.real,
            lt→ltb 0 (s.heads head).len (ground (arith, is.len)),
            load-ok (not_null first first-mem),
            eq,
            unlink-ok s head e is.real (not_null e m) (not_null _ mp) (not_null _ mn),
            load_head-ok is.real,
          )
          (elim (Bool-cases ((with_len s.heads head ((s.heads head).len - 1) head).len == 0)) [
            | inl none_left ↦ rw (none_left, store_head-ok is.real) refl
            | inr some_left ↦ rw some_left refl
          ])

pop_first-Circle :
    (s : Store) (head x : ℕ) (xs : List ℕ)
    → IsList s head (x ∷ xs)
    → Circle (unlinked s.elems (s.elems x).prev x (s.elems x).next) (shifted s head x head).first xs
pop_first-Circle s head x [] is = ground (arith, is.len)
pop_first-Circle s head x (y ∷ ys) is = (
  ground (arith, is.len, is.circle.1.0),
  Linked-close s.elems y ys x (s.elems x).prev (s.elems x).next is.circle.1.2 is.distinct.1
      is.distinct.0 ((Linked-ends s.elems x (y ∷ ys) x is.circle.1).1) is.circle.1.0,
)

-- On a well-formed list that is not empty, `list_pop_first` ends normally: the first element is in
-- no list any more, the others stay a well-formed list in their order, and no other list has
-- changed.
pub pop_first-Removed :
    (s : Store) (head x : ℕ) (xs : List ℕ)
    → IsList s head (x ∷ xs)
    → (s' : Store) × (pop_first head s ≡ ok (tt, s')) × Removed s s' head x (x ∷ xs) xs
pop_first-Removed s head x xs is = (
  _,
  pop_first-runs s head x xs is,
  subst
      (λ a.
        Removed s (after_unlink s (first s head) (shifted s head (first s head))) head a (x ∷ xs)
          xs)
      is.circle.0
      (Removed-of_Circle s head (first s head) (shifted s head (first s head)) (x ∷ xs) [] xs
        (ap (λ a. a ∷ xs) (sym is.circle.0)) is mp mn
        (subst
          (λ a.
            Circle (unlinked s.elems (s.elems a).prev a (s.elems a).next)
              (shifted s head a head).first xs)
          (sym is.circle.0) (pop_first-Circle s head x xs is))
        (ground arith) (λ h ne. ground arith)),
)
  where
    mp : (s.elems (first s head)).prev ∈ x ∷ xs
    mp = (first-neighbours s head x xs is).0

    mn : (s.elems (first s head)).next ∈ x ∷ xs
    mn = (first-neighbours s head x xs is).1

pop_last-Removed :
    (s : Store) (head x : ℕ) (ys : List ℕ) (y : ℕ)
    → IsList s head ((x ∷ ys) ++ (y ∷ []))
    → (s' : Store) × (pop head s ≡ ok (tt, s'))
      × Removed s s' head y ((x ∷ ys) ++ (y ∷ [])) ((x ∷ ys) ++ [])
pop_last-Removed s head x ys y is =
    let (front, back) = Linked-split s.elems x ys y [] x is.circle.1 in
    let zs = ys ++ (y ∷ []) in
    let m : y ∈ x ∷ zs = ground (arith, has-append y ys (y ∷ [])) in
    let before : (s.elems y).prev ≡ last x ys = (Linked-ends s.elems x ys y front).1 in
    let mp : (s.elems y).prev ∈ x ∷ zs =
      ground (arith, before, last-mem x ys, has-append (last x ys) ys (y ∷ [])) in
    let mn : (s.elems y).next ∈ x ∷ zs = ground (arith, back.0) in
    let (_, out) = Distinct-remove (x ∷ ys) y [] is.distinct in
    let at_end : (s.elems (s.heads head).first).prev ≡ y = rw (is.circle.0) back.1 in
    (
      _,
      pop-runs s head x zs is y at_end m mp mn,
      Removed-of_Circle s head y (emptied s head) (x ∷ zs) (x ∷ ys) [] refl is mp mn
          (
            ground (arith, is.len, length-append ys (y ∷ []), is.circle.0),
            subst (λ ws. Linked (unlinked s.elems (s.elems y).prev y (s.elems y).next) x ws x)
                (sym (append-nil ys))
                (Linked-close s.elems x ys y (s.elems y).prev (s.elems y).next front
                  (Distinct-front (x ∷ ys) (y ∷ []) is.distinct)
                  (ground (arith, out, has-append y ys [])) before back.0),
          )
          (ground arith) (λ h ne. ground arith),
    )

-- On a well-formed list that is not empty, `list_pop` ends normally: the last element is in no
-- list any more, the others stay a well-formed list in their order, and no other list has changed.
pub pop-Removed :
    (s : Store) (head : ℕ) (xs : List ℕ) (y : ℕ)
    → IsList s head (xs ++ (y ∷ []))
    → (s' : Store) × (pop head s ≡ ok (tt, s')) × Removed s s' head y (xs ++ (y ∷ [])) xs
pop-Removed s head [] y is =
    let at_end : (s.elems (s.heads head).first).prev ≡ y = rw (is.circle.0) (is.circle.1.1) in
    let mp : (s.elems y).prev ∈ y ∷ [] = ground (arith, is.circle.1.1) in
    let mn : (s.elems y).next ∈ y ∷ [] = ground (arith, is.circle.1.0) in
    (
      _,
      pop-runs s head y [] is y at_end (ground arith) mp mn,
      Removed-of_Circle s head y (emptied s head) (y ∷ []) [] [] refl is mp mn
          (ground (arith, is.len)) (ground arith) (λ h ne. ground arith),
    )
pop-Removed s head (x ∷ ys) y is =
    let (s', e, r) = pop_last-Removed s head x ys y is in
    (s', e, subst (Removed s s' head y ((x ∷ ys) ++ (y ∷ []))) (append-nil (x ∷ ys)) r)
