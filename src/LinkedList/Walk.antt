-- ===== src/LinkedList/Walk.antt =====
-- `list_get`: both directions of the walk lead to the element with the index.
use waddle_os.Base.{
  ℕ, zero, suc, ◌+◌, ◌-◌, ◌/◌, ◌≤◌, ◌<◌, ◌≡◌, refl, ◌≢◌, ◌∙◌, inl, inr, true, false, ltb, List, [],
  ◌∷◌, length, get_or, arith, ok, ne→==, lt→ltb, Bool-cases,
}
use waddle_os.LinkedList.Nodes.{Store, Elem, load-ok, load_head-ok}
use waddle_os.LinkedList.Ring.{◌∉◌, Linked, Linked-ends, last, IsList}
use waddle_os.LinkedList.{walk, get}

abbrev pub nth : List ℕ → ℕ → ℕ
nth xs n = get_or xs n 0

pub nth-nonnull : (xs : List ℕ) (n : ℕ) → 0 ∉ xs → n < length xs → nth xs n ≢ 0
nth-nonnull [] n nonnull h = absurd (omega arith)
nth-nonnull (x ∷ xs) zero nonnull h = ground arith
nth-nonnull (x ∷ xs) (suc n) nonnull h = nth-nonnull xs n (ground arith) (omega arith)

-- Inside a path `prev` leads from an element to the one before it.
Linked-prev :
    (f : ℕ → Elem) (a : ℕ) (ys : List ℕ) (z i : ℕ)
    → Linked f a ys z
    → i < length ys
    → (f (nth (a ∷ ys) (suc i))).prev ≡ nth (a ∷ ys) i
Linked-prev f a [] z i l h = absurd (omega arith)
Linked-prev f a (y ∷ ys) z zero l h = l.1
Linked-prev f a (y ∷ ys) z (suc i) l h = Linked-prev f y ys z i l.2 (omega arith)

last-nth : (a : ℕ) (ys : List ℕ) → last a ys ≡ nth (a ∷ ys) (length ys)
last-nth a [] = refl
last-nth a (y ∷ ys) = last-nth y ys

module _ (s : Store) where
  -- Forwards from the first element of a path.
  walk_forwards :
      (a : ℕ) (ys : List ℕ) (z n : ℕ)
      → Linked s.elems a ys z
      → 0 ∉ a ∷ ys
      → n < length (a ∷ ys)
      → walk false n a s ≡ ok (get_or (a ∷ ys) n 0, s)
  unfolding walk
  walk_forwards a ys z zero l nonnull h = refl
  walk_forwards a [] z (suc n) l nonnull h = absurd (omega arith)
  walk_forwards a (y ∷ ys) z (suc n) l nonnull h =
      rw (load-ok {p = a} (ground arith), l.0)
        (walk_forwards y ys z n l.2 (ground arith) (omega arith))

  -- Backwards inside a path.
  walk_backwards :
      (a : ℕ) (ys : List ℕ) (z k i j : ℕ)
      → Linked s.elems a ys z
      → 0 ∉ a ∷ ys
      → j ≤ length ys
      → j ≡ i + k
      → walk true k (nth (a ∷ ys) j) s ≡ ok (nth (a ∷ ys) i, s)
  unfolding walk
  walk_backwards a ys z zero i j l nonnull h e = let e' : j ≡ i = omega arith in rw e' refl
  walk_backwards a ys z (suc k) i j l nonnull h e =
      let e' : j ≡ suc (i + k) = omega arith in
      rw
        (
          e',
          load-ok {p = nth (a ∷ ys) (suc (i + k))}
              (nth-nonnull (a ∷ ys) (suc (i + k)) nonnull (omega arith)),
          Linked-prev s.elems a ys z (i + k) l (omega arith),
        )
        (walk_backwards a ys z k i (i + k) l nonnull (omega arith) refl)

  -- From the first element backwards round the circle.
  walk_round :
      (x : ℕ) (ys : List ℕ) (k : ℕ)
      → Linked s.elems x ys x
      → 0 ∉ x ∷ ys
      → k ≤ length ys
      → walk true (suc k) x s ≡ ok (nth (x ∷ ys) (length ys - k), s)
  unfolding walk
  walk_round x ys k l nonnull h =
      let ends : (s.elems x).prev ≡ nth (x ∷ ys) (length ys) =
        (Linked-ends s.elems x ys x l).1 ∙ last-nth x ys in
      rw (load-ok {p = x} (ground arith), ends)
        (walk_backwards x ys x k (length ys - k) (length ys) l nonnull (omega arith) (omega arith))

-- On a well-formed list, `list_get` of an index below the length returns the element with that
-- index, in whichever direction it walks, and changes nothing.
pub get-get_or :
    (s : Store) (head : ℕ) (xs : List ℕ) (index : ℕ)
    → IsList s head xs
    → index < length xs
    → get head index s ≡ ok (get_or xs index 0, s)
unfolding get
get-get_or s head [] index is h = absurd (omega arith)
get-get_or s head (x ∷ ys) index is h =
    rw
      (
        ne→== head 0 is.real,
        load_head-ok is.real,
        lt→ltb index (s.heads head).len (omega (arith, is.len)),
        is.len,
        is.circle.0,
      )
      (elim (Bool-cases (ltb (suc (length ys) / 2) index)) [
        | inl far ↦
            rw (far, rounds)
              (walk_round s x ys (length ys - index) is.circle.1 is.nonnull (omega arith)
                ∙ rw back refl)
        | inr near ↦ rw near (walk_forwards s x ys x index is.circle.1 is.nonnull h)
      ])
  where
    rounds : suc (length ys) - index ≡ suc (length ys - index)
    rounds = omega arith

    back : length ys - (length ys - index) ≡ index
    back = omega arith
