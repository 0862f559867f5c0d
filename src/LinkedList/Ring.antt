-- ===== src/LinkedList/Ring.antt =====
-- What it means that a list head and the elements at the addresses `xs` form a list.
use waddle_os.Base.{
  ℕ, ◌≡◌, refl, ◌≢◌, ◌∙◌, Bool, true, false, ◌||◌, ◌==◌, List, [], ◌∷◌, ◌++◌, length, arith,
}
use waddle_os.LinkedList.Nodes.{Store, Elem}

abbrev pub has : ℕ → List ℕ → Bool
has a [] = false
has a (x ∷ xs) = (a == x) || has a xs

infix 40 ◌∈◌ ◌∉◌
abbrev pub ◌∈◌ : ℕ → List ℕ → Type 0
a ∈ xs = has a xs ≡ true

abbrev pub ◌∉◌ : ℕ → List ℕ → Type 0
a ∉ xs = has a xs ≡ false

abbrev pub Distinct : List ℕ → Type 0
Distinct [] = Unit {0}
Distinct (x ∷ xs) = (x ∉ xs) × Distinct xs

-- The last of `a` and `ys`.
abbrev pub last : ℕ → List ℕ → ℕ
last a [] = a
last a (y ∷ ys) = last y ys

-- `next` leads from `a` through `ys` to `z`, and `prev` back.
abbrev pub Linked : (ℕ → Elem) → ℕ → List ℕ → ℕ → Type 0
Linked f a [] z = ((f a).next ≡ z) × ((f z).prev ≡ a)
Linked f a (y ∷ ys) z = ((f a).next ≡ y) × ((f y).prev ≡ a) × Linked f y ys z

-- The elements form a circle that begins at the first.
abbrev pub Circle : (ℕ → Elem) → ℕ → List ℕ → Type 0
Circle f first [] = first ≡ 0
Circle f first (x ∷ xs) = (first ≡ x) × Linked f x xs x

-- The list at `head` has the elements `xs`, in this order.
pub record IsList (s : Store) (head : ℕ) (xs : List ℕ) : Type 0 where
  pub real : head ≢ 0
  pub len : (s.heads head).len ≡ length xs
  pub circle : Circle s.elems (s.heads head).first xs
  pub distinct : Distinct xs
  pub nonnull : 0 ∉ xs
  pub owned : (a : ℕ) → a ∈ xs → (s.elems a).owner ≡ head

-- `g` follows the path of `f`, but for its last arrow, which leads from `p` to `n` instead.
pub Linked-retarget :
    (f g : ℕ → Elem) (a : ℕ) (ys : List ℕ) (z n p : ℕ)
    → Linked f a ys z
    → Distinct (a ∷ ys)
    → p ≡ last a ys
    → (g p).next ≡ n
    → (g n).prev ≡ p
    → ((q : ℕ) → q ∈ a ∷ ys → q ≢ p → (g q).next ≡ (f q).next)
    → ((q : ℕ) → q ∈ ys → (g q).prev ≡ (f q).prev)
    → Linked g a ys n
Linked-retarget f g a [] z n p l d e nx pv same_next same_prev = (rw (← e) nx, pv ∙ e)
Linked-retarget f g a (y ∷ ys) z n p l d e nx pv same_next same_prev = (
  same_next a (ground arith) (λ here. ground (arith, last-mem y ys)) ∙ l.0,
  same_prev y (ground arith) ∙ l.1,
  Linked-retarget f g y ys z n p l.2 d.1 e nx pv (λ q m. same_next q (ground arith))
      (λ q m. same_prev q (ground arith)),
)
  where
    last-mem : (b : ℕ) (bs : List ℕ) → last b bs ∈ b ∷ bs
    last-mem b [] = ground arith
    last-mem b (c ∷ bs) = ground (arith, last-mem c bs)

pub Linked-split :
    (f : ℕ → Elem) (a : ℕ) (ys : List ℕ) (n : ℕ) (zs : List ℕ) (z : ℕ)
    → Linked f a (ys ++ (n ∷ zs)) z
    → Linked f a ys n × Linked f n zs z
Linked-split f a [] n zs z l = ((l.0, l.1), l.2)
Linked-split f a (y ∷ ys) n zs z l =
    let (front, back) = Linked-split f y ys n zs z l.2 in ((l.0, l.1, front), back)

pub Linked-join :
    (f : ℕ → Elem) (a : ℕ) (ys : List ℕ) (n : ℕ) (zs : List ℕ) (z : ℕ)
    → Linked f a ys n
    → Linked f n zs z
    → Linked f a (ys ++ (n ∷ zs)) z
Linked-join f a [] n zs z l m = (l.0, l.1, m)
Linked-join f a (y ∷ ys) n zs z l m = (l.0, l.1, Linked-join f y ys n zs z l.2 m)

-- The last arrow of a path, read from both of its ends.
pub Linked-ends :
    (f : ℕ → Elem) (a : ℕ) (ys : List ℕ) (z : ℕ)
    → Linked f a ys z
    → ((f (last a ys)).next ≡ z) × ((f z).prev ≡ last a ys)
Linked-ends f a [] z l = l
Linked-ends f a (y ∷ ys) z l = Linked-ends f y ys z l.2

pub Linked-frame :
    (f g : ℕ → Elem) (a : ℕ) (ys : List ℕ) (z : ℕ)
    → Linked f a ys z
    → ((q : ℕ) → q ∈ a ∷ ys → (g q).next ≡ (f q).next)
    → ((q : ℕ) → q ∈ ys → (g q).prev ≡ (f q).prev)
    → (g z).prev ≡ (f z).prev
    → Linked g a ys z
Linked-frame f g a [] z l nx pv e = (nx a (ground arith) ∙ l.0, e ∙ l.1)
Linked-frame f g a (y ∷ ys) z l nx pv e = (
  nx a (ground arith) ∙ l.0,
  pv y (ground arith) ∙ l.1,
  Linked-frame f g y ys z l.2 (λ q m. nx q (ground arith)) (λ q m. pv q (ground arith)) e,
)

pub last-mem : (a : ℕ) (ys : List ℕ) → last a ys ∈ a ∷ ys
last-mem a [] = ground arith
last-mem a (y ∷ ys) = ground (arith, last-mem y ys)

pub has-append : (a : ℕ) (xs ys : List ℕ) → has a (xs ++ ys) ≡ (has a xs || has a ys)
has-append a [] ys = refl
has-append a (x ∷ xs) ys = ground (arith, has-append a xs ys)

-- An element outside a list may be put anywhere into it.
pub Distinct-insert :
    (xs : List ℕ) (a : ℕ) (ys : List ℕ)
    → Distinct (xs ++ ys)
    → a ∉ xs ++ ys
    → Distinct (xs ++ (a ∷ ys))
Distinct-insert [] a ys d out = (out, d)
Distinct-insert (x ∷ xs) a ys d out = (
  ground (arith, has-append x xs ys, has-append x xs (a ∷ ys)),
  Distinct-insert xs a ys d.1 (ground arith),
)

pub Distinct-remove :
    (xs : List ℕ) (a : ℕ) (ys : List ℕ)
    → Distinct (xs ++ (a ∷ ys))
    → Distinct (xs ++ ys) × (a ∉ xs ++ ys)
Distinct-remove [] a ys d = (d.1, d.0)
Distinct-remove (x ∷ xs) a ys d =
    let (rest, out) = Distinct-remove xs a ys d.1 in
    (
      (ground (arith, has-append x xs ys, has-append x xs (a ∷ ys)), rest),
      ground (arith, has-append x xs (a ∷ ys)),
    )

pub Distinct-front : (xs ys : List ℕ) → Distinct (xs ++ ys) → Distinct xs
Distinct-front [] ys d = tt
Distinct-front (x ∷ xs) ys d = (ground (arith, has-append x xs ys), Distinct-front xs ys d.1)
