-- ===== src/LinkedList/Link.antt =====
-- `_list_insert`, and what it means that an element was put into a list.
use waddle_os.Base.{
  ℕ, ◌+◌, ◌≡◌, refl, ◌≢◌, ap, List, [], ◌∷◌, ◌++◌, length, length-append, arith, ok, eq→==, lt→ltb,
  ◌<◌,
}
use mathlib.Core.Path.{subst}
use waddle_os.LinkedList.Nodes.{
  Store, Head, Elem, update, int_max, load-ok, load_head-ok, store-ok, store_head-ok,
}
use waddle_os.LinkedList.Ring.{
  has, ◌∈◌, ◌∉◌, Distinct, last, Linked, Circle, IsList, Linked-retarget, Linked-join, last-mem,
  has-append, Distinct-insert,
}
use waddle_os.LinkedList.{link}

-- One field of the element at `p` changed.
abbrev pub change : (ℕ → Elem) → ℕ → (Elem → Elem) → ℕ → Elem
change m p f = update m p (f (m p))

-- The elements behind `_list_insert`.
abbrev pub linked_in : (ℕ → Elem) → (head prev next new : ℕ) → ℕ → Elem
linked_in m head prev next new =
    change
      (change
        (change
          (change (change m prev (λ e. record e { next = new })) next
            (λ e. record e { prev = new }))
          new (λ e. record e { prev = prev }))
        new (λ e. record e { next = next }))
      new (λ e. record e { owner = head })

abbrev pub with_len : (ℕ → Head) → ℕ → ℕ → ℕ → Head
with_len m head n = update m head (record (m head) { len = n })

module _ (s : Store) (head prev next new : ℕ) where
  -- The state behind `_list_insert`.
  abbrev pub after_link : Store
  after_link = record s {
    elems = linked_in s.elems head prev next new;
    heads = with_len s.heads head ((s.heads head).len + 1);
  }

  pub link-ok :
      head ≢ 0
      → prev ≢ 0
      → next ≢ 0
      → new ≢ 0
      → (s.elems prev).next ≡ next
      → (s.elems next).prev ≡ prev
      → (s.elems new).owner ≡ 0
      → (s.heads head).len < int_max
      → link head prev next new s ≡ ok (tt, after_link)
  unfolding link
  link-ok h p n w en ep eo room =
      rw
        (
          load-ok p,
          eq→== (s.elems prev).next next en,
          load-ok n,
          eq→== (s.elems next).prev prev ep,
          load-ok w,
          eq→== (s.elems new).owner 0 eo,
          store-ok p,
          store-ok n,
          store-ok w,
          store-ok w,
          store-ok w,
          load_head-ok h,
          lt→ltb (s.heads head).len int_max room,
          store_head-ok h,
        )
        refl

-- An element that is in no list, and not among `xs`, of which there are fewer than the greatest int.
pub record IsFresh (s : Store) (new : ℕ) (xs : List ℕ) : Type 0 where
  pub real : new ≢ 0
  pub free : (s.elems new).owner ≡ 0
  pub apart : new ∉ xs
  pub room : length xs < int_max

-- A new element between the last of `ys` and the first of `zs`, in a list `x ∷ ys ++ zs`: `next` is
-- the first of `zs`, or `x` again.
module _ (s : Store) (head x : ℕ) (ys : List ℕ) (new : ℕ) (fresh : IsFresh s new (x ∷ ys)) where
  abbrev g : ℕ → ℕ → Elem
  g next = linked_in s.elems head (last x ys) next new

  -- The front of the list, up to the new element, and the arrows round it.
  pub Linked-front :
      (next : ℕ)
      → Linked s.elems x ys next
      → Distinct (x ∷ ys)
      → next ∉ ys
      → next ≢ new
      → Linked (g next) x (ys ++ (new ∷ [])) next
  Linked-front next l d out ne =
      Linked-join (g next) x ys new [] next
        (Linked-retarget s.elems (g next) x ys next new (last x ys) l d refl
          (ground (arith, fresh.apart, last-mem x ys)) (ground arith)
          (λ q m neq. ground (arith, fresh.apart)) (λ q m. ground (arith, fresh.apart)))
        (ground arith, ground (arith, ne))

-- The heap behind an insertion of `new` into the list `xs` at `head`: the list is `xs'`, and no
-- other element or list head has changed.
pub record Inserted (s s' : Store) (head new : ℕ) (xs xs' : List ℕ) : Type 0 where
  pub list : IsList s' head xs'
  pub elems : (q : ℕ) → q ∉ new ∷ xs → s'.elems q ≡ s.elems q
  pub heads : (h : ℕ) → h ≢ head → s'.heads h ≡ s.heads h

-- The parts of `Inserted` that do not depend on the place.
pub Inserted-of_Circle :
    (s : Store) (head new prev next first : ℕ) (xs ys zs : List ℕ)
    → xs ≡ ys ++ zs
    → IsList s head xs
    → IsFresh s new xs
    → prev ∈ xs
    → next ∈ xs
    → Circle (linked_in s.elems head prev next new) first (ys ++ (new ∷ zs))
    → Inserted s
        (record s {
          elems = linked_in s.elems head prev next new;
          heads = update s.heads head (record { first = first; len = (s.heads head).len + 1 });
        })
        head
        new
        xs
        (ys ++ (new ∷ zs))
Inserted-of_Circle s head new prev next first xs ys zs e is fresh mp mn circle = record {
  list = record {
    real = is.real;
    len = ground (arith, is.len, length-append ys zs, length-append ys (new ∷ zs), ap length e);
    circle = ground (arith, circle);
    distinct = Distinct-insert ys new zs (subst Distinct e is.distinct) (rw (← e) fresh.apart);
    nonnull = ground (
      arith,
      is.nonnull,
      fresh.real,
      has-append 0 ys zs,
      has-append 0 ys (new ∷ zs),
      ap (has 0) e,
    );
    owned = λ a m.
        ground (arith, is.owned a, has-append a ys zs, has-append a ys (new ∷ zs), ap (has a) e);
  };
  elems = λ q out. ground (arith, mp, mn);
  heads = λ h ne. ground arith;
}
