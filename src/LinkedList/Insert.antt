-- ===== src/LinkedList/Insert.antt =====
-- `list_insert` at any index.
use waddle_os.Base.{
  ℕ, suc, ◌≤◌, ◌<◌, ◌≡◌, refl, ◌≢◌, ◌∙◌, sym, List, [], ◌∷◌, ◌++◌, length, length-append, get_or,
  arith, ok, ne→==, eq→==, le→leb,
}
use mathlib.Core.Path.{subst}
use mathlib.Core.List.{append-nil}
use waddle_os.LinkedList.Nodes.{Store, load-ok, load_head-ok}
use waddle_os.LinkedList.Ring.{
  ◌∈◌, ◌∉◌, Distinct, last, Linked, IsList, Linked-split, Linked-join, Linked-ends, Linked-frame,
  last-mem, has-append, Distinct-front, Distinct-remove,
}
use waddle_os.LinkedList.{push, push_first, insert}
use waddle_os.LinkedList.Link.{
  after_link, linked_in, link-ok, IsFresh, Linked-front, Inserted, Inserted-of_Circle,
}
use waddle_os.LinkedList.Push.{push-Inserted}
use waddle_os.LinkedList.PushFirst.{push_first-Inserted}
use waddle_os.LinkedList.Walk.{get-get_or}

-- No element of a front is in the rest.
pub Distinct-apart : (xs ys : List ℕ) (a : ℕ) → Distinct (xs ++ ys) → a ∈ xs → a ∉ ys
Distinct-apart [] ys a d m = absurd (ground arith)
Distinct-apart (x ∷ xs) ys a d m =
    ground (arith, has-append x xs ys, d.0, d.1, Distinct-apart xs ys a d.1, m)

pub get_or-append : (xs : List ℕ) (n : ℕ) (ys : List ℕ) → get_or (xs ++ (n ∷ ys)) (length xs) 0 ≡ n
get_or-append [] n ys = refl
get_or-append (x ∷ xs) n ys = get_or-append xs n ys

module _ (s : Store) (head x : ℕ) (ys : List ℕ) (n : ℕ) (zs : List ℕ) (new : ℕ)
    (is : IsList s head (x ∷ (ys ++ (n ∷ zs)))) (fresh : IsFresh s new (x ∷ (ys ++ (n ∷ zs)))) where
  parts : Linked s.elems x ys n × Linked s.elems n zs x
  parts = Linked-split s.elems x ys n zs x is.circle.1

  before : (s.elems n).prev ≡ last x ys
  before = (Linked-ends s.elems x ys n parts.0).1

  IsFresh-front : IsFresh s new (x ∷ ys)
  IsFresh-front = record {
    real = fresh.real;
    free = fresh.free;
    apart = ground (arith, fresh.apart, has-append new ys (n ∷ zs));
    room = omega (arith, fresh.room, length-append ys (n ∷ zs));
  }

  -- The element at the place of insertion occurs once.
  once : n ∉ x ∷ (ys ++ zs)
  once = (Distinct-remove (x ∷ ys) n zs is.distinct).1

  -- The last element of the front is not behind it.
  last-apart : last x ys ∉ n ∷ zs
  last-apart = Distinct-apart (x ∷ ys) (n ∷ zs) (last x ys) is.distinct (last-mem x ys)

  away : (q : ℕ) → q ∈ n ∷ zs → q ≢ new
  away q m = ground (arith, fresh.apart, has-append new ys (n ∷ zs))

  between-Linked :
      (p : ℕ) → p ≡ last x ys → Linked (linked_in s.elems head p n new) x (ys ++ (new ∷ n ∷ zs)) x
  between-Linked p e =
      let g = linked_in s.elems head (last x ys) n new in
      let (front, arrow) = Linked-split g x ys new [] n (
        Linked-front s head x ys new IsFresh-front n parts.0
          (Distinct-front (x ∷ ys) (n ∷ zs) is.distinct) (ground (arith, once, has-append n ys zs))
          (away n (ground arith))) in
      let back : Linked g n zs x =
        Linked-frame s.elems g n zs x parts.1 (λ q m. ground (arith, away q m, last-apart))
          (λ q m. ground (arith, away q, once, has-append n ys zs))
          (ground (arith, IsFresh-front.apart, once)) in
      rw e (Linked-join g x ys new (n ∷ zs) x front (arrow.0, arrow.1, back))

  mem-whole : (q : ℕ) → (q ∈ x ∷ ys) → q ∈ x ∷ (ys ++ (n ∷ zs))
  mem-whole q m = ground (arith, has-append q ys (n ∷ zs))

  n-mem : n ∈ x ∷ (ys ++ (n ∷ zs))
  n-mem = ground (arith, has-append n ys (n ∷ zs))

  not_null : (q : ℕ) → q ∈ x ∷ (ys ++ (n ∷ zs)) → q ≢ 0
  not_null q m e = let m' = subst (λ b. b ∈ x ∷ (ys ++ (n ∷ zs))) e m in ground (arith, is.nonnull)

  prev-mem : (s.elems n).prev ∈ x ∷ (ys ++ (n ∷ zs))
  prev-mem =
      subst (λ q. q ∈ x ∷ (ys ++ (n ∷ zs))) (sym before) (mem-whole (last x ys) (last-mem x ys))

  insert_between-runs :
      insert head new (suc (length ys)) s ≡ ok (tt, after_link s head (s.elems n).prev n new)
  unfolding insert
  insert_between-runs =
      rw
        (
          ne→== head 0 is.real,
          load_head-ok is.real,
          le→leb (suc (length ys)) (s.heads head).len len,
          ne→== new 0 fresh.real,
          ne→== (suc (length ys)) 0 (omega arith),
          ne→== (suc (length ys)) (s.heads head).len len',
          get-get_or s head (x ∷ (ys ++ (n ∷ zs))) (suc (length ys)) is within,
          get_or-append ys n zs,
          load-ok (not_null n n-mem),
        )
        (link-ok s head (s.elems n).prev n new is.real (not_null _ prev-mem) (not_null n n-mem)
          fresh.real arrow refl fresh.free (omega (arith, is.len, fresh.room)))
    where
      within : suc (length ys) < length (x ∷ (ys ++ (n ∷ zs)))
      within = omega (arith, length-append ys (n ∷ zs))

      len : suc (length ys) ≤ (s.heads head).len
      len = omega (arith, within, is.len)

      len' : suc (length ys) ≢ (s.heads head).len
      len' = omega (arith, within, is.len)

      arrow : (s.elems (s.elems n).prev).next ≡ n
      arrow = rw before ((Linked-ends s.elems x ys n parts.0).0)

  insert_between-Inserted :
      Inserted s
        (after_link s head (s.elems n).prev n new)
        head
        new
        (x ∷ (ys ++ (n ∷ zs)))
        ((x ∷ ys) ++ (new ∷ n ∷ zs))
  insert_between-Inserted =
      Inserted-of_Circle s head new (s.elems n).prev n (s.heads head).first (x ∷ (ys ++ (n ∷ zs)))
        (x ∷ ys) (n ∷ zs) refl is fresh prev-mem n-mem
        (is.circle.0, between-Linked (s.elems n).prev before)

-- At both ends of the list the insertion is a push.
insert_first-push_first :
    (s : Store) (head new : ℕ) (xs : List ℕ)
    → IsList s head xs
    → new ≢ 0
    → insert head new 0 s ≡ push_first head new s
unfolding insert
insert_first-push_first s head new xs is real =
    rw
      (
        ne→== head 0 is.real,
        load_head-ok is.real,
        le→leb 0 (s.heads head).len (omega arith),
        ne→== new 0 real,
      )
      refl

insert_end-push :
    (s : Store) (head new : ℕ) (x : ℕ) (xs : List ℕ)
    → IsList s head (x ∷ xs)
    → new ≢ 0
    → insert head new (suc (length xs)) s ≡ push head new s
unfolding insert
insert_end-push s head new x xs is real =
    rw
      (
        ne→== head 0 is.real,
        load_head-ok is.real,
        le→leb (suc (length xs)) (s.heads head).len (omega (arith, is.len)),
        ne→== new 0 real,
        ne→== (suc (length xs)) 0 (omega arith),
        eq→== (suc (length xs)) (s.heads head).len (sym is.len),
      )
      refl

-- On a well-formed list of fewer than 2^31 - 1 elements, `list_insert` at an index up to the length
-- of an element that is not NULL and in no list ends normally: the list is well formed with the
-- element at the index, and no other list has changed.
pub insert-Inserted :
    (s : Store) (head new : ℕ) (ys zs : List ℕ)
    → IsList s head (ys ++ zs)
    → IsFresh s new (ys ++ zs)
    → (s' : Store) × (insert head new (length ys) s ≡ ok (tt, s'))
      × Inserted s s' head new (ys ++ zs) (ys ++ (new ∷ zs))
insert-Inserted s head new [] zs is fresh =
    let (s', e, i) = push_first-Inserted s head new zs is fresh in
    (s', insert_first-push_first s head new zs is fresh.real ∙ e, i)
insert-Inserted s head new (x ∷ ys) [] is fresh =
    let whole = append-nil (x ∷ ys) in
    let is' : IsList s head (x ∷ ys) = subst (IsList s head) whole is in
    let fresh' : IsFresh s new (x ∷ ys) = subst (IsFresh s new) whole fresh in
    let (s', e, i) = push-Inserted s head new (x ∷ ys) is' fresh' in
    (
      s',
      insert_end-push s head new x ys is' fresh.real ∙ e,
      subst (λ xs. Inserted s s' head new xs ((x ∷ ys) ++ (new ∷ []))) (sym whole) i,
    )
insert-Inserted s head new (x ∷ ys) (n ∷ zs) is fresh = (
  _,
  insert_between-runs s head x ys n zs new is fresh,
  insert_between-Inserted s head x ys n zs new is fresh,
)
