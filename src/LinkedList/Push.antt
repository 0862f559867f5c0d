-- ===== src/LinkedList/Push.antt =====
-- `list_push`.
use waddle_os.Base.{
  ℕ, ◌+◌, ◌≡◌, refl, ◌≢◌, sym, List, [], ◌∷◌, ◌++◌, arith, ok, ne→==, eq→==, lt→ltb,
}
use mathlib.Core.Path.{subst}
use mathlib.Core.List.{append-nil}
use waddle_os.LinkedList.Nodes.{
  Store, update, int_max, load-ok, load_head-ok, store-ok, store_head-ok,
}
use waddle_os.LinkedList.Ring.{◌∈◌, last, Linked, IsList, Linked-ends, last-mem}
use waddle_os.LinkedList.{push}
use waddle_os.LinkedList.Link.{
  change, with_len, after_link, linked_in, link-ok, IsFresh, Linked-front, Inserted,
  Inserted-of_Circle,
}

module _ (s : Store) (head new x : ℕ) (ys : List ℕ) (is : IsList s head (x ∷ ys))
    (fresh : IsFresh s new (x ∷ ys)) where
  abbrev first : ℕ
  first = (s.heads head).first

  abbrev first-eq : first ≡ x
  first-eq = is.circle.0

  prev-eq : (s.elems first).prev ≡ last x ys
  prev-eq = rw first-eq ((Linked-ends s.elems x ys x is.circle.1).1)

  not_null_of_mem : (a : ℕ) → a ∈ x ∷ ys → a ≢ 0
  not_null_of_mem a m e = let m' = subst (λ b. b ∈ x ∷ ys) e m in ground (arith, is.nonnull)

  first-mem : first ∈ x ∷ ys
  first-mem = rw first-eq (ground arith)

  last-ok : (s.elems first).prev ∈ x ∷ ys
  last-ok = subst (λ a. a ∈ x ∷ ys) (sym prev-eq) (last-mem x ys)

  push_cons-runs : push head new s ≡ ok (tt, after_link s head (s.elems first).prev first new)
  unfolding push
  push_cons-runs =
      rw
        (
          ne→== head 0 is.real,
          ne→== new 0 fresh.real,
          load_head-ok is.real,
          ne→== (s.heads head).len 0 (ground (arith, is.len)),
          load-ok (not_null_of_mem first first-mem),
        )
        (link-ok s head (s.elems first).prev first new is.real (not_null_of_mem _ last-ok)
          (not_null_of_mem first first-mem) fresh.real arrow refl fresh.free
          (omega (arith, is.len, fresh.room)))
    where
      arrow : (s.elems (s.elems first).prev).next ≡ first
      arrow = rw (prev-eq, first-eq) ((Linked-ends s.elems x ys x is.circle.1).0)

  push_cons-Circle :
      (p n : ℕ)
      → p ≡ last x ys
      → n ≡ x
      → Linked (linked_in s.elems head p n new) x (ys ++ (new ∷ [])) x
  push_cons-Circle p n e e' =
      rw (e, e')
        (Linked-front s head x ys new fresh x is.circle.1 is.distinct is.distinct.0
          (ground (arith, fresh.apart)))

  push_cons-Inserted :
      Inserted s
        (after_link s head (s.elems first).prev first new)
        head
        new
        (x ∷ ys)
        ((x ∷ ys) ++ (new ∷ []))
  push_cons-Inserted =
      Inserted-of_Circle s head new (s.elems first).prev first first (x ∷ ys) (x ∷ ys) []
        (sym (append-nil (x ∷ ys))) is fresh last-ok first-mem
        (first-eq, push_cons-Circle (s.elems first).prev first prev-eq first-eq)

push_empty-runs :
    (s : Store) (head new : ℕ)
    → IsList s head []
    → IsFresh s new []
    → (s' : Store) × (push head new s ≡ ok (tt, s')) × Inserted s s' head new [] (new ∷ [])
unfolding push
push_empty-runs s head new is fresh = (
  record s {
    elems =
        change
          (change (change s.elems new (λ e. record e { next = new })) new
            (λ e. record e { prev = new }))
          new (λ e. record e { owner = head });
    heads =
        with_len (update s.heads head (record (s.heads head) { first = new })) head
          ((s.heads head).len + 1);
  },
  rw
      (
        ne→== head 0 is.real,
        ne→== new 0 fresh.real,
        load_head-ok is.real,
        eq→== (s.heads head).len 0 is.len,
        lt→ltb (s.heads head).len int_max (omega (arith, is.len)),
        store_head-ok is.real,
        store-ok fresh.real,
        store-ok fresh.real,
        store-ok fresh.real,
        store_head-ok is.real,
      )
      refl,
  record {
    list = record {
      real = is.real;
      len = ground (arith, is.len);
      circle = ground arith;
      distinct = (refl, tt);
      nonnull = ground (arith, fresh.real);
      owned = λ a m. ground arith;
    };
    elems = λ q out. ground arith;
    heads = λ h ne. ground arith;
  },
)

-- On a well-formed list of fewer than 2^31 - 1 elements, `list_push` of an element that is not NULL and in no list ends normally:
-- the list is well formed with the element behind the last one, and no other list has changed.
pub push-Inserted :
    (s : Store) (head new : ℕ) (xs : List ℕ)
    → IsList s head xs
    → IsFresh s new xs
    → (s' : Store) × (push head new s ≡ ok (tt, s')) × Inserted s s' head new xs (xs ++ (new ∷ []))
push-Inserted s head new [] is fresh = push_empty-runs s head new is fresh
push-Inserted s head new (x ∷ ys) is fresh =
    (_, push_cons-runs s head new x ys is fresh, push_cons-Inserted s head new x ys is fresh)
