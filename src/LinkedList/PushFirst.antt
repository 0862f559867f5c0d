-- ===== src/LinkedList/PushFirst.antt =====
-- `list_push_first`.
use waddle_os.Base.{ℕ, ◌≡◌, refl, ◌≢◌, List, [], ◌∷◌, ◌++◌, length-append, arith, ok, ne→==}
use waddle_os.LinkedList.Nodes.{Store, Elem, update, load-ok, load_head-ok, store_head-ok}
use waddle_os.LinkedList.Ring.{◌∉◌, Distinct, Linked, IsList, Linked-split, has-append}
use waddle_os.LinkedList.{push, push_first}
use waddle_os.LinkedList.Link.{IsFresh, Inserted}
use waddle_os.LinkedList.Push.{push-Inserted}

module _ (s : Store) (head new : ℕ) where
  -- The state behind `list_push_first`, from the one behind `list_push`.
  abbrev rotated : Store → Store
  rotated t = record t {
    heads =
        update t.heads head (record (t.heads head) { first = (t.elems (t.heads head).first).prev });
  }

  push_first-runs :
      (t : Store) (x : ℕ) (xs : List ℕ)
      → head ≢ 0
      → new ≢ 0
      → push head new s ≡ ok (tt, t)
      → IsList t head (x ∷ xs)
      → push_first head new s ≡ ok (tt, rotated t)
  unfolding push_first
  push_first-runs t x xs h w e is =
      rw (ne→== head 0 h, ne→== new 0 w, e, load_head-ok h, load-ok first_real, store_head-ok h)
        refl
    where
      first_real : (t.heads head).first ≢ 0
      first_real e = ground (arith, is.nonnull, is.circle)

-- A circle may begin at its last element.
Circle-rotate :
    (f : ℕ → Elem) (x : ℕ) (ys : List ℕ) (new : ℕ)
    → Linked f x (ys ++ (new ∷ [])) x
    → Linked f new (x ∷ ys) new
Circle-rotate f x ys new l =
    let (front, back) = Linked-split f x ys new [] x l in (back.0, back.1, front)

rotated-Inserted :
    (s t : Store) (head new x : ℕ) (ys : List ℕ)
    → Inserted s t head new (x ∷ ys) ((x ∷ ys) ++ (new ∷ []))
    → Distinct (x ∷ ys)
    → new ∉ x ∷ ys
    → Inserted s (rotated s head new t) head new (x ∷ ys) (new ∷ x ∷ ys)
rotated-Inserted s t head new x ys i d out = record {
  list = record {
    real = i.list.real;
    len = ground (arith, i.list.len, length-append ys (new ∷ []));
    circle = (ground (arith, first-new), Circle-rotate t.elems x ys new i.list.circle.1);
    distinct = (out, d);
    nonnull = ground (arith, i.list.nonnull, has-append 0 ys (new ∷ []));
    owned = λ a m. i.list.owned a (ground (arith, has-append a ys (new ∷ [])));
  };
  elems = i.elems;
  heads = λ h ne. ground (arith, i.heads h ne);
}
  where
    first-new : (t.elems (t.heads head).first).prev ≡ new
    first-new =
        rw (i.list.circle.0)
          (let (front, back) = Linked-split t.elems x ys new [] x i.list.circle.1 in back.1)

-- In a circle of one element the rotation has no effect.
rotated_alone-Inserted :
    (s t : Store) (head new : ℕ)
    → Inserted s t head new [] (new ∷ [])
    → Inserted s (rotated s head new t) head new [] (new ∷ [])
rotated_alone-Inserted s t head new i = record {
  list = record {
    real = i.list.real;
    len = ground (arith, i.list.len);
    circle = (ground (arith, first-new), i.list.circle.1);
    distinct = i.list.distinct;
    nonnull = i.list.nonnull;
    owned = i.list.owned;
  };
  elems = i.elems;
  heads = λ h ne. ground (arith, i.heads h ne);
}
  where
    first-new : (t.elems (t.heads head).first).prev ≡ new
    first-new = rw (i.list.circle.0) (i.list.circle.1.1)

-- On a well-formed list of fewer than 2^31 - 1 elements, `list_push_first` of an element that is not NULL and in no list ends
-- normally: the list is well formed with the element before the first one, and no other list has
-- changed.
pub push_first-Inserted :
    (s : Store) (head new : ℕ) (xs : List ℕ)
    → IsList s head xs
    → IsFresh s new xs
    → (s' : Store) × (push_first head new s ≡ ok (tt, s')) × Inserted s s' head new xs (new ∷ xs)
push_first-Inserted s head new [] is fresh =
    let (t, e, i) = push-Inserted s head new [] is fresh in
    (
      rotated s head new t,
      push_first-runs s head new t new [] is.real fresh.real e i.list,
      rotated_alone-Inserted s t head new i,
    )
push_first-Inserted s head new (x ∷ ys) is fresh =
    let (t, e, i) = push-Inserted s head new (x ∷ ys) is fresh in
    (
      rotated s head new t,
      push_first-runs s head new t x (ys ++ (new ∷ [])) is.real fresh.real e i.list,
      rotated-Inserted s t head new x ys i is.distinct fresh.apart,
    )
