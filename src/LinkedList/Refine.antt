-- ===== src/LinkedList/Refine.antt =====
-- What list.c promises: a list head behaves like a sequence, under any sequence of operations.
use waddle_os.Base.{
  ℕ, suc, ◌<◌, ◌≡◌, refl, ◌≢◌, ◌∙◌, sym, ap, true, ◌==◌, List, [], ◌∷◌, ◌++◌, length, get_or, arith,
  ok, Bool-cases, inl, inr,
}
use mathlib.Core.Path.{subst}
use mathlib.Core.List.{append-nil}
use waddle_os.LinkedList.Nodes.{Store, int_max, Cmd, pure, ◌>>◌}
use waddle_os.LinkedList.Ring.{◌∈◌, ◌∉◌, last, IsList, has-append}
use waddle_os.LinkedList.Sequence.{
  Op, op_push, op_push_first, op_pop, op_pop_first, op_insert, op_remove, take, drop, init_of,
  after, allowed, after_all, allowed_all, take-drop, length-take, take-get_or-drop, init_of-last,
}
use waddle_os.LinkedList.{push, push_first, pop, pop_first, insert, remove, get}
use waddle_os.LinkedList.Link.{IsFresh, Inserted}
use waddle_os.LinkedList.Unlink.{Removed}
use waddle_os.LinkedList.Push.{push-Inserted}
use waddle_os.LinkedList.PushFirst.{push_first-Inserted}
use waddle_os.LinkedList.Pop.{pop-Removed, pop_first-Removed}
use waddle_os.LinkedList.Insert.{insert-Inserted}
use waddle_os.LinkedList.Remove.{remove-Removed}
use waddle_os.LinkedList.Walk.{get-get_or}

pub exec : ℕ → Op → Cmd (Unit {0})
exec head (op_push new) = push head new
exec head (op_push_first new) = push_first head new
exec head op_pop = pop head
exec head op_pop_first = pop_first head
exec head (op_insert new index) = insert head new index
exec head (op_remove index) = remove head index

pub exec_all : ℕ → List Op → Cmd (Unit {0})
exec_all head [] = pure tt
exec_all head (op ∷ ops) = do exec head op; exec_all head ops

-- The store represents the sequence `xs` at `head`: the elements of `pool` outside it are in no list.
pub record Represents (s : Store) (head : ℕ) (pool xs : List ℕ) : Type 0 where
  pub list : IsList s head xs
  pub nonnull : 0 ∉ pool
  pub free : (a : ℕ) → a ∈ pool → a ∉ xs → (s.elems a).owner ≡ 0

-- `m` ends normally, in a store that represents `xs'`, without a change to another list head.
abbrev pub Reaches : Store → ℕ → List ℕ → Cmd (Unit {0}) → List ℕ → Type 0
Reaches s head pool m xs' =
    (s' : Store) × (m s ≡ ok (tt, s'))
    × Represents s' head pool xs'
    × ((h : ℕ) → h ≢ head → s'.heads h ≡ s.heads h)

module _ (s : Store) (head : ℕ) (pool xs : List ℕ) (rep : Represents s head pool xs) where
  Represents-IsFresh : (new : ℕ) → new ∈ pool → new ∉ xs → length xs < int_max → IsFresh s new xs
  Represents-IsFresh new m out room = record {
    real = λ e. let m' = subst (λ a. a ∈ pool) e m in ground (arith, rep.nonnull);
    free = rep.free new m out;
    apart = out;
    room = room;
  }

  -- An insertion and a removal lead to a store that represents the new sequence.
  Inserted-Represents :
      (s' : Store) (new : ℕ) (ys zs : List ℕ)
      → ys ++ zs ≡ xs
      → Inserted s s' head new (ys ++ zs) (ys ++ (new ∷ zs))
      → Represents s' head pool (ys ++ (new ∷ zs))
  Inserted-Represents s' new ys zs e i = record {
    list = i.list;
    nonnull = rep.nonnull;
    free = λ a m out.
        ap (λ r. r.owner)
          (i.elems a (ground (arith, has-append a ys zs, has-append a ys (new ∷ zs))))
        ∙ rep.free a m
            (subst (λ l. a ∉ l) e (ground (arith, has-append a ys zs, has-append a ys (new ∷ zs))));
  }

  Removed-Represents :
      (s' : Store) (elem : ℕ) (ys zs : List ℕ)
      → ys ++ (elem ∷ zs) ≡ xs
      → Removed s s' head elem (ys ++ (elem ∷ zs)) (ys ++ zs)
      → Represents s' head pool (ys ++ zs)
  Removed-Represents s' elem ys zs e r = record {
    list = r.list;
    nonnull = rep.nonnull;
    free = λ a m out. elim (Bool-cases (a == elem)) [
      | inl here ↦ let same : a ≡ elem = ground arith in ap (λ b. (s'.elems b).owner) same ∙ r.free
      | inr there ↦
          let away : a ∉ ys ++ (elem ∷ zs) =
            ground (arith, has-append a ys zs, has-append a ys (elem ∷ zs)) in
          ap (λ r. r.owner) (r.elems a away) ∙ rep.free a m (subst (λ l. a ∉ l) e away)
    ];
  }

  insert-Reaches :
      (m : Cmd (Unit {0})) (new : ℕ) (ys zs : List ℕ)
      → ys ++ zs ≡ xs
      → new ∈ pool
      → new ∉ xs
      → length xs < int_max
      → (IsList s head (ys ++ zs)
          → IsFresh s new (ys ++ zs)
          → (s' : Store) × (m s ≡ ok (tt, s'))
            × Inserted s s' head new (ys ++ zs) (ys ++ (new ∷ zs)))
      → Reaches s head pool m (ys ++ (new ∷ zs))
  insert-Reaches m new ys zs e mem out room runs =
      let (s', r, i) =
        runs (subst (IsList s head) (sym e) rep.list)
          (subst (IsFresh s new) (sym e) (Represents-IsFresh new mem out room)) in
      (s', r, Inserted-Represents s' new ys zs e i, i.heads)

  remove-Reaches :
      (m : Cmd (Unit {0})) (elem : ℕ) (ys zs : List ℕ)
      → ys ++ (elem ∷ zs) ≡ xs
      → (IsList s head (ys ++ (elem ∷ zs))
          → (s' : Store) × (m s ≡ ok (tt, s'))
            × Removed s s' head elem (ys ++ (elem ∷ zs)) (ys ++ zs))
      → Reaches s head pool m (ys ++ zs)
  remove-Reaches m elem ys zs e runs =
      let (s', r, i) = runs (subst (IsList s head) (sym e) rep.list) in
      (s', r, Removed-Represents s' elem ys zs e i, i.heads)

exec-Reaches :
    (s : Store) (head : ℕ) (pool : List ℕ) (op : Op) (xs : List ℕ)
    → Represents s head pool xs
    → allowed pool op xs ≡ true
    → Reaches s head pool (exec head op) (after op xs)
unfolding exec
exec-Reaches s head pool (op_push new) xs rep h =
    insert-Reaches s head pool xs rep (push head new) new xs [] (append-nil xs) (ground arith)
      (ground arith) (ground arith)
      (subst
        (λ l.
          IsList s head l
          → IsFresh s new l
          → (s' : Store) × (push head new s ≡ ok (tt, s'))
            × Inserted s s' head new l (xs ++ (new ∷ [])))
        (sym (append-nil xs)) (push-Inserted s head new xs))
exec-Reaches s head pool (op_push_first new) xs rep h =
    insert-Reaches s head pool xs rep (push_first head new) new [] xs refl (ground arith)
      (ground arith) (ground arith) (push_first-Inserted s head new xs)
exec-Reaches s head pool op_pop [] rep h = absurd (ground arith)
exec-Reaches s head pool op_pop (x ∷ xs) rep h =
    subst (Reaches s head pool (pop head)) (append-nil (init_of x xs)) (
      remove-Reaches s head pool (x ∷ xs) rep (pop head) (last x xs) (init_of x xs) []
        (init_of-last x xs)
        (subst
          (λ l.
            IsList s head (init_of x xs ++ (last x xs ∷ []))
            → (s' : Store) × (pop head s ≡ ok (tt, s'))
              × Removed s s' head (last x xs) (init_of x xs ++ (last x xs ∷ [])) l)
          (sym (append-nil (init_of x xs))) (pop-Removed s head (init_of x xs) (last x xs))))
exec-Reaches s head pool op_pop_first [] rep h = absurd (ground arith)
exec-Reaches s head pool op_pop_first (x ∷ xs) rep h =
    remove-Reaches s head pool (x ∷ xs) rep (pop_first head) x [] xs refl
      (pop_first-Removed s head x xs)
exec-Reaches s head pool (op_insert new index) xs rep h =
    insert-Reaches s head pool xs rep (insert head new index) new (take index xs) (drop index xs)
      (take-drop index xs) (ground arith) (ground arith) (ground arith)
      (subst
        (λ n.
          IsList s head (take index xs ++ drop index xs)
          → IsFresh s new (take index xs ++ drop index xs)
          → (s' : Store) × (insert head new n s ≡ ok (tt, s'))
            × Inserted s s' head new (take index xs ++ drop index xs)
                (take index xs ++ (new ∷ drop index xs)))
        (length-take index xs (ground arith))
        (insert-Inserted s head new (take index xs) (drop index xs)))
exec-Reaches s head pool (op_remove index) xs rep h =
    remove-Reaches s head pool xs rep (remove head index) (get_or xs index 0) (take index xs)
      (drop (suc index) xs) (take-get_or-drop index xs (ground arith))
      (subst
        (λ n.
          IsList s head (take index xs ++ (get_or xs index 0 ∷ drop (suc index) xs))
          → (s' : Store) × (remove head n s ≡ ok (tt, s'))
            × Removed s s' head (get_or xs index 0)
                (take index xs ++ (get_or xs index 0 ∷ drop (suc index) xs))
                (take index xs ++ drop (suc index) xs))
        (length-take index xs (ground arith))
        (remove-Removed s head (take index xs) (get_or xs index 0) (drop (suc index) xs)))

exec_all-Reaches :
    (head : ℕ) (pool : List ℕ) (ops : List Op) (s : Store) (xs : List ℕ)
    → Represents s head pool xs
    → allowed_all pool ops xs ≡ true
    → Reaches s head pool (exec_all head ops) (after_all ops xs)
unfolding exec_all
exec_all-Reaches head pool [] s xs rep h = (s, refl, rep, λ a ne. refl)
exec_all-Reaches head pool (op ∷ ops) s xs rep h =
    let (s₁, e₁, rep₁, same₁) = exec-Reaches s head pool op xs rep (ground arith) in
    let (s₂, e₂, rep₂, same₂) =
      exec_all-Reaches head pool ops s₁ (after op xs) rep₁ (ground arith) in
    (s₂, rw e₁ e₂, rep₂, λ a ne. same₂ a ne ∙ same₁ a ne)

-- Refinement of sequences: from a store that represents a sequence, any operations that the sequence
-- allows, one behind the other, end normally, in a store that represents the sequence that they
-- make. They put elements that are not in the sequence into one of fewer than 2^31 - 1, and take none
-- out of an empty one. `list_get` of any index in range then returns the element of that sequence,
-- and no other list head has changed.
pub exec_all-refines :
    (head : ℕ) (pool : List ℕ) (ops : List Op) (s : Store) (xs : List ℕ)
    → Represents s head pool xs
    → allowed_all pool ops xs ≡ true
    → (s' : Store) × (exec_all head ops s ≡ ok (tt, s'))
      × Represents s' head pool (after_all ops xs)
      × ((index : ℕ)
          → index < length (after_all ops xs)
          → get head index s' ≡ ok (get_or (after_all ops xs) index 0, s'))
      × ((h : ℕ) → h ≢ head → s'.heads h ≡ s.heads h)
exec_all-refines head pool ops s xs rep h =
    let (s', e, rep', same) = exec_all-Reaches head pool ops s xs rep h in
    (
      s',
      e,
      rep',
      λ index within. get-get_or s' head (after_all ops xs) index rep'.list within,
      same,
    )
