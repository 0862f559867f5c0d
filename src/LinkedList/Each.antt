-- ===== src/LinkedList/Each.antt =====
-- `list_foreach` visits the elements in order.
use waddle_os.Base.{
  ℕ, zero, suc, ◌+◌, ◌<◌, ◌≡◌, refl, ◌≢◌, List, [], ◌∷◌, length, get_or, arith, ok, ne→==, lt→ltb,
  not-ltb,
}
use mathlib.Core.Path.{subst}
use native.Mathlib.Decide.{dec_lt}
use native.Mathlib.Numerals.{add-one}
use waddle_os.LinkedList.Nodes.{Store, Elem, Cmd, load-ok, load_head-ok}
use waddle_os.LinkedList.Ring.{Linked, IsList}
use waddle_os.LinkedList.{foreach_loop, foreach}
use waddle_os.LinkedList.Walk.{nth, nth-nonnull}

-- Inside a path `next` leads from an element to the one behind it.
Linked-next :
    (f : ℕ → Elem) (a : ℕ) (ys : List ℕ) (z i : ℕ)
    → Linked f a ys z
    → i < length ys
    → (f (nth (a ∷ ys) i)).next ≡ nth (a ∷ ys) (suc i)
Linked-next f a [] z i l h = absurd (omega arith)
Linked-next f a (y ∷ ys) z zero l h = l.0
Linked-next f a (y ∷ ys) z (suc i) l h = Linked-next f y ys z i l.2 (omega arith)

foreach_loop-none :
    (func : ℕ → ℕ → Cmd (Unit {0})) (head fuel curr : ℕ) (s : Store)
    → IsList s head []
    → foreach_loop func head (suc fuel) 0 curr s ≡ ok (tt, s)
unfolding foreach_loop
foreach_loop-none func head fuel curr s is = rw (load_head-ok is.real, is.len) refl

module _ (func : ℕ → ℕ → Cmd (Unit {0})) (head x : ℕ) (ys : List ℕ) (IsDone : ℕ → Store → Type 0)
    (each : (i : ℕ) (s : Store)
      → i < length (x ∷ ys)
      → IsList s head (x ∷ ys)
      → IsDone i s
      → (s' : Store) × (func (get_or (x ∷ ys) i 0) i s ≡ ok (tt, s'))
        × IsList s' head (x ∷ ys)
        × IsDone (suc i) s') where
  -- One round of the loop.
  foreach_loop-suc :
      (fuel i : ℕ) (s s' s'' : Store) (next : ℕ)
      → i < length (x ∷ ys)
      → IsList s head (x ∷ ys)
      → func (nth (x ∷ ys) i) i s ≡ ok (tt, s')
      → (s'.elems (nth (x ∷ ys) i)).next ≡ next
      → foreach_loop func head fuel (i + 1) next s' ≡ ok (tt, s'')
      → foreach_loop func head (suc fuel) i (nth (x ∷ ys) i) s ≡ ok (tt, s'')
  unfolding foreach_loop
  foreach_loop-suc fuel i s s' s'' next within is e at e' =
      rw
        (
          load_head-ok is.real,
          lt→ltb i (s.heads head).len (omega (arith, is.len)),
          ne→== (nth (x ∷ ys) i) 0 real,
          e,
          load-ok real,
          at,
        )
        e'
    where
      real : nth (x ∷ ys) i ≢ 0
      real = nth-nonnull (x ∷ ys) i is.nonnull within

  foreach_loop-over :
      (fuel curr : ℕ) (s : Store)
      → IsList s head (x ∷ ys)
      → foreach_loop func head (suc fuel) (length (x ∷ ys)) curr s ≡ ok (tt, s)
  unfolding foreach_loop
  foreach_loop-over fuel curr s is =
      rw
        (load_head-ok is.real, not-ltb (length (x ∷ ys)) (s.heads head).len (omega (arith, is.len)))
        refl

  -- The rounds from index `i` on, at the element with this index.
  foreach_loop-IsDone :
      (fuel i : ℕ) (s : Store)
      → length (x ∷ ys) < fuel + i
      → i < length (x ∷ ys)
      → IsList s head (x ∷ ys)
      → IsDone i s
      → (s' : Store) × (foreach_loop func head fuel i (nth (x ∷ ys) i) s ≡ ok (tt, s'))
        × IsList s' head (x ∷ ys)
        × IsDone (length (x ∷ ys)) s'
  foreach_loop-IsDone zero i s enough within is done = absurd (omega arith)
  foreach_loop-IsDone (suc zero) i s enough within is done = absurd (omega arith)
  foreach_loop-IsDone (suc (suc fuel)) i s enough within is done =
      let (s₁, e₁, is₁, done₁) = each i s within is done in
      elim (dec_lt (suc i) (length (x ∷ ys))) [
        | yes more ↦
            let next = Linked-next s₁.elems x ys x i is₁.circle.1 (omega (arith, more)) in
            let (s₂, e₂, is₂, done₂) =
              foreach_loop-IsDone (suc fuel) (suc i) s₁ (omega arith) more is₁ done₁ in
            (
              s₂,
              foreach_loop-suc (suc fuel) i s s₁ s₂ (nth (x ∷ ys) (suc i)) within is e₁ next
                  (rw (add-one i) e₂),
              is₂,
              done₂,
            )
        | no over ↦
            let at_end : suc i ≡ length (x ∷ ys) = omega arith in
            (
              s₁,
              foreach_loop-suc (suc fuel) i s s₁ s₁ _ within is e₁ refl
                  (rw (add-one i, at_end) (foreach_loop-over fuel _ s₁ is₁)),
              is₁,
              subst (λ n. IsDone n s₁) at_end done₁,
            )
      ]

-- `list_foreach` on a well-formed list: if the callback, given the element at index `i` and `i` in a
-- state where `IsDone i` holds, ends normally, keeps the list and makes `IsDone (i + 1)` hold, then
-- from a state where `IsDone 0` holds the loop ends normally, keeps the list, and `IsDone` of the
-- length holds behind it. One round more than the length is enough.
pub foreach-IsDone :
    (func : ℕ → ℕ → Cmd (Unit {0})) (fuel head : ℕ) (xs : List ℕ) (IsDone : ℕ → Store → Type 0)
    (s : Store)
    → ((i : ℕ) (t : Store)
        → i < length xs
        → IsList t head xs
        → IsDone i t
        → (t' : Store) × (func (get_or xs i 0) i t ≡ ok (tt, t'))
          × IsList t' head xs
          × IsDone (suc i) t')
    → length xs < fuel
    → IsList s head xs
    → IsDone 0 s
    → (s' : Store) × (foreach func fuel head s ≡ ok (tt, s'))
      × IsList s' head xs
      × IsDone (length xs) s'
unfolding foreach
foreach-IsDone func zero head xs IsDone s each enough is done = absurd (omega arith)
foreach-IsDone func (suc fuel) head [] IsDone s each enough is done = (
  s,
  rw (ne→== head 0 is.real, load_head-ok is.real) (foreach_loop-none func head fuel _ s is),
  is,
  done,
)
foreach-IsDone func (suc fuel) head (x ∷ ys) IsDone s each enough is done =
    let (s', e, is', done') =
      foreach_loop-IsDone func head x ys IsDone each (suc fuel) 0 s (omega arith) (omega arith) is
        done in
    (s', rw (ne→== head 0 is.real, load_head-ok is.real, is.circle.0) e, is', done')
