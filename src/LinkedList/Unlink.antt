-- ===== src/LinkedList/Unlink.antt =====
-- `_list_remove`, and what it means that an element was taken out of a list.
use waddle_os.Base.{ℕ, ◌-◌, ◌≡◌, refl, ◌≢◌, ap, List, ◌∷◌, ◌++◌, length, length-append, arith, ok}
use mathlib.Core.Path.{subst}
use waddle_os.LinkedList.Nodes.{Store, Head, Elem, load-ok, load_head-ok, store-ok, store_head-ok}
use waddle_os.LinkedList.Ring.{
  has, ◌∈◌, ◌∉◌, Distinct, last, Linked, Circle, IsList, Linked-retarget, last-mem, has-append,
  Distinct-remove,
}
use waddle_os.LinkedList.Link.{change, with_len}
use waddle_os.LinkedList.{unlink}

-- The elements behind `_list_remove`.
abbrev pub unlinked : (ℕ → Elem) → (prev elem next : ℕ) → ℕ → Elem
unlinked m prev elem next =
    change
      (change
        (change
          (change (change m prev (λ e. record e { next = next })) next
            (λ e. record e { prev = prev }))
          elem (λ e. record e { next = 0 }))
        elem (λ e. record e { prev = 0 }))
      elem (λ e. record e { owner = 0 })

-- The state behind `_list_remove`, with the list heads `hs`.
abbrev pub after_unlink : Store → (elem : ℕ) → (ℕ → Head) → Store
after_unlink s elem hs = record {
  heads = hs;
  elems = unlinked s.elems (s.elems elem).prev elem (s.elems elem).next;
}

pub unlink-ok :
    (s : Store) (head elem : ℕ)
    → head ≢ 0
    → elem ≢ 0
    → (s.elems elem).prev ≢ 0
    → (s.elems elem).next ≢ 0
    → unlink head elem s
      ≡ ok (elem, after_unlink s elem (with_len s.heads head ((s.heads head).len - 1)))
unfolding unlink
unlink-ok s head elem h e p n =
    rw
      (
        load-ok e,
        store-ok p,
        store-ok n,
        store-ok e,
        store-ok e,
        store-ok e,
        load_head-ok h,
        store_head-ok h,
      )
      refl

-- The heap behind a removal of `elem` from the list `xs` at `head`: the list is `xs'`, the element
-- is in no list, and no element of another list and no other head has changed.
pub record Removed (s s' : Store) (head elem : ℕ) (xs xs' : List ℕ) : Type 0 where
  pub list : IsList s' head xs'
  pub free : (s'.elems elem).owner ≡ 0
  pub elems : (q : ℕ) → q ∉ xs → s'.elems q ≡ s.elems q
  pub heads : (h : ℕ) → h ≢ head → s'.heads h ≡ s.heads h

-- The path from `a` to the element that is taken out closes to a circle.
pub Linked-close :
    (f : ℕ → Elem) (a : ℕ) (ys : List ℕ) (e prev next : ℕ)
    → Linked f a ys e
    → Distinct (a ∷ ys)
    → e ∉ a ∷ ys
    → prev ≡ last a ys
    → next ≡ a
    → Linked (unlinked f prev e next) a ys a
Linked-close f a ys e prev next l d out ep en =
    Linked-retarget f (unlinked f prev e next) a ys e a prev l d ep (ground (arith, last-mem a ys))
      (ground arith) (λ q m ne. ground arith) (λ q m. ground (arith, d.0))

-- The parts of `Removed` that do not depend on the place.
pub Removed-of_Circle :
    (s : Store) (head e : ℕ) (hs : ℕ → Head) (xs ys zs : List ℕ)
    → xs ≡ ys ++ (e ∷ zs)
    → IsList s head xs
    → (s.elems e).prev ∈ xs
    → (s.elems e).next ∈ xs
    → Circle (unlinked s.elems (s.elems e).prev e (s.elems e).next) (hs head).first (ys ++ zs)
    → (hs head).len ≡ (s.heads head).len - 1
    → ((h : ℕ) → h ≢ head → hs h ≡ s.heads h)
    → Removed s (after_unlink s e hs) head e xs (ys ++ zs)
Removed-of_Circle s head e hs xs ys zs eq is mp mn circle len others =
    let (d, out) = Distinct-remove ys e zs (subst Distinct eq is.distinct) in
    record {
      list = record {
        real = is.real;
        len =
            ground
              (arith, len, is.len, length-append ys zs, length-append ys (e ∷ zs), ap length eq);
        circle = circle;
        distinct = d;
        nonnull =
            ground (arith, is.nonnull, has-append 0 ys zs, has-append 0 ys (e ∷ zs), ap (has 0) eq);
        owned = λ a m.
            ground
              (arith, is.owned a, out, has-append a ys zs, has-append a ys (e ∷ zs), ap (has a) eq);
      };
      free = ground arith;
      elems = λ q away. ground (arith, mp, mn, has-append e ys (e ∷ zs), ap (has e) eq);
      heads = others;
    }
