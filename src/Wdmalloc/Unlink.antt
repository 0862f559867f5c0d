-- ===== src/Wdmalloc/Unlink.antt =====
-- A block that leaves the free list of the kernel heap, and what stays in it.
use waddle_os.Base.{
  ℕ, ◌^◌, ◌<◌, ◌≡◌, ◌≢◌, inl, inr, true, false, not, ◌&&◌, ◌==◌, List, [], ◌∷◌, ◌++◌, Bool-cases,
  arith, sym, ap,
}
use mathlib.Core.Path.{subst}
use waddle_os.Memory.{Memory}
use waddle_os.LinkedList.Ring.{
  has, last, Distinct, has-append, last-mem, Distinct-front, Distinct-remove,
}
use waddle_os.Wdmalloc.{Wd, lom_at}
use waddle_os.Wdmalloc.Blocks.{Block, Chain, Tiles, free_at}
use waddle_os.Wdmalloc.Tiling.{Tiles-set_lom}
use waddle_os.Wdmalloc.Links.{
  Chain-same, Chain-behind, linked_to, linked_to-lom, linked_to-Chain, Spaced,
}

-- The head of a list whose element `q` has none before it.
pub Chain-head :
    (m : Memory) (a : ℕ) (us : List ℕ) (q : ℕ) (vs : List ℕ)
    → Chain m a (us ++ (q ∷ vs))
    → has 0 us ≡ false
    → last 0 us ≡ 0
    → a ≡ q
Chain-head m a [] q vs c real e = c.0
Chain-head m a (u ∷ us) q vs c real e = absurd (ground (arith, last-mem u us))

-- What a list without repetition has before an element it does not have behind it.
pub Distinct-sides :
    (us ws : List ℕ) (f : ℕ) → Distinct (us ++ ws) → has f us ≡ true → has f ws ≡ false
Distinct-sides [] ws f d h = absurd (ground arith)
Distinct-sides (u ∷ us) ws f d h = elim (Bool-cases (f == u)) [
  | inl here ↦
      let e : f ≡ u = ground arith in
      let out = subst (λ g. has g (us ++ ws) ≡ false) (sym e) d.0 in
      ground (arith, has-append f us ws)
  | inr there ↦ Distinct-sides us ws f d.1 (ground arith)
]

-- The list without `q` has the other elements.
pub has-remove :
    (us : List ℕ) (q : ℕ) (vs : List ℕ) (f : ℕ)
    → Distinct (us ++ (q ∷ vs))
    → has f (us ++ vs) ≡ (has f (us ++ (q ∷ vs)) && not (f == q))
has-remove us q vs f d = elim (Bool-cases (f == q)) [
  | inl here ↦
      let e : f ≡ q = ground arith in
      let out = subst (λ g. has g (us ++ vs) ≡ false) (sym e) (Distinct-remove us q vs d).1 in
      ground arith
  | inr there ↦ ground (arith, has-append f us vs, has-append f us (q ∷ vs))
]

-- Where an element stands in a list.
pub has-split :
    (q : ℕ) (fs : List ℕ) → has q fs ≡ true → (us : List ℕ) × (vs : List ℕ) × (fs ≡ us ++ (q ∷ vs))
has-split q [] h = absurd (ground arith)
has-split q (f ∷ fs) h = elim (Bool-cases (q == f)) [
  | inl here ↦ let e : f ≡ q = ground arith in ([], fs, ap (λ g. g ∷ fs) e)
  | inr there ↦ let (us, vs, e) = has-split q fs (ground arith) in (f ∷ us, vs, ap (◌∷◌ f) e)
]

-- A link that is not NULL is an element of the list.
pub Chain-bound :
    (m : Memory) (a : ℕ) (fs : List ℕ) (b : ℕ)
    → Chain m a fs
    → 0 < b
    → ((f : ℕ) → has f fs ≡ true → f < b)
    → a < b
Chain-bound m a [] b c some_bytes h = omega (arith, c)
Chain-bound m a (f ∷ fs) b c some_bytes h = omega (arith, c.0, h f (ground arith))

pub linked_to-Tiles :
    (w : Wd) (us : List ℕ) (x start : ℕ) (bs : List Block)
    → ((f : ℕ) → has f us ≡ true → free_at start bs f ≡ true)
    → Tiles w.mem start 0 bs
    → Tiles (linked_to w (last 0 us) x).mem start 0 bs
linked_to-Tiles w us x start bs h t = elim (Bool-cases (last 0 us == 0)) [
  | inl none_before ↦ rw none_before t
  | inr some_before ↦ rw some_before (
      Tiles-set_lom w.mem start 0 bs (last 0 us) x (h (last 0 us) (ground (arith, last-mem 0 us)))
        t)
]

module _ (w : Wd) (us : List ℕ) (q : ℕ) (vs : List ℕ) (real : has 0 (us ++ (q ∷ vs)) ≡ false)
    (spaced : Spaced (us ++ (q ∷ vs))) (distinct : Distinct (us ++ (q ∷ vs)))
    (low : (f : ℕ) → has f (us ++ (q ∷ vs)) ≡ true → f < 2 ^ 64) where
  pub front-real : has 0 us ≡ false
  front-real = ground (arith, has-append 0 us (q ∷ vs))

  -- The elements from `q` on are not the one whose link is written.
  behind-apart : (f : ℕ) → has f (q ∷ vs) ≡ true → f ≢ last 0 us
  behind-apart f mem e = ground (
    arith,
    ap (λ g. has g (q ∷ vs)) e,
    last-mem 0 us,
    Distinct-sides us (q ∷ vs) (last 0 us) distinct,
    ap (λ g. has g (us ++ (q ∷ vs))) e,
    has-append f us (q ∷ vs),
    real,
  )

  pub behind-lom :
      (x f : ℕ) → has f (q ∷ vs) ≡ true → lom_at (linked_to w (last 0 us) x).mem f ≡ lom_at w.mem f
  behind-lom x f mem =
      linked_to-lom w us q vs x front-real spaced f (ground (arith, has-append f us (q ∷ vs)))
        (behind-apart f mem)

  -- Without `q`, the elements stay linked.
  pub unlinked-Chain :
      Chain w.mem w.freelist_head (us ++ (q ∷ vs))
      → let w' = linked_to w (last 0 us) (lom_at w.mem q) in
        Chain w'.mem w'.freelist_head (us ++ vs)
  unlinked-Chain c =
      let x = lom_at w.mem q in
      let w' = linked_to w (last 0 us) x in
      let back = Chain-behind w.mem w.freelist_head us q vs c in
      linked_to-Chain w us q vs x front-real spaced (Distinct-front us (q ∷ vs) distinct)
        (Chain-bound w.mem x vs (2 ^ 64) back (omega arith)
          (λ f mem. low f (ground (arith, has-append f us (q ∷ vs)))))
        vs c (Chain-same w.mem w'.mem x vs (λ f mem. behind-lom x f (ground arith)) back)
