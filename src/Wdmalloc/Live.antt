-- ===== src/Wdmalloc/Live.antt =====
-- The addresses that callers of `wdmalloc` hold: the first bytes of the allocated blocks.
use waddle_os.Base.{
  ℕ, ◌+◌, ◌-◌, ◌≤◌, ◌≡◌, refl, ◌≢◌, ◌∙◌, ◌⊎◌, inl, inr, Bool, true, false, not, ◌||◌, ◌&&◌, ◌==◌,
  ltb, leb, List, [], ◌∷◌, ◌++◌, Bool-cases, arith, ap,
}
use waddle_os.Wdmalloc.Blocks.{Block, free, used, bytes_of, is_unused, extent}
use waddle_os.Wdmalloc.Coalesce.{join_next}
use waddle_os.Wdmalloc.Release.{release}
use waddle_os.Wdmalloc.Malloc.{cut, granted}

-- Whether `a` is the address behind the header of an allocated block, if the blocks lie from `p` on.
abbrev pub payload_at : ℕ → List Block → ℕ → Bool
payload_at p [] a = false
payload_at p (b ∷ bs) a =
    (not (is_unused b) && (a == p + 12)) || payload_at (p + (12 + bytes_of b)) bs a

pub payload_at-append :
    (p : ℕ) (xs ys : List Block) (r a : ℕ)
    → r ≡ p + extent xs
    → payload_at p (xs ++ ys) a ≡ (payload_at p xs a || payload_at r ys a)
payload_at-append p [] ys r a e = let e' : r ≡ p = omega arith in rw e' refl
payload_at-append p (b ∷ xs) ys r a e =
    ground (arith, payload_at-append (p + (12 + bytes_of b)) xs ys r a (omega arith))

pub payload_at-within :
    (p : ℕ) (bs : List Block) (a : ℕ)
    → payload_at p bs a ≡ true
    → (p + 12 ≤ a) × (a ≤ p + extent bs)
payload_at-within p [] a h = ground arith
payload_at-within p (b ∷ bs) a h = ground (arith, payload_at-within (p + (12 + bytes_of b)) bs a)

-- No address from behind a free block's header to its end is that of an allocated block.
pub payload_at-free :
    (p : ℕ) (xs : List Block) (s : ℕ) (ys : List Block) (a : ℕ)
    → p + extent xs + 12 ≤ a
    → a ≤ p + extent xs + 12 + s
    → payload_at p (xs ++ (free s ∷ ys)) a ≡ false
payload_at-free p xs s ys a low high = ground (
  arith,
  payload_at-append p xs (free s ∷ ys) (p + extent xs) a refl,
  payload_at-within p xs a,
  payload_at-within (p + extent xs + (12 + s)) ys a,
)

-- Where the allocated block lies in the list.
pub payload_at-split :
    (p : ℕ) (bs : List Block) (a : ℕ)
    → payload_at p bs a ≡ true
    → (xs : List Block) × (s : ℕ) × (ys : List Block) × (bs ≡ xs ++ (used s ∷ ys))
      × (a ≡ p + extent xs + 12)
payload_at-split p [] a h = absurd (ground arith)
payload_at-split p (free s ∷ bs) a h =
    let (xs, t, ys, e, at) = payload_at-split (p + (12 + s)) bs a h in
    (free s ∷ xs, t, ys, ap (◌∷◌ (free s)) e, omega arith)
payload_at-split p (used s ∷ bs) a h = elim (Bool-cases (a == p + 12)) [
  | inl here ↦ ([], s, bs, refl, ground arith)
  | inr behind ↦
      let (xs, t, ys, e, at) = payload_at-split (p + (12 + s)) bs a (ground arith) in
      (used s ∷ xs, t, ys, ap (◌∷◌ (used s)) e, omega arith)
]

payload_at-join_next :
    (p s : ℕ) (ys : List Block) (a : ℕ)
    → payload_at p (join_next s ys) a ≡ payload_at p (free s ∷ ys) a
payload_at-join_next p s [] a = refl
payload_at-join_next p s (used b ∷ ys) a = refl
payload_at-join_next p s (free b ∷ ys) a =
    let e : p + (12 + (s + 12 + b)) ≡ p + (12 + s) + (12 + b) = omega arith in rw e refl

-- Released blocks that become one hide no allocated block, and show none.
pub payload_at-release :
    (p : ℕ) (xs : List Block) (s : ℕ) (ys : List Block) (a : ℕ)
    → payload_at p (release xs s ys) a ≡ payload_at p (xs ++ (free s ∷ ys)) a
payload_at-release p [] s ys a = payload_at-join_next p s ys a
payload_at-release p (used b ∷ xs) s ys a =
    ap (λ r. (a == p + 12) || r) (payload_at-release (p + (12 + b)) xs s ys a)
payload_at-release p (free b ∷ []) s ys a =
    let e : p + (12 + (b + 12 + s)) ≡ p + (12 + b) + (12 + s) = omega arith in
    payload_at-join_next p (b + 12 + s) ys a ∙ rw e refl
payload_at-release p (free b ∷ c ∷ xs) s ys a = payload_at-release (p + (12 + b)) (c ∷ xs) s ys a

-- The other allocated blocks are still there.
pub payload_at-release_ne :
    (p : ℕ) (xs : List Block) (s : ℕ) (ys : List Block) (a : ℕ)
    → a ≢ p + extent xs + 12
    → payload_at p (xs ++ (used s ∷ ys)) a ≡ true
    → payload_at p (release xs s ys) a ≡ true
payload_at-release_ne p xs s ys a ne h =
    payload_at-release p xs s ys a
    ∙ ground (
      arith,
      payload_at-append p xs (used s ∷ ys) (p + extent xs) a refl,
      payload_at-append p xs (free s ∷ ys) (p + extent xs) a refl,
    )

-- The bytes of a block that serves a request stay the same ones.
pub extent-cut : (n s : ℕ) → n ≤ s → extent (cut n s) ≡ 12 + s
extent-cut n s h = elim (Bool-cases (ltb n s && leb 12 (s - n))) [
  | inl roomy ↦ rw roomy (ground arith)
  | inr tight ↦ rw tight (omega arith)
]

-- A served request adds its own address to the allocated ones.
pub payload_at-cut :
    (p : ℕ) (xs : List Block) (n s : ℕ) (ys : List Block) (a : ℕ)
    → n ≤ s
    → (payload_at p (xs ++ (free s ∷ ys)) a ≡ true) ⊎ (a ≡ p + extent xs + 12 + (s - granted n s))
    → payload_at p (xs ++ (cut n s ++ ys)) a ≡ true
payload_at-cut p xs n s ys a h old = elim (Bool-cases (ltb n s && leb 12 (s - n))) [
  | inl roomy ↦
      let q = p + extent xs in
      let rest = s - n - 12 in
      let all : granted n s ≡ n = rw roomy refl in
      let end : q + (12 + rest) + (12 + n) ≡ q + (12 + s) = ground arith in
      let new = rw end at (payload_at-append p xs (free rest ∷ used n ∷ ys) q a refl) in
      rw roomy (ground (arith, all, new, payload_at-append p xs (free s ∷ ys) q a refl, old))
  | inr tight ↦
      let q = p + extent xs in
      let all : granted n s ≡ s = rw tight refl in
      rw tight (
        ground (
          arith,
          all,
          payload_at-append p xs (used s ∷ ys) q a refl,
          payload_at-append p xs (free s ∷ ys) q a refl,
          old,
        ))
]
