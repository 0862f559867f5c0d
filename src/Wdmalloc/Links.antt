-- ===== src/Wdmalloc/Links.antt =====
-- The free list of the kernel heap: what a new link does to the chain of headers.
use waddle_os.Base.{
  ℕ, ◌+◌, ◌^◌, ◌≤◌, ◌<◌, ◌≡◌, refl, ◌≢◌, ◌∙◌, ◌⊎◌, inl, inr, true, false, ◌==◌, if◌then◌else◌, List,
  [], ◌∷◌, ◌++◌, ne→==, Bool-cases, sym, ap, arith, ok,
}
use mathlib.Core.Path.{subst}
use waddle_os.Memory.{Memory, write_field}
use waddle_os.Memory.Fields.{read_field-disjoint, read_field-write_field, write_field-outside}
use waddle_os.LinkedList.Ring.{has, last, Distinct, has-append, last-mem}
use waddle_os.Wdmalloc.{Wd, lom_at, set_freelist_head, set_lom}
use waddle_os.Wdmalloc.Blocks.{Chain}

pub Chain-same :
    (m m' : Memory) (a : ℕ) (fs : List ℕ)
    → ((f : ℕ) → has f fs ≡ true → lom_at m' f ≡ lom_at m f)
    → Chain m a fs
    → Chain m' a fs
Chain-same m m' a [] h c = c
Chain-same m m' a (f ∷ fs) h c = (
  c.0,
  let same = h f (ground arith) in
      rw same (Chain-same m m' (lom_at m f) fs (λ g mem. h g (ground arith)) c.1),
)

-- The chain behind its element `q`.
pub Chain-behind :
    (m : Memory) (a : ℕ) (us : List ℕ) (q : ℕ) (vs : List ℕ)
    → Chain m a (us ++ (q ∷ vs))
    → Chain m (lom_at m q) vs
Chain-behind m a [] q vs c = c.1
Chain-behind m a (u ∷ us) q vs c = Chain-behind m (lom_at m u) us q vs c.1

-- The last of the links up to `q` leads to `x` instead.
Chain-retarget :
    (m m' : Memory) (a u : ℕ) (us : List ℕ) (q : ℕ) (vs ws : List ℕ) (x : ℕ)
    → Chain m a (u ∷ (us ++ (q ∷ vs)))
    → Distinct (u ∷ us)
    → ((f : ℕ) → has f (u ∷ us) ≡ true → f ≢ last u us → lom_at m' f ≡ lom_at m f)
    → lom_at m' (last u us) ≡ x
    → Chain m' x ws
    → Chain m' a (u ∷ (us ++ ws))
Chain-retarget m m' a u [] q vs ws x c d h e new = (c.0, rw e new)
Chain-retarget m m' a u (t ∷ us) q vs ws x c d h e new = (
  c.0,
  let same = h u (ground arith) (λ here. ground (arith, last-mem t us)) in
      rw same (
        Chain-retarget m m' (lom_at m u) t us q vs ws x c.1 d.1 (λ f mem. h f (ground arith)) e
          new),
)

-- The head of the list, or the link of the block at `prev`, leads to `x`.
abbrev pub linked_to : Wd → ℕ → ℕ → Wd
linked_to w prev x = record {
  mem = if prev == 0 then w.mem else write_field 8 w.mem (prev + 4) x;
  freelist_head = if prev == 0 then x else w.freelist_head;
  heap_start = w.heap_start;
  heap_size = w.heap_size;
}

pub linked_to-runs :
    (w : Wd) (prev x : ℕ)
    → (if prev == 0 then set_freelist_head x else set_lom prev x) w ≡ ok (tt, linked_to w prev x)
linked_to-runs w prev x = elim (Bool-cases (prev == 0)) [
  | inl none_before ↦ rw none_before refl
  | inr some_before ↦ rw some_before refl
]

-- Elements of the list that are as far apart as headers are.
abbrev pub Spaced : List ℕ → Type 0
Spaced fs = (f g : ℕ) → has f fs ≡ true → has g fs ≡ true → (f ≡ g) ⊎ (f + 12 ≤ g) ⊎ (g + 12 ≤ f)

module _ (w : Wd) (us : List ℕ) (q : ℕ) (vs : List ℕ) (x : ℕ) (real : has 0 us ≡ false)
    (spaced : Spaced (us ++ (q ∷ vs))) where
  abbrev relinked : Wd
  relinked = linked_to w (last 0 us) x

  -- Links other than the new one stay.
  pub linked_to-lom :
      (f : ℕ)
      → has f (us ++ (q ∷ vs)) ≡ true
      → f ≢ last 0 us
      → lom_at relinked.mem f ≡ lom_at w.mem f
  linked_to-lom f mem ne = elim (Bool-cases (last 0 us == 0)) [
    | inl none_before ↦ rw none_before refl
    | inr some_before ↦
        let there : has (last 0 us) (us ++ (q ∷ vs)) ≡ true =
          ground (arith, last-mem 0 us, has-append (last 0 us) us (q ∷ vs)) in
        rw some_before (
          read_field-disjoint 8 8 w.mem (last 0 us + 4) (f + 4) x
            (elim (spaced f (last 0 us) mem there) [
              | inl same ↦ absurd (ne same)
              | inr (inl below) ↦ inl (omega arith)
              | inr (inr above) ↦ inr (omega arith)
            ]))
  ]

  -- The bytes outside the link stay.
  pub linked_to-outside :
      (a : ℕ)
      → (last 0 us ≢ 0 → (a < last 0 us + 4) ⊎ (last 0 us + 12 ≤ a))
      → relinked.mem a ≡ w.mem a
  linked_to-outside a h = elim (Bool-cases (last 0 us == 0)) [
    | inl none_before ↦ rw none_before refl
    | inr some_before ↦ rw some_before (
        write_field-outside 8 w.mem (last 0 us + 4) x a
          (elim (h (ground arith)) [ inl low ↦ inl low | inr high ↦ inr (omega arith) ]))
  ]

-- The elements up to `q` stay in the list, and `x` and what follows it come behind them.
pub linked_to-Chain :
    (w : Wd) (us : List ℕ) (q : ℕ) (vs : List ℕ) (x : ℕ)
    → has 0 us ≡ false
    → Spaced (us ++ (q ∷ vs))
    → Distinct us
    → x < 2 ^ 64
    → (ws : List ℕ) → Chain w.mem w.freelist_head (us ++ (q ∷ vs))
    → Chain (linked_to w (last 0 us) x).mem x ws
    → Chain (linked_to w (last 0 us) x).mem (linked_to w (last 0 us) x).freelist_head (us ++ ws)
linked_to-Chain w [] q vs x real spaced distinct few ws c new = new
linked_to-Chain w (u ∷ us) q vs x real spaced distinct few ws c new =
    let some_before : last u us ≢ 0 = λ e. ground (arith, last-mem u us) in
    let w' = linked_to w (last u us) x in
    let mem-eq : w'.mem ≡ write_field 8 w.mem (last u us + 4) x =
      rw (ne→== (last u us) 0 some_before) refl in
    let head-eq : w'.freelist_head ≡ w.freelist_head = rw (ne→== (last u us) 0 some_before) refl in
    subst (λ h. Chain w'.mem h (u ∷ (us ++ ws))) (sym head-eq)
      (Chain-retarget w.mem w'.mem w.freelist_head u us q vs ws x c distinct
        (λ f mem ne.
          linked_to-lom w (u ∷ us) q vs x real spaced f
            (ground (arith, has-append f (u ∷ us) (q ∷ vs))) ne)
        (ap (λ m. lom_at m (last u us)) mem-eq
          ∙ read_field-write_field 8 w.mem (last u us + 4) x
          ∙ omega arith)
        new)
