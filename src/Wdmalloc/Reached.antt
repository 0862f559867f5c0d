-- ===== src/Wdmalloc/Reached.antt =====
-- The heaps that calls of `wdmalloc` and `wdfree` lead to from `wdmalloc_init`.
use waddle_os.Base.{
  ℕ, ◌+◌, ◌-◌, ◌^◌, ◌≤◌, ◌<◌, ◌≡◌, refl, ◌≢◌, ◌∙◌, inl, inr, true, ◌==◌, if◌then◌else◌, List, [],
  ◌∷◌, Bool-cases, arith, Outcome, ok, sym, ap,
}
use waddle_os.Memory.{Memory, write_field}
use waddle_os.Memory.Fields.{read_field-disjoint, read_field-write_field}
use waddle_os.LinkedList.Ring.{has}
use waddle_os.Wdmalloc.{Wd, init, wdmalloc}
use waddle_os.Wdmalloc.Free.{wdfree}
use waddle_os.Wdmalloc.Limits.{laid_out, laid_out-OneBlock}
use waddle_os.Wdmalloc.Blocks.{Block, free, IsHeap}
use waddle_os.Wdmalloc.Separate.{separate}
use waddle_os.Wdmalloc.Live.{payload_at}

-- The list without `p`.
abbrev pub without : ℕ → List ℕ → List ℕ
without p [] = []
without p (x ∷ xs) = if x == p then without p xs else x ∷ without p xs

-- Runs of a kernel that frees only what it holds: the heap, and the addresses that `wdmalloc` has
-- returned and that were not freed since.
pub data Reached (start size : ℕ) : Wd → List ℕ → Type 0 where
  initialised :
      (m : Memory) (w₀ w : Wd) → init m start size w₀ ≡ ok (tt, w) → Reached start size w []
  allocated :
      (w w' : Wd) (held : List ℕ) (n p : ℕ)
      → Reached start size w held
      → wdmalloc n w ≡ ok (p, w')
      → p ≢ 0
      → Reached start size w' (p ∷ held)
  refused :
      (w w' : Wd) (held : List ℕ) (n : ℕ)
      → Reached start size w held
      → wdmalloc n w ≡ ok (0, w')
      → Reached start size w' held
  given_back :
      (w w' : Wd) (held : List ℕ) (p : ℕ)
      → Reached start size w held
      → has p held ≡ true
      → wdfree p w ≡ ok (tt, w')
      → Reached start size w' (without p held)

-- The heap is made of blocks, no two free ones are neighbours, and the held addresses are those of
-- allocated ones.
abbrev pub Sound : Wd → ℕ → ℕ → List ℕ → Type 0
Sound w start size held =
    (bs : List Block) × IsHeap w start size bs
    × (separate bs ≡ true)
    × ((p : ℕ) → has p held ≡ true → payload_at start bs p ≡ true)

-- The result and the state of a run that ended.
result_of : {A : Type 0} → A × Wd → Outcome (A × Wd) → A × Wd
result_of d (ok r) = r
result_of d o = d

-- A run has one result and one state.
pub ok_unique :
    {A : Type 0} (o : Outcome (A × Wd)) (a b : A) (w w' : Wd)
    → o ≡ ok (a, w)
    → o ≡ ok (b, w')
    → (a ≡ b) × (w ≡ w')
unfolding result_of
ok_unique o a b w w' e e' =
    let same = ap (result_of (a, w)) (sym e ∙ e') in (ap (λ r. r.0) same, ap (λ r. r.1) same)

pub has-without :
    (p : ℕ) (held : List ℕ) (q : ℕ) → has q (without p held) ≡ true → (has q held ≡ true) × (q ≢ p)
has-without p [] q h = absurd (ground arith)
has-without p (x ∷ held) q h = elim (Bool-cases (x == p)) [
  | inl here ↦ let (mem, ne) = has-without p held q (rw here at h) in (ground arith, ne)
  | inr there ↦
      let h' = rw there at h in
      elim (Bool-cases (q == x)) [
        | inl same ↦ (ground arith, λ e. ground arith)
        | inr other ↦ let (mem, ne) = has-without p held q (ground arith) in (ground arith, ne)
      ]
]

pub laid_out-IsHeap :
    (m : Memory) (start size : ℕ)
    → start ≢ 0
    → 12 ≤ size
    → size < 2 ^ 15 + 12
    → start + size < 2 ^ 64
    → IsHeap (laid_out m start size) start size (free (size - 12) ∷ [])
laid_out-IsHeap m start size real some_bytes small ends =
    let one = laid_out-OneBlock m start size (omega arith) in
    record {
      from = refl;
      bytes = refl;
      real = real;
      ends = ends;
      small = small;
      whole = omega arith;
      tiles = (
        read_field-disjoint 2 8 (write_field 2 (write_field 2 m start 0) (start + 2) (size - 12))
              (start + 4) start 0 (inl (omega arith))
            ∙ read_field-disjoint 2 2 (write_field 2 m start 0) (start + 2) start (size - 12)
                (inl (omega arith))
            ∙ read_field-write_field 2 m start 0,
        one.sz,
        tt,
      );
      free_list = start ∷ [];
      chain = (refl, one.lom);
      distinct = (refl, tt);
      listed = λ q. ground arith;
      count = refl;
    }
