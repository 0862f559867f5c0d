-- ===== src/Wdmalloc/FindPrev.antt =====
-- The walk of `coalesce` along the free list to the element before a block that is in it, and the
-- order of its writes.
use waddle_os.Base.{
  ℕ, zero, suc, ◌+◌, ◌≤◌, ◌<◌, ◌≡◌, refl, ◌≢◌, ◌⊎◌, inl, inr, false, ◌==◌, List, [], ◌∷◌, ◌++◌,
  length, ne→==, eq→==, Bool-cases, arith, ok,
}
use waddle_os.Memory.{write_field}
use waddle_os.Memory.Fields.{write_field-swap}
use waddle_os.LinkedList.Ring.{has, last}
use waddle_os.Wdmalloc.{Wd, lom_at}
use waddle_os.Wdmalloc.Free.{find_prev}
use waddle_os.Wdmalloc.Blocks.{Chain}
use waddle_os.Wdmalloc.Links.{linked_to}

pub find_prev-found :
    (w : Wd) (fuel target a : ℕ) (us vs : List ℕ) (prev : ℕ)
    → Chain w.mem a (us ++ (target ∷ vs))
    → length us < fuel
    → has target us ≡ false
    → has 0 us ≡ false
    → find_prev fuel target a prev w ≡ ok ((last prev us, target), w)
unfolding find_prev
find_prev-found w zero target a us vs prev c enough out real = absurd (omega arith)
find_prev-found w (suc fuel) target a [] vs prev c enough out real =
    rw (c.0, eq→== target target refl) refl
find_prev-found w (suc fuel) target a (u ∷ us) vs prev c enough out real =
    rw (c.0, ne→== u target (λ e. ground arith), ne→== u 0 (ground arith))
      (find_prev-found w fuel target (lom_at w.mem u) us vs u c.1 (omega arith) (ground arith)
        (ground arith))

-- The state with a new size field in the header at `p`.
abbrev pub with_sz : Wd → ℕ → ℕ → Wd
with_sz w p v = record {
  mem = write_field 2 w.mem (p + 2) v;
  freelist_head = w.freelist_head;
  heap_start = w.heap_start;
  heap_size = w.heap_size;
}

-- A size field and a link elsewhere may be written in any order.
pub linked_to-with_sz :
    (w : Wd) (p v prev x : ℕ)
    → (prev ≢ 0 → (prev + 12 ≤ p) ⊎ (prev ≡ p) ⊎ (p + 12 ≤ prev))
    → linked_to (with_sz w p v) prev x ≡ with_sz (linked_to w prev x) p v
linked_to-with_sz w p v prev x h = elim (Bool-cases (prev == 0)) [
  | inl none_before ↦ rw none_before refl
  | inr some_before ↦
      rw
        (
          some_before,
          write_field-swap 8 2 w.mem (p + 2) (prev + 4) x v (omega (arith, h (λ e. ground arith))),
        )
        refl
]
