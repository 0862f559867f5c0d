-- ===== src/Wdmalloc/Neighbours.antt =====
-- The neighbours that `coalesce` finds for a freed block of any heap.
use waddle_os.Base.{
  ℕ, ◌+◌, ◌-◌, ◌%◌, ◌^◌, ◌≤◌, ◌<◌, ◌≡◌, refl, ◌∙◌, ◌⊎◌, inl, inr, Bool, false, ◌&&◌, ◌==◌, ltb, leb,
  if◌then◌else◌, List, ◌∷◌, ne→==, lt→ltb, not-ltb, Bool-cases, arith, ok,
}
use native.Mathlib.Decide.{dec_lt}
use waddle_os.Wdmalloc.{
  Wd, Cmd, pure, sz, prev_sz_at, sz_at, hdr_size, add_ptr, sub_ptr, is_free, actual_size,
}
use waddle_os.Wdmalloc.Free.{
  if_in_heap, is_free_block, merge_both, merge_prev, merge_next, add_free, coalesce,
}
use waddle_os.Wdmalloc.Limits.{is_free-true}
use waddle_os.Wdmalloc.Sizes.{actual_size-marked, actual_size-id, is_free-marked}
use waddle_os.Wdmalloc.Blocks.{Block, free, used, bytes_of, is_unused, field_of, extent}
use waddle_os.Wdmalloc.Loose.{Loose}
use waddle_os.Wdmalloc.Aside.{Loose-in_heap}

pub actual_size-field_of : (b : Block) → bytes_of b < 2 ^ 15 → actual_size (field_of b) ≡ bytes_of b
actual_size-field_of (free s) h = actual_size-id s h
actual_size-field_of (used s) h = actual_size-marked s h

pub is_free-field_of : (b : Block) → bytes_of b < 2 ^ 15 → is_free (field_of b) ≡ is_unused b
is_free-field_of (free s) h = is_free-true s h
is_free-field_of (used s) h = is_free-marked s h

-- The block before the one at `q`, or NULL, and whether it is there and free.
pub record PrevIs (w : Wd) (q p : ℕ) (there : Bool) : Type 0 where
  pub place : if_in_heap w (sub_ptr (sub_ptr q (prev_sz_at w.mem q)) hdr_size) ≡ p
  pub unused : is_free_block p w ≡ ok (there, w)

-- The block behind the one at `q`, of `s` bytes, or NULL, and the one behind that.
pub record NextIs (w : Wd) (q s r rr : ℕ) (there : Bool) : Type 0 where
  pub place : if_in_heap w (add_ptr q (hdr_size + s)) ≡ r
  pub unused : is_free_block r w ≡ ok (there, w)
  pub field : ℕ
  pub reads : (if r == 0 then pure 0 else sz r) w ≡ ok (field, w)
  pub second : if_in_heap w (if r == 0 then 0 else add_ptr r (hdr_size + actual_size field)) ≡ rr

-- What `coalesce` does once it knows the neighbours.
abbrev pub merge_of : Bool → Bool → ℕ → ℕ → ℕ → ℕ → Cmd (Unit {0})
merge_of prev_free next_free q p r rr =
    if prev_free && next_free
    then merge_both q p r rr
    else if prev_free
    then merge_prev q p r
    else if next_free
    then merge_next q r rr
    else add_free q

pub coalesce-merge_of :
    (w : Wd) (q s p r rr : ℕ) (prev_free next_free : Bool)
    → sz_at w.mem q ≡ s
    → s < 2 ^ 15
    → PrevIs w q p prev_free
    → NextIs w q s r rr next_free
    → coalesce q w ≡ merge_of prev_free next_free q p r rr w
unfolding coalesce
coalesce-merge_of w q s p r rr prev_free next_free z few prev next =
    rw
      (
        z,
        actual_size-id s few,
        prev.place,
        next.place,
        next.reads,
        next.second,
        prev.unused,
        next.unused,
      )
      refl

module _ (w : Wd) (start size : ℕ) (bs : List Block) (q s : ℕ) (loose : Loose w start size bs q)
    (low : start ≤ q) (inside : q < start + size) where
  -- The header behind a block, or NULL at the end of the heap.
  abbrev pub header_at : ℕ → ℕ
  header_at p = if ltb p (start + size) then p else 0

  in_heap-header_at : (p : ℕ) → start ≤ p → if_in_heap w p ≡ header_at p
  in_heap-header_at p h = rw (Loose-in_heap w start size bs q loose p h) refl

  pub NextIs-end : q + (12 + s) ≡ start + size → NextIs w q s 0 0 false
  unfolding is_free_block
  NextIs-end end =
      let top : add_ptr q (hdr_size + s) ≡ start + size = omega (arith, loose.ends) in
      record {
        place = rw top (
            in_heap-header_at (start + size) (omega arith)
            ∙ rw (not-ltb (start + size) (start + size) (omega arith)) refl);
        unused = refl;
        field = 0;
        reads = refl;
        second =
            let null : leb w.heap_start 0 ≡ false = ground (arith, loose.from, loose.real) in
            elim (Bool-cases (ltb 0 ((w.heap_start + w.heap_size) % 2 ^ 64))) [
              | inl above ↦ rw (above, null) refl
              | inr below ↦ rw below refl
            ];
      }

  pub NextIs-block :
      (c : Block) (ys : List Block)
      → q + (12 + s) + extent (c ∷ ys) ≡ start + size
      → sz_at w.mem (q + (12 + s)) ≡ field_of c
      → NextIs w q s (q + (12 + s)) (header_at (q + (12 + s) + (12 + bytes_of c))) (is_unused c)
  unfolding is_free_block
  NextIs-block c ys end z =
      let few : bytes_of c < 2 ^ 15 = omega (arith, loose.small) in
      let ne = ne→== (q + (12 + s)) 0 (omega arith) in
      let here : add_ptr q (hdr_size + s) ≡ q + (12 + s) = omega (arith, loose.ends) in
      let there : add_ptr (q + (12 + s)) (hdr_size + bytes_of c)
          ≡ q + (12 + s) + (12 + bytes_of c) =
        omega (arith, loose.ends) in
      record {
        place = rw here (
            in_heap-header_at (q + (12 + s)) (omega arith)
            ∙ rw (lt→ltb (q + (12 + s)) (start + size) (omega arith)) refl);
        unused = rw (ne, z, is_free-field_of c few) refl;
        field = field_of c;
        reads = rw (ne, z) refl;
        second =
            rw (ne, actual_size-field_of c few, there)
              (in_heap-header_at (q + (12 + s) + (12 + bytes_of c)) (omega arith));
      }

  pub PrevIs-start : q ≡ start → prev_sz_at w.mem q ≡ 0 → PrevIs w q 0 false
  unfolding is_free_block
  PrevIs-start first z =
      let before = sub_ptr (sub_ptr q 0) hdr_size in
      let top : (start + size) % 2 ^ 64 ≡ start + size = omega (arith, loose.ends) in
      let out : (before < start) ⊎ (start + size ≤ before) = elim (dec_lt q 12) [
        | yes under ↦
            let e : before ≡ q + 2 ^ 64 - 12 = omega arith in inr (omega (arith, e, loose.small))
        | no over ↦
            let e : before ≡ q - 12 = omega (arith, loose.ends, loose.whole) in
            inl (omega (arith, e))
      ] in
      record {
        place =
            rw (z, loose.from, loose.bytes, top)
              (elim out [
                | inl below ↦
                    rw (leb-false start before below)
                      (elim (Bool-cases (ltb before (start + size))) [
                        | inl inside ↦ rw inside refl
                        | inr outside ↦ rw outside refl
                      ])
                | inr above ↦ rw (not-ltb before (start + size) above) refl
              ]);
        unused = refl;
      }
    where
      leb-false : (a b : ℕ) → b < a → leb a b ≡ false
      leb-false a b h = ground arith

  pub PrevIs-block :
      (b : Block) (p : ℕ)
      → start ≤ p
      → q ≡ p + (12 + bytes_of b)
      → prev_sz_at w.mem q ≡ bytes_of b
      → sz_at w.mem p ≡ field_of b
      → PrevIs w q p (is_unused b)
  unfolding is_free_block
  PrevIs-block b p above end z field =
      let few : bytes_of b < 2 ^ 15 = omega (arith, loose.small) in
      let here : sub_ptr (sub_ptr q (bytes_of b)) hdr_size ≡ p = omega (arith, loose.ends) in
      let ne = ne→== p 0 (λ e. loose.real (omega arith)) in
      record {
        place =
            rw (z, here)
              (in_heap-header_at p above ∙ rw (lt→ltb p (start + size) (omega arith)) refl);
        unused = rw (ne, field, is_free-field_of b few) refl;
      }
