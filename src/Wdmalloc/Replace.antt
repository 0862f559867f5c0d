-- ===== src/Wdmalloc/Replace.antt =====
-- The free list of the kernel heap while a freed block takes the place of another in it.
use waddle_os.Base.{
  ℕ, ◌+◌, ◌^◌, ◌≤◌, ◌<◌, ◌≡◌, refl, ◌≢◌, ◌∙◌, ◌⊎◌, true, false, List, ◌∷◌, ◌++◌, length,
  length-append, arith, ok, sym, ap,
}
use mathlib.Core.Path.{subst}
use waddle_os.Memory.{write_field}
use waddle_os.Memory.Fields.{read_field-disjoint, read_field-write_field, write_field-outside}
use waddle_os.LinkedList.Ring.{
  has, last, Distinct, has-append, Distinct-remove, Distinct-insert, Distinct-front, last-mem,
}
use waddle_os.Wdmalloc.{Wd, lom_at, list_fuel}
use waddle_os.Wdmalloc.Free.{find_prev}
use waddle_os.Wdmalloc.Blocks.{Block, Tiles, Chain}
use waddle_os.Wdmalloc.Tiling.{lom_at-Same, Tiles-set_lom, used_at-apart}
use waddle_os.Wdmalloc.Links.{
  Chain-same, Chain-behind, Spaced, linked_to, linked_to-outside, linked_to-Chain,
}
use waddle_os.Wdmalloc.Unlink.{linked_to-Tiles, behind-lom, Chain-bound}
use waddle_os.Wdmalloc.FindPrev.{find_prev-found, with_sz, linked_to-with_sz}
use waddle_os.Wdmalloc.Heap.{Kept}
use waddle_os.Wdmalloc.Loose.{Loose}
use waddle_os.Wdmalloc.Aside.{
  Loose-free, Loose-within, Loose-Spaced, Loose-real, Loose-low, Loose-length, Loose-missing,
  Loose-apart,
}

-- The block at `q` with the link of the one at `r`.
abbrev pub linked : Wd → ℕ → ℕ → Wd
linked w q r = record {
  mem = write_field 8 w.mem (q + 4) (lom_at w.mem r);
  freelist_head = w.freelist_head;
  heap_start = w.heap_start;
  heap_size = w.heap_size;
}

-- What led to the block at `r` leads to `q`.
abbrev pub replaced : Wd → ℕ → ℕ → List ℕ → Wd
replaced w q r us = linked_to (linked w q r) (last 0 us) q

module _ (w : Wd) (start size : ℕ) (bs : List Block) (q r : ℕ) (us vs : List ℕ)
    (loose : Loose w start size bs q) (list : loose.free_list ≡ us ++ (r ∷ vs)) where
  list-mem : (f : ℕ) → has f (us ++ (r ∷ vs)) ≡ true → has f loose.free_list ≡ true
  list-mem f mem = subst (λ fs. has f fs ≡ true) (sym list) mem

  pub list-Distinct : Distinct (us ++ (r ∷ vs))
  list-Distinct = rw list at loose.distinct

  list-Spaced : Spaced (us ++ (r ∷ vs))
  list-Spaced = subst Spaced list (Loose-Spaced w start size bs q loose)

  list-real : has 0 (us ++ (r ∷ vs)) ≡ false
  list-real = rw list at (Loose-real w start size bs q loose)

  list-low : (f : ℕ) → has f (us ++ (r ∷ vs)) ≡ true → f < 2 ^ 64
  list-low f mem = Loose-low w start size bs q loose f (list-mem f mem)

  list-Chain : Chain w.mem w.freelist_head (us ++ (r ∷ vs))
  list-Chain = rw list at loose.chain

  pub r-listed : has r (us ++ (r ∷ vs)) ≡ true
  r-listed = ground (arith, has-append r us (r ∷ vs))

  pub q-apart : (f : ℕ) → has f (us ++ (r ∷ vs)) ≡ true → (f + 12 ≤ q) ⊎ (q + 12 ≤ f)
  q-apart f mem = Loose-apart w start size bs q loose f (list-mem f mem)

  linked-lom :
      (f : ℕ) → has f (us ++ (r ∷ vs)) ≡ true → lom_at (linked w q r).mem f ≡ lom_at w.mem f
  linked-lom f mem =
      read_field-disjoint 8 8 w.mem (q + 4) (f + 4) (lom_at w.mem r) (omega (arith, q-apart f mem))

  -- The state behind the first two writes.
  abbrev pub written : ℕ → Wd
  written v = with_sz (linked w q r) q v

  written-lom :
      (v f : ℕ) → has f (us ++ (r ∷ vs)) ≡ true → lom_at (written v).mem f ≡ lom_at w.mem f
  written-lom v f mem =
      read_field-disjoint 8 2 (linked w q r).mem (q + 2) (f + 4) v (omega (arith, q-apart f mem))
      ∙ linked-lom f mem

  pub find_prev-next :
      (v : ℕ)
      → find_prev (list_fuel w) r w.freelist_head 0 (written v) ≡ ok ((last 0 us, r), written v)
  find_prev-next v =
      let enough = Loose-length w start size bs q loose in
      find_prev-found (written v) (list_fuel w) r w.freelist_head us vs 0
        (Chain-same w.mem (written v).mem w.freelist_head (us ++ (r ∷ vs)) (written-lom v)
          list-Chain)
        (omega (arith, enough, ap length list, length-append us (r ∷ vs)))
        (ground (arith, has-append r us vs, (Distinct-remove us r vs list-Distinct).1))
        (ground (arith, has-append 0 us (r ∷ vs), list-real))

  pub linked_to-written :
      (v : ℕ) → linked_to (written v) (last 0 us) q ≡ with_sz (replaced w q r us) q v
  linked_to-written v = linked_to-with_sz (linked w q r) q v (last 0 us) q (λ ne. omega (
    arith,
    q-apart (last 0 us) (ground (arith, last-mem 0 us, has-append (last 0 us) us (r ∷ vs))),
  ))

  front-real : has 0 us ≡ false
  front-real = ground (arith, has-append 0 us (r ∷ vs), list-real)

  q-low : q < 2 ^ 64
  q-low = omega (arith, Loose-within w start size bs q loose q loose.there, loose.ends)

  last-listed : last 0 us ≢ 0 → has (last 0 us) (us ++ (r ∷ vs)) ≡ true
  last-listed ne = ground (arith, last-mem 0 us, has-append (last 0 us) us (r ∷ vs))

  link-outside :
      (a : ℕ)
      → (last 0 us ≢ 0 → (a < last 0 us + 4) ⊎ (last 0 us + 12 ≤ a))
      → (replaced w q r us).mem a ≡ (linked w q r).mem a
  link-outside = linked_to-outside (linked w q r) us r vs q front-real list-Spaced

  q-lom : lom_at (replaced w q r us).mem q ≡ lom_at w.mem r
  q-lom =
      let x = lom_at w.mem r in
      let few =
        Chain-bound w.mem x vs (2 ^ 64) (Chain-behind w.mem w.freelist_head us r vs list-Chain)
          (omega arith) (λ f mem. list-low f (ground (arith, has-append f us (r ∷ vs)))) in
      lom_at-Same (linked w q r).mem (replaced w q r us).mem q
        (λ a low high. link-outside a (λ ne. omega (arith, q-apart (last 0 us) (last-listed ne))))
      ∙ read_field-write_field 8 w.mem (q + 4) x
      ∙ omega (arith, few)

  -- The block at `q` stands where the other one stood.
  pub replaced-Chain : let w' = replaced w q r us in Chain w'.mem w'.freelist_head (us ++ (q ∷ vs))
  replaced-Chain =
      let w' = replaced w q r us in
      let back = Chain-behind w.mem w.freelist_head us r vs list-Chain in
      linked_to-Chain (linked w q r) us r vs q front-real list-Spaced
        (Distinct-front us (r ∷ vs) list-Distinct) q-low (q ∷ vs)
        (Chain-same w.mem (linked w q r).mem w.freelist_head (us ++ (r ∷ vs)) linked-lom list-Chain)
        (
          refl,
          subst (λ h. Chain w'.mem h vs) (sym q-lom)
              (Chain-same w.mem w'.mem (lom_at w.mem r) vs
                (λ f mem.
                  let there : has f (us ++ (r ∷ vs)) ≡ true =
                    ground (arith, has-append f us (r ∷ vs)) in
                  behind-lom (linked w q r) us r vs list-real list-Spaced list-Distinct list-low q f
                    (ground arith)
                  ∙ linked-lom f there)
                back),
        )

  pub replaced-Tiles : Tiles (replaced w q r us).mem start 0 bs
  replaced-Tiles =
      linked_to-Tiles (linked w q r) us q start bs
        (λ f mem.
          Loose-free w start size bs q loose f
            (list-mem f (ground (arith, has-append f us (r ∷ vs)))))
        (Tiles-set_lom w.mem start 0 bs q (lom_at w.mem r) loose.there loose.tiles)

  pub replaced-Kept : Kept start size bs w.mem (replaced w q r us).mem
  replaced-Kept = record {
    inside = λ a h.
        link-outside a (λ ne. omega (
          arith,
          used_at-apart start bs (last 0 us) a
              (Loose-free w start size bs q loose (last 0 us)
                (list-mem (last 0 us) (last-listed ne)))
              h,
        ))
        ∙ write_field-outside 8 w.mem (q + 4) (lom_at w.mem r) a
            (omega (arith, used_at-apart start bs q a loose.there h));
    outside = λ a h.
        link-outside a (λ ne. omega (
          arith,
          Loose-within w start size bs q loose (last 0 us) (
              Loose-free w start size bs q loose (last 0 us)
                (list-mem (last 0 us) (last-listed ne))),
          h,
        ))
        ∙ write_field-outside 8 w.mem (q + 4) (lom_at w.mem r) a
            (omega (arith, Loose-within w start size bs q loose q loose.there, h));
  }

  pub replaced-Distinct : Distinct (us ++ (q ∷ vs))
  replaced-Distinct =
      let (rest, out) = Distinct-remove us r vs list-Distinct in
      let missing = ap (has q) (sym list) ∙ Loose-missing w start size bs q loose in
      Distinct-insert us q vs rest
        (ground (arith, missing, has-append q us vs, has-append q us (r ∷ vs)))
