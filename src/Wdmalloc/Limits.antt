-- ===== src/Wdmalloc/Limits.antt =====
-- What `wdmalloc` can do with a heap that `wdmalloc_init` has just laid out.
use waddle_os.Base.{
  ℕ, zero, suc, ◌+◌, ◌-◌, ◌*◌, ◌^◌, ◌≤◌, ◌<◌, ◌≡◌, refl, ◌≢◌, true, false, ◌&&◌, bit_and, ltb, leb,
  if◌then◌else◌, inl, lt→ltb, ne→==, arith, ok,
}
use waddle_os.Base.Bits.{test_bit, bit_and-pow_nonzero, high_bit_of_lt-pow}
use waddle_os.Memory.{Memory, write_field}
use waddle_os.Memory.Fields.{read_field-disjoint, read_field-write_field}
use waddle_os.Wdmalloc.{
  Wd, Best, no_best, sz_at, lom_at, hdr_size, init, is_free, find_best, wdmalloc,
}

-- A heap that is one block: its size field, and the end of the free list.
pub record OneBlock (w : Wd) (start size field : ℕ) : Type 0 where
  pub head : w.freelist_head ≡ start
  pub from : w.heap_start ≡ start
  pub bytes : w.heap_size ≡ size
  pub sz : sz_at w.mem start ≡ field
  pub lom : lom_at w.mem start ≡ 0

-- The state behind `wdmalloc_init`.
abbrev pub laid_out : Memory → ℕ → ℕ → Wd
laid_out m start size = record {
  mem =
      write_field 8 (write_field 2 (write_field 2 m start 0) (start + 2) (size - hdr_size))
        (start + 4) 0;
  freelist_head = start;
  heap_start = start;
  heap_size = size;
}

pub laid_out-OneBlock :
    (m : Memory) (start size : ℕ)
    → size < 2 ^ 16
    → OneBlock (laid_out m start size) start size (size - 12)
laid_out-OneBlock m start size h = record {
  head = refl;
  from = refl;
  bytes = refl;
  sz =
      rw
        (
          read_field-disjoint 2 8 (write_field 2 (write_field 2 m start 0) (start + 2) (size - 12))
              (start + 4) (start + 2) 0 (inl (omega arith)),
          read_field-write_field 2 (write_field 2 m start 0) (start + 2) (size - 12),
        )
        (omega arith);
  lom =
      rw
        (read_field-write_field 8 (write_field 2 (write_field 2 m start 0) (start + 2) (size - 12))
          (start + 4) 0)
        refl;
}

pub init-laid_out :
    (m : Memory) (start size : ℕ) (w₀ : Wd)
    → hdr_size < size
    → init m start size w₀ ≡ ok (tt, laid_out m start size)
unfolding init
init-laid_out m start size w₀ h = rw (lt→ltb hdr_size size h) refl

-- Bit 15 of a size field.
pub is_free-false : (s : ℕ) → 2 ^ 15 ≤ s → s < 2 ^ 16 → is_free s ≡ false
unfolding is_free
is_free-false s low high =
    let one : bit_and s (1 * 2 ^ 15) ≡ bit_and s (2 ^ 15) = refl in
    let top : test_bit s 15 ≡ true = ground arith in ground (arith, bit_and-pow_nonzero s 15)

pub is_free-true : (s : ℕ) → s < 2 ^ 15 → is_free s ≡ true
unfolding is_free
is_free-true s h =
    ground (arith, bit_and-pow_nonzero s 15, high_bit_of_lt-pow 15 s 15 h (omega arith))

-- The search of a free list of one block.
abbrev pub choice : ℕ → ℕ → ℕ → Best
choice start field n =
    if is_free field && (leb n field && ltb field (2 ^ 16 - 1))
    then record { min = start; min_prev = 0; min_sz = field }
    else no_best

pub find_best-one :
    (fuel from n start field : ℕ) (w : Wd)
    → 2 ≤ fuel
    → from ≡ start
    → start ≢ 0
    → sz_at w.mem start ≡ field
    → lom_at w.mem start ≡ 0
    → find_best fuel n from 0 no_best w ≡ ok (choice start field n, w)
unfolding find_best
find_best-one zero from n start field w enough at real s l = absurd (omega arith)
find_best-one (suc zero) from n start field w enough at real s l = absurd (omega arith)
find_best-one (suc (suc k)) from n start field w enough at real s l =
    rw (at, ne→== start 0 real, s, l) refl

-- After an initialisation with 2^15 + 12 bytes or more, which a 16-bit size can be, at an address
-- that is not NULL, every `wdmalloc` returns NULL and leaves the heap as it is.
pub init-unusable :
    (m : Memory) (start size : ℕ) (w₀ : Wd)
    → start ≢ 0
    → 2 ^ 15 + 12 ≤ size
    → size < 2 ^ 16
    → (w : Wd) × (init m start size w₀ ≡ ok (tt, w)) × ((n : ℕ) → wdmalloc n w ≡ ok (0, w))
unfolding wdmalloc
init-unusable m start size w₀ real low high = (
  laid_out m start size,
  init-laid_out m start size w₀ (omega arith),
  λ n.
      rw
        (
          ne→== start 0 real,
          ne→== size 0 (omega arith),
          find_best-one (size + 1) start n start (size - 12) (laid_out m start size) (omega arith)
              refl real one.sz one.lom,
          is_free-false (size - 12) (omega arith) (omega arith),
        )
        refl,
)
  where
    one : OneBlock (laid_out m start size) start size (size - 12)
    one = laid_out-OneBlock m start size high
