-- ===== src/Wdmalloc/Sizes.antt =====
-- The bit of a size field that marks an allocated block, and the size under it.
use native.Mathlib.Decide.{dec_lt}
use waddle_os.Base.{ℕ, ◌-◌, ◌^◌, ◌≤◌, ◌<◌, ◌≡◌, refl, not, ◌&&◌, false, ◌==◌, bit_or, arith}
use waddle_os.Base.Bits.{
  test_bit, test_bit-bit_and, test_bit-bit_or, test_bit_ext, high_bit_of_lt-pow,
  test_bit-complement, test_bit-two_pow, lt_pow-of_high_bits,
}
use waddle_os.Wdmalloc.{alloc_bit, is_free, actual_size}
use waddle_os.Wdmalloc.Limits.{is_free-false}

-- The size in a size field: all bits but the one that marks an allocated block.
test_bit-actual_size :
    (s i : ℕ) → s < 2 ^ 16 → test_bit (actual_size s) i ≡ (test_bit s i && not (15 == i))
unfolding actual_size
test_bit-actual_size s i h =
    let mask : 2 ^ 32 - 1 - 2 ^ 15 ≡ 0xFFFF7FFF = refl in
    rw (test_bit-bit_and s 0xFFFF7FFF i) (
      ground (
        arith,
        high_bit_of_lt-pow 16 s i h,
        test_bit-complement 32 (2 ^ 15) i,
        test_bit-two_pow 15 i,
      ))

pub marked_lt : (n : ℕ) → n < 2 ^ 15 → bit_or n alloc_bit < 2 ^ 16
marked_lt n h = lt_pow-of_high_bits 16 (bit_or n alloc_bit) (λ i above.
    ground
      (arith, test_bit-bit_or n alloc_bit i, test_bit-two_pow 15 i, high_bit_of_lt-pow 15 n i h))

pub le-marked : (n : ℕ) → 2 ^ 15 ≤ bit_or n alloc_bit
le-marked n = elim (dec_lt (bit_or n alloc_bit) (2 ^ 15)) [
  | yes low ↦ absurd (
      ground (
        arith,
        high_bit_of_lt-pow 15 (bit_or n alloc_bit) 15 low,
        test_bit-bit_or n alloc_bit 15,
        test_bit-two_pow 15 15,
      ))
  | no high ↦ omega arith
]

pub actual_size-marked : (n : ℕ) → n < 2 ^ 15 → actual_size (bit_or n alloc_bit) ≡ n
actual_size-marked n h = test_bit_ext (actual_size (bit_or n alloc_bit)) n (λ i. ground (
  arith,
  test_bit-actual_size (bit_or n alloc_bit) i (marked_lt n h),
  test_bit-bit_or n alloc_bit i,
  test_bit-two_pow 15 i,
  high_bit_of_lt-pow 15 n i h,
))

pub actual_size-id : (n : ℕ) → n < 2 ^ 15 → actual_size n ≡ n
actual_size-id n h =
    test_bit_ext (actual_size n) n
      (λ i. ground (arith, test_bit-actual_size n i, high_bit_of_lt-pow 15 n i h))

pub is_free-marked : (n : ℕ) → n < 2 ^ 15 → is_free (bit_or n alloc_bit) ≡ false
is_free-marked n h = is_free-false (bit_or n alloc_bit) (le-marked n) (marked_lt n h)
