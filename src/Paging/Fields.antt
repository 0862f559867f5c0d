-- ===== src/Paging/Fields.antt =====
-- The fields of a table entry, written and read back.
use native.Mathlib.Nat.{mod-lt}
use waddle_os.Base.{
  ℕ, ◌+◌, ◌-◌, ◌/◌, ◌%◌, ◌^◌, ◌≤◌, ◌<◌, ◌≡◌, ◌⊎◌, ◌&&◌, ltb, leb, if◌then◌else◌, bit_and, arith,
}
use waddle_os.Base.Word.{u64, ◌<<<◌, ◌>>>◌, not64}
use waddle_os.Base.Bits.{
  test_bit, test_bit-bit_and, test_bit-bit_or, test_bit-complement, test_bit-mod_pow,
  test_bit-shift, test_bit-shr, test_bit-low_mask, test_bit_ext, pow-pos,
}
use waddle_os.Paging.{get_bits, set_bits}

test_bit-u64 : (a i : ℕ) → i < 64 → test_bit (u64 a) i ≡ test_bit a i
test_bit-u64 a i h = ground (arith, test_bit-mod_pow a 64 i)

-- In each of the 64 bits, `SET_BITS` writes the low `len` bits of the new value to the field, and
-- leaves the bits outside the field.
pub set_bits-test_bit :
    (value pos len newval i : ℕ)
    → i < 64
    → test_bit (set_bits value pos len newval) i
      ≡ (if leb pos i && ltb i (pos + len) then test_bit newval (i - pos) else test_bit value i)
unfolding set_bits
set_bits-test_bit value pos len newval i h = ground (
  arith,
  test_bit-bit_or (bit_and value (not64 (u64 ((2 ^ len - 1) <<< pos))))
      (u64 (bit_and newval (2 ^ len - 1) <<< pos)) i,
  test_bit-bit_and value (not64 (u64 ((2 ^ len - 1) <<< pos))) i,
  test_bit-complement 64 (u64 ((2 ^ len - 1) <<< pos)) i
      (mod-lt ((2 ^ len - 1) <<< pos) (pow-pos 64)) h,
  test_bit-u64 ((2 ^ len - 1) <<< pos) i h,
  test_bit-u64 (bit_and newval (2 ^ len - 1) <<< pos) i h,
  test_bit-shift (2 ^ len - 1) pos i,
  test_bit-shift (bit_and newval (2 ^ len - 1)) pos i,
  test_bit-low_mask len (i - pos),
  test_bit-bit_and newval (2 ^ len - 1) (i - pos),
)

-- `GET_BITS` reads what `SET_BITS` has written to a field within the 64 bits.
pub get_bits-set_bits :
    (value pos len newval : ℕ)
    → pos + len ≤ 64
    → get_bits (set_bits value pos len newval) pos len ≡ newval % 2 ^ len
unfolding get_bits
get_bits-set_bits value pos len newval h =
    test_bit_ext (get_bits (set_bits value pos len newval) pos len) (newval % 2 ^ len) (λ i.
      ground (
        arith,
        test_bit-bit_and (set_bits value pos len newval >>> pos) (2 ^ len - 1) i,
        test_bit-shr (set_bits value pos len newval) pos i,
        test_bit-low_mask len i,
        test_bit-mod_pow newval len i,
        set_bits-test_bit value pos len newval (i + pos),
      ))

-- A write to another field leaves a field.
pub get_bits-frame :
    (value pos len newval pos' len' : ℕ)
    → pos' + len' ≤ 64
    → (pos' + len' ≤ pos) ⊎ (pos + len ≤ pos')
    → get_bits (set_bits value pos len newval) pos' len' ≡ get_bits value pos' len'
unfolding get_bits
get_bits-frame value pos len newval pos' len' h apart =
    test_bit_ext (get_bits (set_bits value pos len newval) pos' len') (get_bits value pos' len')
      (λ i. ground (
        arith,
        test_bit-bit_and (set_bits value pos len newval >>> pos') (2 ^ len' - 1) i,
        test_bit-bit_and (value >>> pos') (2 ^ len' - 1) i,
        test_bit-shr (set_bits value pos len newval) pos' i,
        test_bit-shr value pos' i,
        test_bit-low_mask len' i,
        set_bits-test_bit value pos len newval (i + pos'),
      ))

-- `GET_BITS` as a quotient and a remainder.
pub get_bits-quotient : (value pos len : ℕ) → get_bits value pos len ≡ value / 2 ^ pos % 2 ^ len
unfolding get_bits
get_bits-quotient value pos len =
    test_bit_ext (get_bits value pos len) (value / 2 ^ pos % 2 ^ len) (λ i. ground (
      arith,
      test_bit-bit_and (value >>> pos) (2 ^ len - 1) i,
      test_bit-low_mask len i,
      test_bit-mod_pow (value / 2 ^ pos) len i,
    ))
