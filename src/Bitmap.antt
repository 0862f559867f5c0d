-- ===== src/Bitmap.antt =====
-- kernel/drivers/bitmap.c: a set of bits in a buffer of 64-bit words. `buf` holds the words of the
-- buffer, the ones behind `size` bits too. A word outside the buffer is a fault.
pub mod View
pub mod Set
pub mod Clear
pub mod Flip
pub mod Search
use waddle_os.Base.{
  ℕ, zero, suc, ◌+◌, ◌-◌, ◌*◌, ◌/◌, ◌%◌, ◌^◌, Bool, true, false, not, ◌&&◌, Option, none, some,
  List, [], ◌∷◌, bit_and, bit_or, bit_xor, ltb, leb, ◌==◌, xor, if◌then◌else◌, get_elem?, set,
  length, Outcome, ok, halt, fault, spin, ◌>>=◌, ◌>>◌, assert, in_bounds,
}
use waddle_os.Base.Word.{u8, u32, u64, ◌<<<◌, ◌>>>◌, not64}

-- `bitmap_t`
pub record Bitmap : Type 0 where
  pub buf : List ℕ
  pub size : ℕ

-- `UINT64_MAX`, which is also the bit pattern of the `int64_t` -1
abbrev pub uint64_max : ℕ
uint64_max = 2 ^ 64 - 1

-- `memset(buf, 0, n)` on the bytes of little-endian words.
pub clear_bytes : ℕ → List ℕ → List ℕ
clear_bytes n [] = []
clear_bytes n (w ∷ ws) = (if leb 8 n then 0 else w >>> (8 * n) <<< (8 * n)) ∷ clear_bytes (n - 8) ws

pub memset_zero : ℕ → List ℕ → Outcome (List ℕ)
unfolding clear_bytes
memset_zero n ws = if leb n (8 * length ws) then ok (clear_bytes n ws) else fault

-- `bitmap_init_buf`; `none` is a null pointer for the buffer.
pub init_buf : Option (List ℕ) → ℕ → Outcome Bitmap
unfolding memset_zero
init_buf none num_idx = halt
init_buf (some words) num_idx = do
  cleared ← memset_zero (num_idx / 8) words
  ok (record { buf = cleared; size = num_idx })

-- `(value & 0x1) << ofs` as the operand of `|=` on a `uint64_t`. The left operand is an `int`: the
-- shift is one of 32 bits, whose count the processor takes modulo 32, and its result is
-- sign-extended. (C leaves a count of 32 or more undefined.)
pub int_shl : Bool → ℕ → ℕ
int_shl false ofs = 0
int_shl true ofs = let r = 2 ^ (ofs % 32) in if ltb r (2 ^ 31) then r else r + (2 ^ 64 - 2 ^ 32)

-- `bitmap_set`
pub set_bit : Bitmap → ℕ → Bool → Outcome Bitmap
unfolding int_shl
set_bit bmp bit_index value = do
  assert (ltb bit_index bmp.size)
  let idx = bit_index >>> 6
  let ofs = bit_index % 64
  w ← in_bounds (get_elem? bmp.buf idx)
  ok (record bmp {
    buf = set bmp.buf idx (bit_or (bit_and w (not64 (1 <<< ofs))) (int_shl value ofs));
  })

-- `bitmap_get`
pub get_bit : Bitmap → ℕ → Outcome Bool
get_bit bmp bit_index = do
  assert (ltb bit_index bmp.size)
  w ← in_bounds (get_elem? bmp.buf (bit_index >>> 6))
  ok (not (bit_and w (1 <<< (bit_index % 64)) == 0))

-- `bmp_arr[idx] ^= mask`
pub xor_word : List ℕ → ℕ → ℕ → Outcome (List ℕ)
xor_word ws idx mask = do w ← in_bounds (get_elem? ws idx); ok (set ws idx (bit_xor w mask))

-- The loop over the words between the first and the last, with the rounds left.
pub xor_words : ℕ → ℕ → List ℕ → Outcome (List ℕ)
xor_words zero word_idx ws = ok ws
xor_words (suc rounds) word_idx ws = do
  ws' ← xor_word ws word_idx uint64_max
  xor_words rounds (word_idx + 1) ws'

-- The masks of `bitmap_flip`: for a range inside one word, and for the first and the last word of
-- a longer one.
pub range_mask : ℕ → ℕ → ℕ
range_mask num_bits start_in_word =
    if num_bits == 64 then uint64_max else u64 ((2 ^ num_bits - 1) <<< start_in_word)

pub first_mask : ℕ → ℕ
first_mask start_in_word = u64 (uint64_max <<< start_in_word)

pub last_mask : ℕ → ℕ
last_mask end_in_word = if end_in_word == 63 then uint64_max else 2 ^ (end_in_word + 1) - 1

-- `bitmap_flip`
pub flip : Bitmap → ℕ → ℕ → Outcome Bitmap
unfolding xor_word xor_words range_mask first_mask last_mask
flip bmp start_idx end_idx = do
  assert (leb start_idx bmp.size)
  assert (leb end_idx bmp.size)
  assert (leb start_idx end_idx)
  let start_word = start_idx >>> 6
  let end_word = end_idx >>> 6
  flipped ←
      if start_word == end_word
      then xor_word bmp.buf start_word (range_mask (u8 (end_idx - start_idx + 1)) (start_idx % 64))
      else do
        ws ← xor_word bmp.buf start_word (first_mask (start_idx % 64))
        ws' ← xor_words (end_word - (start_word + 1)) (start_word + 1) ws
        xor_word ws' end_word (last_mask (end_idx % 64))
  ok (record bmp { buf = flipped })

-- The loop of `bitmap_test` at index `i`, with `end_idx + 1 - i` rounds left; it returns
-- `num_bits_iter` and `candidate_idx`.
pub test_loop : Bitmap → Bool → ℕ → ℕ → ℕ → ℕ → ℕ → Outcome (ℕ × ℕ)
test_loop bmp value num_bits zero i iter candidate = ok (iter, candidate)
test_loop bmp value num_bits (suc rounds) i iter candidate =
    if ltb iter num_bits
    then (do
      bit ← get_bit bmp i
      let hit = not (xor bit value)
      test_loop bmp value num_bits rounds (i + 1) (if hit then iter + 1 else 0)
          (if hit && (iter == 0) then i else candidate))
    else ok (iter, candidate)

-- The assertions at the head of `bitmap_test` and of `bitmap_test_and_flip`.
pub check_range : Bitmap → ℕ → ℕ → ℕ → Outcome (Unit {0})
check_range bmp start_idx end_idx num_bits = do
  assert (ltb start_idx bmp.size)
  assert (ltb end_idx bmp.size)
  assert (leb start_idx end_idx)
  assert (leb (u64 (start_idx + num_bits + (2 ^ 64 - 1))) end_idx)
  assert (ltb 0 num_bits)

-- `bitmap_test`, with the bit pattern of its `int64_t` result.
pub test : Bitmap → Bool → ℕ → ℕ → ℕ → Outcome ℕ
unfolding check_range test_loop get_bit
test bmp value start_idx end_idx num_bits = do
  check_range bmp start_idx end_idx num_bits
  (iter, candidate) ← test_loop bmp value num_bits (end_idx + 1 - start_idx) start_idx 0 start_idx
  ok (if iter == num_bits then candidate else uint64_max)

-- `bitmap_test_and_flip`
pub test_and_flip : Bitmap → Bool → ℕ → ℕ → ℕ → Outcome (Bitmap × ℕ)
test_and_flip bmp value start_idx end_idx num_bits = do
  check_range bmp start_idx end_idx num_bits
  ret ← test bmp value start_idx end_idx num_bits
  let flipped = flip bmp ret (u64 (ret + num_bits + (2 ^ 64 - 1)))
  if ret == uint64_max then ok (bmp, ret) else (flipped >>= λ bmp'. ok (bmp', ret))

-- `bitmap_clear`
pub clear : Bitmap → Outcome Bitmap
unfolding memset_zero
clear bmp = do cleared ← memset_zero (bmp.size / 8) bmp.buf; ok (record bmp { buf = cleared })

-- `bitmap_print`: the words that it prints. The loop counts bytes, and reads words; its index has 32
-- bits, so that it never ends from 2^32 bytes on.
pub print_loop : ℕ → ℕ → List ℕ → Outcome (List ℕ)
print_loop zero i ws = ok []
print_loop (suc rounds) i ws = do
  w ← in_bounds (get_elem? ws i)
  rest ← print_loop rounds (u32 (i + 1)) ws
  ok (w ∷ rest)

pub print : Bitmap → Outcome (List ℕ)
unfolding print_loop
print bmp = do
  words ← print_loop (bmp.size / 8) 0 bmp.buf
  if ltb (bmp.size / 8) (2 ^ 32) then ok words else spin
