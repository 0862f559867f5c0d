-- ===== src/Bitmap/Set.antt =====
-- `bitmap_set`: what it does where the shift of its `int` operand stays in range, and where not.
use waddle_os.Base.{
  ℕ, ◌-◌, ◌*◌, ◌/◌, ◌%◌, ◌^◌, ◌≤◌, ◌<◌, ◌≡◌, refl, ◌⊎◌, inl, inr, Bool, true, false, not, ◌&&◌,
  ◌||◌, arith, bit_and, bit_or, ◌==◌, if◌then◌else◌, lt→ltb, set, length-set, get_elem?-eq-get_or,
  ok,
}
use waddle_os.Base.Word.{not64}
use waddle_os.Base.Bits.{
  test_bit, test_bit-bit_and, test_bit-bit_or, test_bit-pow, test_bit-two_pow, test_bit-complement,
  test_bit-zero, pow-lt, lt_pow-of_high_bits, high_bit_of_lt-pow,
}
use waddle_os.Bitmap.{Bitmap, int_shl, set_bit, get_bit}
use waddle_os.Bitmap.View.{
  word_at, bit_at, Fits, bit_at-set, get_bit-bit_at, IsValid, AllWords-set, word_at-lt,
}

-- The word that `bitmap_set` stores for the word `w`.
abbrev stored : ℕ → ℕ → Bool → ℕ
stored w ofs value = bit_or (bit_and w (not64 (1 * 2 ^ ofs))) (int_shl value ofs)

set_bit-stored :
    (b : Bitmap) (i : ℕ) (v : Bool)
    → Fits b
    → i < b.size
    → set_bit b i v
      ≡ ok (record b { buf = set b.buf (i / 64) (stored (word_at b.buf (i / 64)) (i % 64) v) })
unfolding set_bit
set_bit-stored b i v fits h =
    rw (lt→ltb i b.size h, get_elem?-eq-get_or b.buf (i / 64) 0 (omega arith)) refl

-- Every bit of the stored word.
test_bit-stored :
    (w ofs m : ℕ) (v : Bool)
    → ofs < 64
    → m < 64
    → test_bit (stored w ofs v) m ≡ ((test_bit w m && not (ofs == m)) || test_bit (int_shl v ofs) m)
test_bit-stored w ofs m v ho hm =
    rw
      (
        test_bit-bit_or (bit_and w (not64 (1 * 2 ^ ofs))) (int_shl v ofs) m,
        test_bit-bit_and w (not64 (1 * 2 ^ ofs)) m,
        test_bit-complement 64 (1 * 2 ^ ofs) m (omega (arith, pow-lt ofs 64 ho)) hm,
        test_bit-pow ofs m,
      )
      refl

-- The shift in range gives the bit, sign extension and all, only below 31.
int_shl-bit :
    (v : Bool) (ofs m : ℕ)
    → (v ≡ false) ⊎ (ofs < 31)
    → test_bit (int_shl v ofs) m ≡ (v && (ofs == m))
unfolding int_shl
int_shl-bit false ofs m h = test_bit-zero m
int_shl-bit true ofs m h = elim h [
  | inl e ↦ cc
  | inr low ↦
      let cut : ofs % 32 ≡ ofs = omega arith in
      rw (cut, lt→ltb (2 ^ ofs) (2 ^ 31) (pow-lt ofs 31 low)) (test_bit-two_pow ofs m)
]

int_shl-lt : (v : Bool) (ofs : ℕ) → int_shl v ofs < 2 ^ 64
unfolding int_shl
int_shl-lt false ofs = omega arith
int_shl-lt true ofs = ground (arith, pow-lt (ofs % 32) 32 (omega arith))

int_shl-upper : (ofs : ℕ) → 32 ≤ ofs → ofs < 63 → int_shl true ofs ≡ 2 ^ (ofs - 32)
unfolding int_shl
int_shl-upper ofs h g =
    let cut : ofs % 32 ≡ ofs - 32 = omega arith in
    rw (cut, lt→ltb (2 ^ (ofs - 32)) (2 ^ 31) (pow-lt (ofs - 32) 31 (omega arith))) refl

stored-lt : (w ofs : ℕ) (v : Bool) → w < 2 ^ 64 → ofs < 64 → stored w ofs v < 2 ^ 64
stored-lt w ofs v h ho = lt_pow-of_high_bits 64 (stored w ofs v) (λ i g. rw (
  test_bit-bit_or (bit_and w (not64 (1 * 2 ^ ofs))) (int_shl v ofs) i,
  test_bit-bit_and w (not64 (1 * 2 ^ ofs)) i,
  high_bit_of_lt-pow 64 w i h g,
  high_bit_of_lt-pow 64 (int_shl v ofs) i (int_shl-lt v ofs) g,
))

-- The bitmap that `bitmap_set` leaves.
abbrev after : Bitmap → ℕ → Bool → Bitmap
after b i v = record b { buf = set b.buf (i / 64) (stored (word_at b.buf (i / 64)) (i % 64) v) }

after-IsValid : (b : Bitmap) (i : ℕ) (v : Bool) → IsValid b → IsValid (after b i v)
after-IsValid b i v valid = record {
  fits = rw length-set valid.fits;
  words =
      AllWords-set b.buf (i / 64) _ valid.words
        (stored-lt _ (i % 64) v (word_at-lt b.buf (i / 64) valid.words) (omega arith));
  small = valid.small;
}

-- The bits behind the write, with the shifted operand left as it is.
bit_at-after :
    (b : Bitmap) (i : ℕ) (v : Bool) (j : ℕ)
    → Fits b
    → i < b.size
    → bit_at (after b i v).buf j ≡ (
        if j / 64 == i / 64
        then (bit_at b.buf j && not (i % 64 == j % 64)) || test_bit (int_shl v (i % 64)) (j % 64)
        else bit_at b.buf j)
bit_at-after b i v j fits h = ground (
  arith,
  bit_at-set b.buf (i / 64) (stored (word_at b.buf (i / 64)) (i % 64) v) j,
  test_bit-stored (word_at b.buf (i / 64)) (i % 64) (j % 64) v,
)

bit_at-after_safe :
    (b : Bitmap) (i : ℕ) (v : Bool) (j : ℕ)
    → Fits b
    → i < b.size
    → (v ≡ false) ⊎ (i % 64 < 31)
    → bit_at (after b i v).buf j ≡ (if j == i then v else bit_at b.buf j)
bit_at-after_safe b i v j fits h safe =
    ground (arith, bit_at-after b i v j fits h, int_shl-bit v (i % 64) (j % 64) safe)

get_bit-after :
    (b : Bitmap) (i : ℕ) (v : Bool) (j : ℕ)
    → Fits b
    → j < b.size
    → get_bit (after b i v) j ≡ ok (bit_at (after b i v).buf j)
get_bit-after b i v j fits h = get_bit-bit_at (after b i v) j (rw length-set fits) h

-- In a valid bitmap, for a bit whose offset in its word is below 31 and for every bit that is
-- cleared, `bitmap_set` ends normally with a valid bitmap that has the value at the index and
-- every other bit as before.
pub set_bit-get_bit :
    (b : Bitmap) (i : ℕ) (v : Bool)
    → IsValid b
    → i < b.size
    → (v ≡ false) ⊎ (i % 64 < 31)
    → (b' : Bitmap) × (set_bit b i v ≡ ok b')
      × IsValid b'
      × (b'.size ≡ b.size)
      × ((j : ℕ) → j < b.size → get_bit b' j ≡ (if j == i then ok v else get_bit b j))
set_bit-get_bit b i v valid h safe =
    (after b i v, set_bit-stored b i v valid.fits h, after-IsValid b i v valid, refl, bits)
  where
    bits : (j : ℕ) → j < b.size → get_bit (after b i v) j ≡ (if j == i then ok v else get_bit b j)
    bits j hj = ground (
      arith,
      get_bit-after b i v j valid.fits hj,
      get_bit-bit_at b j valid.fits hj,
      bit_at-after_safe b i v j valid.fits h safe,
    )

-- Setting a bit of a valid bitmap whose offset in its word is from 32 to 62 does not set it: the
-- bit reads as clear afterwards, and the bit 32 places below reads as set.
pub set_bit-misses :
    (b : Bitmap) (i : ℕ)
    → IsValid b
    → i < b.size
    → 32 ≤ i % 64
    → (i % 64 < 63)
    → (b' : Bitmap) × (set_bit b i true ≡ ok b')
      × (get_bit b' i ≡ ok false)
      × (get_bit b' (i - 32) ≡ ok true)
set_bit-misses b i valid h upper top =
    (after b i true, set_bit-stored b i true valid.fits h, miss, hit)
  where
    low : int_shl true (i % 64) ≡ 2 ^ (i % 64 - 32)
    low = int_shl-upper (i % 64) upper top

    miss : get_bit (after b i true) i ≡ ok false
    miss = ground (
      arith,
      get_bit-after b i true i valid.fits h,
      bit_at-after b i true i valid.fits h,
      test_bit-two_pow (i % 64 - 32) (i % 64),
      low,
    )

    hit : get_bit (after b i true) (i - 32) ≡ ok true
    hit = ground (
      arith,
      get_bit-after b i true (i - 32) valid.fits (omega arith),
      bit_at-after b i true (i - 32) valid.fits h,
      test_bit-two_pow (i % 64 - 32) ((i - 32) % 64),
      low,
    )
