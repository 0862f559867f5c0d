-- ===== src/Bitmap/Clear.antt =====
-- `bitmap_init_buf` and `bitmap_clear`: `memset` clears whole bytes, `size / 8` of them.
use native.Mathlib.Nat.{div-mul-le_self}
use waddle_os.Base.{
  ℕ, zero, suc, ◌+◌, ◌-◌, ◌*◌, ◌/◌, ◌%◌, ◌^◌, ◌≤◌, ◌<◌, ◌≡◌, refl, ap, false, some, List, [], ◌∷◌,
  arith, ltb, if◌then◌else◌, le→leb, length, ok,
}
use waddle_os.Base.Bits.{test_bit, test_bit-shift, test_bit-shr, test_bit-zero}
use waddle_os.Bitmap.{Bitmap, clear_bytes, memset_zero, init_buf, clear, get_bit}
use waddle_os.Bitmap.View.{word_at, bit_at, IsValid, AllWords, get_bit-bit_at}

-- Clearing the low `k` bits by two shifts.
test_bit-cut :
    (w k m : ℕ) → test_bit (w / 2 ^ k * 2 ^ k) m ≡ (if ltb m k then false else test_bit w m)
test_bit-cut w k m = ground (arith, test_bit-shift (w / 2 ^ k) k m, test_bit-shr w k (m - k), at)
  where
    at : k ≤ m → test_bit w (m - k + k) ≡ test_bit w m
    at h = let e : m - k + k ≡ m = omega arith in rw e refl

test_bit-clear_bytes :
    (n : ℕ) (ws : List ℕ) (k m : ℕ)
    → m < 64
    → test_bit (word_at (clear_bytes n ws) k) m
      ≡ (if ltb (64 * k + m) (8 * n) then false else test_bit (word_at ws k) m)
unfolding clear_bytes
test_bit-clear_bytes n [] k m h = ground (arith, test_bit-zero m)
test_bit-clear_bytes n (w ∷ ws) zero m h = ground (arith, test_bit-zero m, test_bit-cut w (8 * n) m)
test_bit-clear_bytes n (w ∷ ws) (suc k) m h = ground (arith, test_bit-clear_bytes (n - 8) ws k m h)

length-clear_bytes : (n : ℕ) (ws : List ℕ) → length (clear_bytes n ws) ≡ length ws
unfolding clear_bytes
length-clear_bytes n [] = refl
length-clear_bytes n (w ∷ ws) = ap suc (length-clear_bytes (n - 8) ws)

AllWords-clear_bytes : (n : ℕ) (ws : List ℕ) → AllWords ws → AllWords (clear_bytes n ws)
unfolding clear_bytes
AllWords-clear_bytes n [] h = tt
AllWords-clear_bytes n (w ∷ ws) h =
    (ground (arith, div-mul-le_self w (2 ^ (8 * n))), AllWords-clear_bytes (n - 8) ws h.1)

module _ (ws : List ℕ) (size : ℕ) (fits : size ≤ 64 * length ws) (words : AllWords ws)
    (small : size < 2 ^ 63) where
  abbrev cleared : Bitmap
  cleared = record { buf = clear_bytes (size / 8) ws; size = size }

  cleared-IsValid : IsValid cleared
  cleared-IsValid = record {
    fits = rw length-clear_bytes fits;
    words = AllWords-clear_bytes (size / 8) ws words;
    small = small;
  }

  cleared-get_bit :
      (j : ℕ)
      → j < size
      → get_bit cleared j ≡ ok (if ltb j (8 * (size / 8)) then false else bit_at ws j)
  cleared-get_bit j h = ground (
    arith,
    get_bit-bit_at cleared j (cleared-IsValid.fits) h,
    test_bit-clear_bytes (size / 8) ws (j / 64) (j % 64) (omega arith),
  )

-- `bitmap_init_buf` of fewer than 2^63 bits on a buffer that holds them gives a valid bitmap. Its
-- bits below `8 * (size / 8)` are clear; the last ones, if `size` is no multiple of 8, are what
-- the buffer held.
pub init_buf-get_bit :
    (ws : List ℕ) (size : ℕ)
    → size ≤ 64 * length ws
    → AllWords ws
    → size < 2 ^ 63
    → (b : Bitmap) × (init_buf (some ws) size ≡ ok b)
      × IsValid b
      × (b.size ≡ size)
      × ((j : ℕ)
          → j < size
          → get_bit b j ≡ ok (if ltb j (8 * (size / 8)) then false else bit_at ws j))
unfolding init_buf
init_buf-get_bit ws size fits words small = (
  cleared ws size fits words small,
  rw (le→leb (size / 8) (8 * length ws) (omega arith)) refl,
  cleared-IsValid ws size fits words small,
  refl,
  cleared-get_bit ws size fits words small,
)

-- `bitmap_clear` of a valid bitmap whose size is a multiple of 8 ends normally with a valid bitmap
-- of the same size in which every bit is clear.
pub clear-get_bit :
    (b : Bitmap)
    → IsValid b
    → b.size % 8 ≡ 0
    → (b' : Bitmap) × (clear b ≡ ok b')
      × IsValid b'
      × (b'.size ≡ b.size)
      × ((j : ℕ) → j < b.size → get_bit b' j ≡ ok false)
unfolding clear memset_zero
clear-get_bit b valid even = (
  cleared b.buf b.size valid.fits valid.words valid.small,
  rw (le→leb (b.size / 8) (8 * length b.buf) (omega (arith, valid.fits))) refl,
  cleared-IsValid b.buf b.size valid.fits valid.words valid.small,
  refl,
  λ j h. ground (arith, cleared-get_bit b.buf b.size valid.fits valid.words valid.small j h),
)
