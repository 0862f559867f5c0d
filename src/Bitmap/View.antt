-- ===== src/Bitmap/View.antt =====
-- A bitmap as a function from indices to bits, and `bitmap_get` as its application.
use waddle_os.Base.{
  ℕ, zero, suc, ◌*◌, ◌/◌, ◌%◌, ◌^◌, ◌≤◌, ◌<◌, ◌≡◌, refl, Bool, List, [], ◌∷◌, arith, ◌==◌,
  if◌then◌else◌, lt→ltb, get_or, set, length, get_elem?-eq-get_or, get_or-set_self, get_or-set_ne,
  ok,
}
use waddle_os.Base.Bits.{test_bit, bit_and-pow_nonzero}
use waddle_os.Bitmap.{Bitmap, get_bit}

abbrev pub word_at : List ℕ → ℕ → ℕ
word_at ws idx = get_or ws idx 0

-- Bit `j` of the buffer.
abbrev pub bit_at : List ℕ → ℕ → Bool
bit_at ws j = test_bit (word_at ws (j / 64)) (j % 64)

-- The buffer has a word for each of the bits.
abbrev pub Fits : Bitmap → Type 0
Fits b = b.size ≤ 64 * length b.buf

abbrev pub AllWords : List ℕ → Type 0
AllWords [] = Unit {0}
AllWords (w ∷ ws) = (w < 2 ^ 64) × AllWords ws

-- The invariant of a bitmap: its bits are in the buffer, whose words have 64 bits; the size leaves
-- the sign bit of an `int64_t` index free.
pub record IsValid (b : Bitmap) : Type 0 where
  pub fits : Fits b
  pub words : AllWords b.buf
  pub small : b.size < 2 ^ 63

-- `bitmap_get` returns the bit at an index below the size.
pub get_bit-bit_at : (b : Bitmap) (j : ℕ) → Fits b → j < b.size → get_bit b j ≡ ok (bit_at b.buf j)
unfolding get_bit
get_bit-bit_at b j fits h =
    rw
      (
        lt→ltb j b.size h,
        get_elem?-eq-get_or b.buf (j / 64) 0 (omega arith),
        bit_and-pow_nonzero (word_at b.buf (j / 64)) (j % 64),
      )
      refl

-- What one changed word does to the bits.
pub bit_at-set :
    (ws : List ℕ) (idx v j : ℕ)
    → idx < length ws
    → bit_at (set ws idx v) j ≡ (if j / 64 == idx then test_bit v (j % 64) else bit_at ws j)
bit_at-set ws idx v j h =
    ground (arith, get_or-set_self ws idx v 0 h, get_or-set_ne ws idx (j / 64) v 0)

pub word_at-lt : (ws : List ℕ) (idx : ℕ) → AllWords ws → word_at ws idx < 2 ^ 64
word_at-lt [] idx h = omega arith
word_at-lt (w ∷ ws) zero h = h.0
word_at-lt (w ∷ ws) (suc idx) h = word_at-lt ws idx h.1

pub AllWords-set : (ws : List ℕ) (idx v : ℕ) → AllWords ws → v < 2 ^ 64 → AllWords (set ws idx v)
AllWords-set [] idx v h g = tt
AllWords-set (w ∷ ws) zero v h g = (g, h.1)
AllWords-set (w ∷ ws) (suc idx) v h g = (h.0, AllWords-set ws idx v h.1 g)
