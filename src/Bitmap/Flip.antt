-- ===== src/Bitmap/Flip.antt =====
-- `bitmap_flip`: its three masks, and the range of bits that it flips.
use waddle_os.Base.{
  ℕ, zero, suc, ◌+◌, ◌-◌, ◌*◌, ◌/◌, ◌%◌, ◌^◌, ◌≤◌, ◌<◌, ◌≡◌, refl, ◌∙◌, inl, inr, Bool, true, not,
  ◌&&◌, List, arith, bit_xor, ltb, leb, ◌==◌, xor, if◌then◌else◌, set, length, length-set,
  get_elem?-eq-get_or, Outcome, ok, ◌>>=◌, Bool-cases, le→leb,
}
use waddle_os.Base.Word.{u8}
use waddle_os.Base.Bits.{
  test_bit, test_bit-bit_xor, test_bit-mod_pow, test_bit-shift, test_bit-low_mask, pow-lt,
  lt_pow-of_high_bits, high_bit_of_lt-pow,
}
use waddle_os.Bitmap.{
  Bitmap, get_bit, xor_word, xor_words, range_mask, first_mask, last_mask, flip, uint64_max,
}
use waddle_os.Bitmap.View.{
  word_at, bit_at, Fits, IsValid, AllWords, AllWords-set, word_at-lt, bit_at-set, get_bit-bit_at,
}

-- `ws'` is `ws` with the bits of `chosen` flipped.
pub record Flipped (ws ws' : List ℕ) (chosen : ℕ → Bool) : Type 0 where
  pub same_length : length ws' ≡ length ws
  pub words : AllWords ws → AllWords ws'
  pub bits : (j : ℕ) → bit_at ws' j ≡ xor (bit_at ws j) (chosen j)

Flipped-trans :
    {ws ws' ws'' : List ℕ} {p q r : ℕ → Bool}
    → Flipped ws ws' p
    → Flipped ws' ws'' q
    → ((j : ℕ) → xor (p j) (q j) ≡ r j)
    → Flipped ws ws'' r
Flipped-trans f g e = record {
  same_length = g.same_length ∙ f.same_length;
  words = λ h. g.words (f.words h);
  bits = λ j. ground (arith, f.bits j, g.bits j, e j);
}

Flipped-choose :
    {ws ws' : List ℕ} {p r : ℕ → Bool} → Flipped ws ws' p → ((j : ℕ) → p j ≡ r j) → Flipped ws ws' r
Flipped-choose f e = record {
  same_length = f.same_length;
  words = f.words;
  bits = λ j. ground (arith, f.bits j, e j);
}

test_bit-range_mask :
    (n st m : ℕ)
    → 0 < n
    → n + st ≤ 64
    → m < 64
    → test_bit (range_mask n st) m ≡ (leb st m && ltb m (st + n))
unfolding range_mask
test_bit-range_mask n st m pos fits h = ground (
  arith,
  test_bit-mod_pow ((2 ^ n - 1) * 2 ^ st) 64 m,
  test_bit-shift (2 ^ n - 1) st m,
  test_bit-low_mask n (m - st),
  test_bit-low_mask 64 m,
)

test_bit-first_mask : (st m : ℕ) → st < 64 → m < 64 → test_bit (first_mask st) m ≡ leb st m
unfolding first_mask
test_bit-first_mask st m hs h = ground (
  arith,
  test_bit-mod_pow (uint64_max * 2 ^ st) 64 m,
  test_bit-shift uint64_max st m,
  test_bit-low_mask 64 (m - st),
)

test_bit-last_mask : (en m : ℕ) → en < 64 → m < 64 → test_bit (last_mask en) m ≡ leb m en
unfolding last_mask
test_bit-last_mask en m he h = ground (arith, test_bit-low_mask 64 m, test_bit-low_mask (en + 1) m)

last_mask-lt : (en : ℕ) → en < 64 → last_mask en < 2 ^ 64
unfolding last_mask
last_mask-lt en h = ground (arith, pow-lt (en + 1) 64)

range_mask-lt : (n st : ℕ) → range_mask n st < 2 ^ 64
unfolding range_mask
range_mask-lt n st = ground arith

first_mask-lt : (st : ℕ) → first_mask st < 2 ^ 64
unfolding first_mask
first_mask-lt st = omega arith

bit_xor-lt : (a b : ℕ) → a < 2 ^ 64 → b < 2 ^ 64 → bit_xor a b < 2 ^ 64
bit_xor-lt a b ha hb = lt_pow-of_high_bits 64 (bit_xor a b) (λ i g.
    rw (test_bit-bit_xor a b i, high_bit_of_lt-pow 64 a i ha g, high_bit_of_lt-pow 64 b i hb g))

-- One word of the buffer, combined with a mask.
xor_word-Flipped :
    (ws : List ℕ) (idx mask : ℕ) (chosen : ℕ → Bool)
    → idx < length ws
    → mask < 2 ^ 64
    → ((m : ℕ) → m < 64 → test_bit mask m ≡ chosen m)
    → (ws' : List ℕ) × (xor_word ws idx mask ≡ ok ws')
      × Flipped ws ws' (λ j. (j / 64 == idx) && chosen (j % 64))
unfolding xor_word
xor_word-Flipped ws idx mask chosen h small e = (
  set ws idx (bit_xor (word_at ws idx) mask),
  rw (get_elem?-eq-get_or ws idx 0 h) refl,
  record {
    same_length = length-set ws idx _;
    words = λ all. AllWords-set ws idx _ all (bit_xor-lt _ mask (word_at-lt ws idx all) small);
    bits = λ j. ground (
      arith,
      bit_at-set ws idx (bit_xor (word_at ws idx) mask) j,
      test_bit-bit_xor (word_at ws idx) mask (j % 64),
      e (j % 64),
    );
  },
)

-- The loop flips every bit of `rounds` words.
xor_words-Flipped :
    (rounds idx : ℕ) (ws : List ℕ)
    → idx + rounds ≤ length ws
    → (ws' : List ℕ) × (xor_words rounds idx ws ≡ ok ws')
      × Flipped ws ws' (λ j. leb idx (j / 64) && ltb (j / 64) (idx + rounds))
unfolding xor_words
xor_words-Flipped zero idx ws h =
    (ws, refl, record { same_length = refl; words = λ a. a; bits = λ j. ground arith })
xor_words-Flipped (suc rounds) idx ws h =
    let (ws', e, f) =
      xor_word-Flipped ws idx uint64_max (λ m. true) (omega arith) (omega arith)
        (λ m hm. ground (arith, test_bit-low_mask 64 m)) in
    let (ws'', e', f') = xor_words-Flipped rounds (idx + 1) ws' (omega (arith, f.same_length)) in
    (ws'', rw e e', Flipped-trans f f' (λ j. ground arith))

-- The bits from `s` to `e`, both included.
abbrev pub between : ℕ → ℕ → ℕ → Bool
between s e j = leb s j && leb j e

module _ (b : Bitmap) (s e : ℕ) (fits : Fits b) (order : s ≤ e) (inside : e < b.size) where
  flip_one_word :
      s / 64 ≡ e / 64
      → (ws' : List ℕ) × (xor_word b.buf (s / 64) (range_mask (u8 (e - s + 1)) (s % 64)) ≡ ok ws')
        × Flipped b.buf ws' (between s e)
  flip_one_word same =
      let n = u8 (e - s + 1) in
      let (ws', eq, f) =
        xor_word-Flipped b.buf (s / 64) (range_mask n (s % 64))
          (λ m. leb (s % 64) m && ltb m (s % 64 + n)) (omega arith) (range_mask-lt n (s % 64))
          (λ m hm. test_bit-range_mask n (s % 64) m (omega arith) (omega arith) hm) in
      (ws', eq, Flipped-choose f (λ j. ground arith))

  abbrev flip_words : Outcome (List ℕ)
  flip_words = do
    ws ← xor_word b.buf (s / 64) (first_mask (s % 64))
    ws' ← xor_words (e / 64 - (s / 64 + 1)) (s / 64 + 1) ws
    xor_word ws' (e / 64) (last_mask (e % 64))

  flip_many_words :
      s / 64 < e / 64 → (ws' : List ℕ) × (flip_words ≡ ok ws') × Flipped b.buf ws' (between s e)
  flip_many_words less =
      let rounds = e / 64 - (s / 64 + 1) in
      let (ws₁, e₁, f₁) =
        xor_word-Flipped b.buf (s / 64) (first_mask (s % 64)) (λ m. leb (s % 64) m) (omega arith)
          (first_mask-lt (s % 64)) (λ m hm. test_bit-first_mask (s % 64) m (omega arith) hm) in
      let (ws₂, e₂, f₂) =
        xor_words-Flipped rounds (s / 64 + 1) ws₁ (omega (arith, f₁.same_length)) in
      let (ws₃, e₃, f₃) =
        xor_word-Flipped ws₂ (e / 64) (last_mask (e % 64)) (λ m. leb m (e % 64))
          (omega (arith, f₁.same_length, f₂.same_length)) (last_mask-lt (e % 64) (omega arith))
          (λ m hm. test_bit-last_mask (e % 64) m (omega arith) hm) in
      (ws₃, rw (e₁, e₂) e₃, Flipped-trans f₁ (Flipped-trans f₂ f₃ (λ j. refl)) (λ j. ground arith))

  -- `bitmap_flip` of a range inside the bitmap flips the bits of the buffer from `s` to `e`, both
  -- included, and no other.
  flip-Flipped :
      (ws' : List ℕ) × (flip b s e ≡ ok (record b { buf = ws' })) × Flipped b.buf ws' (between s e)
  unfolding flip
  flip-Flipped =
      rw (le→leb s b.size (omega arith), le→leb e b.size (omega arith), le→leb s e order)
        (elim (Bool-cases (s / 64 == e / 64)) [
          | inl same ↦
              let (ws', eq, f) = flip_one_word (ground arith) in (ws', rw (same, eq) refl, f)
          | inr apart ↦
              let (ws', eq, f) = flip_many_words (ground arith) in (ws', rw (apart, eq) refl, f)
        ])

-- `bitmap_flip` of a range inside a valid bitmap ends normally: the bits from `s` to `e`, both
-- included, read as the opposite, all others as before, and the bitmap stays valid.
pub flip-get_bit :
    (b : Bitmap) (s e : ℕ)
    → IsValid b
    → s ≤ e
    → e < b.size
    → (b' : Bitmap) × (flip b s e ≡ ok b')
      × IsValid b'
      × (b'.size ≡ b.size)
      × ((j : ℕ)
          → j < b.size
          → get_bit b' j ≡ (get_bit b j >>= λ v. ok (if leb s j && leb j e then not v else v)))
flip-get_bit b s e valid order inside =
    let (ws', eq, f) = flip-Flipped b s e valid.fits order inside in
    (
      record b { buf = ws' },
      eq,
      record {
        fits = rw f.same_length valid.fits;
        words = f.words valid.words;
        small = valid.small;
      },
      refl,
      λ j hj. bits ws' f j hj,
    )
  where
    bits :
        (ws' : List ℕ)
        → Flipped b.buf ws' (between s e)
        → (j : ℕ) → j < b.size
        → get_bit (record b { buf = ws' }) j
          ≡ (get_bit b j >>= λ v. ok (if leb s j && leb j e then not v else v))
    bits ws' f j hj = ground (
      arith,
      get_bit-bit_at (record b { buf = ws' }) j (rw f.same_length valid.fits) hj,
      get_bit-bit_at b j valid.fits hj,
      f.bits j,
    )
