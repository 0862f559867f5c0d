-- ===== src/Tests/Bitmaps.antt =====
-- The bitmap theorems on a bitmap of 100 bits in two words.
use waddle_os.Base.{
  ℕ, ◌*◌, ◌/◌, ◌<◌, ◌≡◌, true, false, not, ◌&&◌, ltb, leb, if◌then◌else◌, List, [], ◌∷◌, some, ok,
  ◌>>=◌, arith,
}
use waddle_os.Bitmap.{Bitmap, init_buf, set_bit, get_bit, flip, test, test_and_flip}
use waddle_os.Bitmap.View.{IsValid, bit_at}
use waddle_os.Bitmap.Set.{set_bit-misses}
use waddle_os.Bitmap.Clear.{init_buf-get_bit}
use waddle_os.Bitmap.Flip.{flip-get_bit}
use waddle_os.Bitmap.Search.{Found, Claimed, test-Found, test_and_flip-Claimed}

abbrev words : List ℕ
words = 0xFF ∷ 0x1 ∷ []

-- The bits 0 to 7 and 64 are set.
abbrev bits : Bitmap
bits = record { buf = words; size = 100 }

bits-IsValid : IsValid bits
bits-IsValid = record {
  fits = omega arith;
  words = (omega arith, (omega arith, tt));
  small = omega arith;
}

abbrev whole : Bitmap
whole = record { buf = words; size = 96 }

whole-IsValid : IsValid whole
whole-IsValid = record {
  fits = omega arith;
  words = (omega arith, (omega arith, tt));
  small = omega arith;
}

set_bit-misses_example :
    (b' : Bitmap) × (set_bit bits 40 true ≡ ok b')
    × (get_bit b' 40 ≡ ok false)
    × (get_bit b' 8 ≡ ok true)
set_bit-misses_example =
    set_bit-misses bits 40 bits-IsValid (omega arith) (omega arith) (omega arith)

init_buf-get_bit_example :
    (b : Bitmap) × (init_buf (some words) 100 ≡ ok b)
    × IsValid b
    × (b.size ≡ 100)
    × ((j : ℕ)
        → j < 100
        → get_bit b j ≡ ok (if ltb j (8 * (100 / 8)) then false else bit_at words j))
init_buf-get_bit_example =
    init_buf-get_bit words 100 (omega arith) (omega arith, (omega arith, tt)) (omega arith)

flip-get_bit_example :
    (b' : Bitmap) × (flip bits 4 70 ≡ ok b')
    × IsValid b'
    × (b'.size ≡ 100)
    × ((j : ℕ)
        → j < 100
        → get_bit b' j ≡ (get_bit bits j >>= λ v. ok (if leb 4 j && leb j 70 then not v else v)))
flip-get_bit_example = flip-get_bit bits 4 70 bits-IsValid (omega arith) (omega arith)

test-Found_example : (w : ℕ) × (test bits false 0 99 60 ≡ ok w) × Found bits false 0 99 60 w
test-Found_example =
    test-Found bits false 0 99 60 bits-IsValid (omega arith) (omega arith) (omega arith)

test_and_flip-Claimed_example :
    (w : ℕ) × (b' : Bitmap) × (test_and_flip bits false 0 99 20 ≡ ok (b', w))
    × Found bits false 0 99 20 w
    × Claimed bits false 0 99 20 bits-IsValid (omega arith) (omega arith) (omega arith) w b'
test_and_flip-Claimed_example =
    test_and_flip-Claimed bits false 0 99 20 bits-IsValid (omega arith) (omega arith) (omega arith)
