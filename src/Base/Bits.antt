-- ===== src/Base/Bits.antt =====
-- The bits of a number, and what the bitwise operations do to each of them.
use Prim.Native.Nat.{
  ℕ, zero, suc, ◌+◌, ◌-◌, ◌*◌, ◌/◌, ◌%◌, ◌^◌, ◌≤◌, ◌<◌, min, max, digits, bitwise, bit_and, bit_or,
  bit_xor, bit_and-bitwise, bit_or-bitwise, bit_xor-bitwise, differ,
}
use mathlib.Core.Path.{◌≡◌, refl, sym, ◌∙◌}
use mathlib.Core.Logic.{◌≢◌, inl, inr}
use mathlib.Core.Bool.{Bool, true, false, not, ◌&&◌, ◌||◌}
use native.Mathlib.Nat.{
  one-le-pow, pow-succ', mul-one, sub-zero, suc-sub-suc, mod-lt, mod-eq_of_lt, pow-le-pow_right,
  div-div-eq-div-mul, div-one, add-zero, add-suc,
}
use native.Mathlib.Omega.{arith}
use waddle_os.Base.Tests.{◌==◌, ltb, leb, xor, Bool-cases}

-- Bit `i` of `a`.
abbrev pub test_bit : ℕ → ℕ → Bool
test_bit a zero = a % 2 == 1
test_bit a (suc i) = test_bit (a / 2) i

-- The recursion behind the native operations, for any operation `op` on two digits.
module _ (last : ℕ → ℕ) (op : ℕ → ℕ → ℕ) where
  digits-zero : (fuel y : ℕ) → digits last op fuel 0 y ≡ last y
  digits-zero zero y = refl
  digits-zero (suc fuel) y = refl

  -- Any two bounds that are large enough give the same number.
  digits_agree :
      (x y fuel spare : ℕ)
      → x ≤ fuel
      → x ≤ spare
      → digits last op fuel x y ≡ digits last op spare x y
  digits_agree zero y fuel spare h g = digits-zero fuel y ∙ sym (digits-zero spare y)
  digits_agree (suc x) y zero spare h g = absurd (omega arith)
  digits_agree (suc x) y (suc fuel) zero h g = absurd (omega arith)
  digits_agree (suc x) y (suc fuel) (suc spare) h g =
      let halves = digits_agree (suc x / 2) (y / 2) fuel spare (omega arith) (omega arith) in
      rw halves refl

  bitwise_low :
      (x y : ℕ)
      → bitwise last op (suc x) y ≡ op (suc x % 2) (y % 2) + 2 * bitwise last op (suc x / 2) (y / 2)
  bitwise_low x y =
      let halves = digits_agree (suc x / 2) (y / 2) x (suc x / 2) (omega arith) (omega arith) in
      omega (arith, halves)

pub bit_and_low : (x y : ℕ) → bit_and x y ≡ min (x % 2) (y % 2) + 2 * bit_and (x / 2) (y / 2)
bit_and_low zero y = simp bit_and-bitwise (omega arith)
bit_and_low (suc x) y = simp bit_and-bitwise (bitwise_low (λ _. 0) min x y)

pub bit_or_low : (x y : ℕ) → bit_or x y ≡ max (x % 2) (y % 2) + 2 * bit_or (x / 2) (y / 2)
bit_or_low zero y = simp bit_or-bitwise (omega arith)
bit_or_low (suc x) y = simp bit_or-bitwise (bitwise_low (λ d. d) max x y)

pub bit_xor_low : (x y : ℕ) → bit_xor x y ≡ differ (x % 2) (y % 2) + 2 * bit_xor (x / 2) (y / 2)
bit_xor_low zero y = simp bit_xor-bitwise (omega arith)
bit_xor_low (suc x) y = simp bit_xor-bitwise (bitwise_low (λ d. d) differ x y)

bit_and-half : (a b : ℕ) → bit_and a b / 2 ≡ bit_and (a / 2) (b / 2)
bit_and-half a b = omega (arith, bit_and_low a b)

bit_or-half : (a b : ℕ) → bit_or a b / 2 ≡ bit_or (a / 2) (b / 2)
bit_or-half a b = omega (arith, bit_or_low a b)

differ_cases : (a b : ℕ) → a < 2 → b < 2 → differ a b ≡ (a + b) % 2
differ_cases zero zero h g = refl
differ_cases zero (suc zero) h g = refl
differ_cases (suc zero) zero h g = refl
differ_cases (suc zero) (suc zero) h g = refl
differ_cases (suc (suc a)) b h g = absurd (omega arith)
differ_cases zero (suc (suc b)) h g = absurd (omega arith)
differ_cases (suc zero) (suc (suc b)) h g = absurd (omega arith)

pub test_bit-bit_and : (a b i : ℕ) → test_bit (bit_and a b) i ≡ (test_bit a i && test_bit b i)
test_bit-bit_and a b zero = ground (arith, bit_and_low a b)
test_bit-bit_and a b (suc i) = rw (bit_and-half a b) (test_bit-bit_and (a / 2) (b / 2) i)

pub test_bit-bit_or : (a b i : ℕ) → test_bit (bit_or a b) i ≡ (test_bit a i || test_bit b i)
test_bit-bit_or a b zero = ground (arith, bit_or_low a b)
test_bit-bit_or a b (suc i) = rw (bit_or-half a b) (test_bit-bit_or (a / 2) (b / 2) i)

bit_xor_parity : (a b : ℕ) → bit_xor a b ≡ bit_xor (a / 2) (b / 2) * 2 + (a % 2 + b % 2) % 2
bit_xor_parity a b =
    omega (arith, bit_xor_low a b, differ_cases (a % 2) (b % 2) (omega arith) (omega arith))

bit_xor-half : (a b : ℕ) → bit_xor a b / 2 ≡ bit_xor (a / 2) (b / 2)
bit_xor-half a b = omega (arith, bit_xor_parity a b)

pub test_bit-bit_xor : (a b i : ℕ) → test_bit (bit_xor a b) i ≡ xor (test_bit a i) (test_bit b i)
test_bit-bit_xor a b zero = ground (arith, bit_xor_parity a b)
test_bit-bit_xor a b (suc i) = rw (bit_xor-half a b) (test_bit-bit_xor (a / 2) (b / 2) i)

half-mod : (a m : ℕ) → 0 < m → (a % (2 * m)) / 2 ≡ (a / 2) % m
half-mod a m h = grind arith

even-mod : (a m : ℕ) → 0 < m → (a % (2 * m)) % 2 ≡ a % 2
even-mod a m h = ground arith

pub pow-pos : (k : ℕ) → 0 < 2 ^ k
pow-pos k = one-le-pow k 2 (omega arith)

pub test_bit-zero : (i : ℕ) → test_bit 0 i ≡ false
test_bit-zero zero = refl
test_bit-zero (suc i) = test_bit-zero i

-- Cutting a number off at `k` bits clears the bits from `k` on.
pub test_bit-mod_pow : (a k i : ℕ) → test_bit (a % 2 ^ k) i ≡ (ltb i k && test_bit a i)
test_bit-mod_pow a zero i = ground (arith, test_bit-zero i)
test_bit-mod_pow a (suc k) zero =
    rw (pow-succ' 2 k) (ground (arith, even-mod a (2 ^ k) (pow-pos k)))
test_bit-mod_pow a (suc k) (suc i) =
    rw (pow-succ' 2 k, half-mod a (2 ^ k) (pow-pos k))
      (ground (arith, test_bit-mod_pow (a / 2) k i))

shift-half : (a k : ℕ) → a * 2 ^ suc k / 2 ≡ a * 2 ^ k
shift-half a k = rw (pow-succ' 2 k) (omega arith)

-- Shifting to the left moves every bit up by `k`.
pub test_bit-shift : (a k i : ℕ) → test_bit (a * 2 ^ k) i ≡ (leb k i && test_bit a (i - k))
test_bit-shift a zero i = rw (mul-one a, sub-zero i) (ground arith)
test_bit-shift a (suc k) zero = rw (pow-succ' 2 k) (ground arith)
test_bit-shift a (suc k) (suc i) =
    rw (shift-half a k, suc-sub-suc i k) (ground (arith, test_bit-shift a k i))

mask-half : (k : ℕ) → (2 ^ suc k - 1) / 2 ≡ 2 ^ k - 1
mask-half k = rw (pow-succ' 2 k) (omega arith)

test_bit-one : (i : ℕ) → test_bit 1 i ≡ (i == 0)
test_bit-one zero = refl
test_bit-one (suc i) = ground (arith, test_bit-zero i)

-- The one bit of a power of two.
pub test_bit-pow : (k i : ℕ) → test_bit (1 * 2 ^ k) i ≡ (k == i)
test_bit-pow k i = ground (arith, test_bit-shift 1 k i, test_bit-one (i - k))

-- A mask of `k` ones.
pub test_bit-low_mask : (k i : ℕ) → test_bit (2 ^ k - 1) i ≡ ltb i k
test_bit-low_mask zero i = ground (arith, test_bit-zero i)
test_bit-low_mask (suc k) zero = rw (pow-succ' 2 k) (ground (arith, pow-pos k))
test_bit-low_mask (suc k) (suc i) = rw (mask-half k) (ground (arith, test_bit-low_mask k i))

complement-half : (w a : ℕ) → a < 2 ^ suc w → (2 ^ suc w - 1 - a) / 2 ≡ 2 ^ w - 1 - a / 2
complement-half w a h = omega (arith, pow-succ' 2 w, h)

-- The complement in `w` bits.
pub test_bit-complement :
    (w a i : ℕ) → a < 2 ^ w → i < w → test_bit (2 ^ w - 1 - a) i ≡ not (test_bit a i)
test_bit-complement zero a i h g = absurd (omega arith)
test_bit-complement (suc w) a zero h g = ground (arith, pow-succ' 2 w)
test_bit-complement (suc w) a (suc i) h g =
    rw (complement-half w a h)
      (test_bit-complement w (a / 2) i (omega (arith, pow-succ' 2 w)) (omega arith))

-- Two numbers with the same bits are equal.
pub test_bit_ext_fuel :
    (n a b : ℕ) → a ≤ n → b ≤ n → ((i : ℕ) → test_bit a i ≡ test_bit b i) → a ≡ b
test_bit_ext_fuel zero a b p q h = omega arith
test_bit_ext_fuel (suc n) a b p q h =
    let half : a / 2 ≡ b / 2 =
      test_bit_ext_fuel n (a / 2) (b / 2) (omega arith) (omega arith) (λ i. h (suc i)) in
    ground (arith, h 0)

pub test_bit_ext : (a b : ℕ) → ((i : ℕ) → test_bit a i ≡ test_bit b i) → a ≡ b
test_bit_ext a b h = test_bit_ext_fuel (a + b) a b (omega arith) (omega arith) h

-- A number of at most `k` bits.
pub lt_pow-of_high_bits : (k a : ℕ) → ((i : ℕ) → k ≤ i → test_bit a i ≡ false) → a < 2 ^ k
lt_pow-of_high_bits k a h =
    let low : a % 2 ^ k ≡ a =
      test_bit_ext (a % 2 ^ k) a (λ i. ground (arith, test_bit-mod_pow a k i, h i)) in
    omega (arith, mod-lt a (pow-pos k), low)

pub high_bit_of_lt-pow : (k a i : ℕ) → a < 2 ^ k → k ≤ i → test_bit a i ≡ false
high_bit_of_lt-pow k a i h g =
    let low : a % 2 ^ k ≡ a = mod-eq_of_lt h in rw (← low) (ground (arith, test_bit-mod_pow a k i))

pub test_bit-two_pow : (k i : ℕ) → test_bit (2 ^ k) i ≡ (k == i)
test_bit-two_pow k i = let e : 1 * 2 ^ k ≡ 2 ^ k = omega arith in rw (← e) (test_bit-pow k i)

pub pow-lt : (k w : ℕ) → k < w → 2 ^ k < 2 ^ w
pow-lt k w h =
    omega (
      arith,
      pow-le-pow_right {n = 2} (omega arith) {i = suc k} {j = w} h,
      pow-succ' 2 k,
      pow-pos k,
    )

-- `(w & (1 << k)) != 0` reads bit `k`.
pub bit_and-pow_nonzero : (w k : ℕ) → not (bit_and w (1 * 2 ^ k) == 0) ≡ test_bit w k
bit_and-pow_nonzero w k = elim (Bool-cases (test_bit w k)) [
  | inl on ↦
      let there : test_bit (bit_and w (1 * 2 ^ k)) k ≡ true =
        ground (arith, test_bit-bit_and w (1 * 2 ^ k) k, test_bit-pow k k) in
      let ne : bit_and w (1 * 2 ^ k) ≢ 0 =
        λ e. let e' = rw e at there in ground (arith, test_bit-zero k) in
      rw on (ground arith)
  | inr off ↦
      let zero_bits : bit_and w (1 * 2 ^ k) ≡ 0 = test_bit_ext _ 0 (λ i.
        ground (arith, test_bit-bit_and w (1 * 2 ^ k) i, test_bit-pow k i, test_bit-zero i)) in
      rw (off, zero_bits)
]

half-div : (a k : ℕ) → a / 2 ^ suc k ≡ a / 2 / 2 ^ k
half-div a k = rw (pow-succ' 2 k) (sym (div-div-eq-div-mul a 2 (2 ^ k)))

-- Shifting to the right moves every bit down by `k`.
pub test_bit-shr : (a k i : ℕ) → test_bit (a / 2 ^ k) i ≡ test_bit a (i + k)
test_bit-shr a zero i = rw (div-one a, add-zero i) refl
test_bit-shr a (suc k) i = rw (half-div a k, add-suc i k) (test_bit-shr (a / 2) k i)

bit_or-zero : (a : ℕ) → bit_or a 0 ≡ a
bit_or-zero a =
    test_bit_ext (bit_or a 0) a (λ i. ground (arith, test_bit-bit_or a 0 i, test_bit-zero i))

shift-suc : (q k : ℕ) → q * 2 ^ suc k ≡ 2 * (q * 2 ^ k)
shift-suc q k = rw (pow-succ' 2 k) (omega arith)

-- Or-ing a number below `2 ^ k` into a shifted one adds it.
pub bit_or-shifted : (k q r : ℕ) → r < 2 ^ k → bit_or (q * 2 ^ k) r ≡ q * 2 ^ k + r
bit_or-shifted zero q r h = ground (arith, bit_or-zero (q * 1))
bit_or-shifted (suc k) q r h = ground (
  arith,
  bit_or_low (q * 2 ^ suc k) r,
  shift-suc q k,
  pow-succ' 2 k,
  shift-half q k,
  bit_or-shifted k q (r / 2) (omega (arith, pow-succ' 2 k)),
)
