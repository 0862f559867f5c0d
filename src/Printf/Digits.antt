-- ===== src/Printf/Digits.antt =====
-- The digits that `printf` writes, read back as numbers.
use native.Mathlib.Nat.{
  pow-succ', mul-add, mul_comm, mul_assoc, one-le-pow, mul-le-mul_right, add-mul-mod_self_left,
  mod-eq_of_lt, mod-lt, div-add-mod,
}
use waddle_os.Base.{
  ℕ, zero, suc, ◌+◌, ◌-◌, ◌*◌, ◌/◌, ◌%◌, ◌^◌, ◌≤◌, ◌<◌, ◌≡◌, refl, ◌∙◌, sym, true, false, ltb, ◌==◌,
  if◌then◌else◌, List, [], ◌∷◌, length, ap, ◌≢◌, ◌⊎◌, arith, Bool-cases, inl, inr,
}
use waddle_os.Base.Word.{◌>>>◌}
use waddle_os.Printf.{digits, print_int, print_magnitude, negative, hex_digit, hex_loop, print_hex}

-- A number written in base `b`, after the number `v` before it.
abbrev pub digit_value : ℕ → ℕ
digit_value c = if ltb c 0x61 then c - 0x30 else c - 0x61 + 10

abbrev pub read_digits : ℕ → ℕ → List ℕ → ℕ
read_digits b v [] = v
read_digits b v (c ∷ cs) = read_digits b (v * b + digit_value c) cs

read_digits-digits :
    (n a : ℕ) (buf : List ℕ) → a < 10 ^ n → read_digits 10 0 (digits n a buf) ≡ read_digits 10 a buf
unfolding digits
read_digits-digits zero a buf h = let e : a ≡ 0 = omega arith in rw e refl
read_digits-digits (suc n) a buf h = elim (Bool-cases (a == 0)) [
  | inl none_left ↦ let e : a ≡ 0 = ground arith in rw e refl
  | inr some_left ↦
      let last : a / 10 * 10 + digit_value (0x30 + a % 10) ≡ a = ground arith in
      rw
        (
          some_left,
          read_digits-digits n (a / 10) ((0x30 + a % 10) ∷ buf) (omega (arith, pow-succ' 10 n)),
          last,
        )
        refl
]

read_digits-magnitude : (a : ℕ) → a < 2 ^ 31 → read_digits 10 0 (print_magnitude a) ≡ a
unfolding print_magnitude
read_digits-magnitude a h =
    let pos : negative a ≡ false = ground arith in rw pos (read_digits-digits 20 a [] (omega arith))

-- Every byte is a digit of base `b`: `0` to `9`, and from 10 on `a` and what follows it.
abbrev pub IsDigit : ℕ → ℕ → Type 0
IsDigit b c = ((0x30 ≤ c) × (c < 0x3A) × (c < 0x30 + b)) ⊎ ((0x61 ≤ c) × (c < 0x61 + (b - 10)))

abbrev pub AllDigits : ℕ → List ℕ → Type 0
AllDigits b [] = Unit {0}
AllDigits b (c ∷ cs) = IsDigit b c × AllDigits b cs

-- The decimal numeral of `a`: at least one digit, none but digits, no zero in front of another digit.
pub record IsNumeral (a : ℕ) (out : List ℕ) : Type 0 where
  pub all_digits : AllDigits 10 out
  pub value : read_digits 10 0 out ≡ a
  pub front : (c : ℕ) × (cs : List ℕ) × (out ≡ c ∷ cs) × (c ≡ 0x30 → cs ≡ [])

digits-AllDigits : (n a : ℕ) (buf : List ℕ) → AllDigits 10 buf → AllDigits 10 (digits n a buf)
unfolding digits
digits-AllDigits zero a buf all = all
digits-AllDigits (suc n) a buf all = elim (Bool-cases (a == 0)) [
  | inl none_left ↦ rw none_left all
  | inr some_left ↦ rw some_left (
      digits-AllDigits n (a / 10) ((0x30 + a % 10) ∷ buf)
        (inl (omega arith, omega arith, omega arith), all))
]

digits-zero : (k b : ℕ) (rest : List ℕ) → b ≡ 0 → digits k b rest ≡ rest
unfolding digits
digits-zero zero b rest e = refl
digits-zero (suc k) b rest e = rw e refl

-- The first digit of a number other than 0 is not `0`.
digits-front :
    (n a : ℕ) (buf : List ℕ)
    → 0 < a
    → a < 10 ^ n
    → (c : ℕ) × (cs : List ℕ) × (digits n a buf ≡ c ∷ cs) × (c ≢ 0x30)
unfolding digits
digits-front zero a buf pos h = absurd (omega arith)
digits-front (suc n) a buf pos h =
    let some_left : (a == 0) ≡ false = ground arith in
    elim (Bool-cases (a / 10 == 0)) [
      | inl leading ↦
          let small : a < 10 = ground arith in
          (
            0x30 + a % 10,
            buf,
            rw some_left (digits-zero n (a / 10) ((0x30 + a % 10) ∷ buf) (omega arith)),
            omega arith,
          )
      | inr more ↦
          let (c, cs, e, ne) =
            digits-front n (a / 10) ((0x30 + a % 10) ∷ buf) (ground arith)
              (omega (arith, pow-succ' 10 n)) in
          (c, cs, rw some_left e, ne)
    ]

magnitude-IsNumeral : (a : ℕ) → 0 < a → a < 2 ^ 31 → IsNumeral a (print_magnitude a)
unfolding print_magnitude
magnitude-IsNumeral a some_left h =
    let pos : negative a ≡ false = ground arith in
    let (c, cs, e, ne) = digits-front 20 a [] some_left (omega arith) in
    record {
      all_digits = rw pos (digits-AllDigits 20 a [] tt);
      value = read_digits-magnitude a h;
      front = (c, cs, rw pos e, λ here. absurd (ne here));
    }

-- What `%d` writes for an `int` that is not negative is its decimal numeral: one or more digits and
-- nothing else, without a leading zero, which read back as the number. For a negative one other than
-- the least it is a minus sign and the numeral of its magnitude.
pub print_int-read_digits :
    (a : ℕ)
    → (a < 2 ^ 31 → IsNumeral a (print_int a))
      × (2 ^ 31 < a
          → a < 2 ^ 32
          → (out : List ℕ) × (print_int a ≡ 0x2D ∷ out) × IsNumeral (2 ^ 32 - a) out)
unfolding print_int
print_int-read_digits a = (
  λ h. elim (Bool-cases (a == 0)) [
    | inl null ↦
        let e : a ≡ 0 = ground arith in
        rw e (record {
          all_digits = (inl (omega arith, omega arith, omega arith), tt);
          value = refl;
          front = (0x30, [], refl, λ here. refl);
        })
    | inr some_left ↦
        let pos : negative a ≡ false = ground arith in
        rw (some_left, pos) (magnitude-IsNumeral a (ground arith) h)
  ],
  λ low high.
      let ne : (a == 0) ≡ false = ground arith in
      let neg : negative a ≡ true = ground arith in
      let cut : (2 ^ 32 - a) % 2 ^ 32 ≡ 2 ^ 32 - a = omega arith in
      (
        print_magnitude (2 ^ 32 - a),
        rw (ne, neg, cut) refl,
        magnitude-IsNumeral (2 ^ 32 - a) (omega arith) (omega arith),
      ),
)

hex_digit-value : (d : ℕ) → d < 16 → digit_value (hex_digit d) ≡ d
hex_digit-value d h = ground arith

pow_sixteen : (n e : ℕ) → e ≡ n * 4 → 2 ^ e ≡ 16 ^ n
pow_sixteen zero e h = let h' : e ≡ 0 = omega arith in rw h' refl
pow_sixteen (suc n) e h =
    let h' : e ≡ suc (suc (suc (suc (n * 4)))) = omega arith in
    rw h' (omega (arith, pow-succ' 16 n, pow_sixteen n (n * 4) refl))

mod_split :
    (val M q d r : ℕ) → val ≡ (d * M + r) + 16 * M * q → d < 16 → r < M → val % (16 * M) ≡ d * M + r
mod_split val M q d r e small low =
    let bound : d * M ≤ 15 * M = mul-le-mul_right M (omega arith) in
    rw (e, add-mul-mod_self_left (d * M + r) (16 * M) q) (mod-eq_of_lt (omega arith))

rearrange : (M q a b r : ℕ) → q ≡ a + 16 * b → M * q + r ≡ a * M + r + 16 * M * b
rearrange M q a b r e =
    rw (e, mul-add M a (16 * b), mul_comm M a) (grind (arith, mul_assoc M 16 b, mul_comm M 16))

hex_split : (val M : ℕ) → 0 < M → val % (16 * M) ≡ val / M % 16 * M + val % M
hex_split val M h =
    let q = val / M in
    let whole : q ≡ q % 16 + 16 * (q / 16) = omega arith in
    mod_split val M (q / 16) (q % 16) (val % M)
      (sym (div-add-mod val M) ∙ rearrange M q (q % 16) (q / 16) (val % M) whole) (omega arith)
      (mod-lt val h)

hex_step :
    (v val M d : ℕ)
    → 0 < M
    → d ≡ val / M % 16
    → (v * 16 + digit_value (hex_digit d)) * M + val % M ≡ v * (16 * M) + val % (16 * M)
hex_step v val M d h e =
    let small : d < 16 = omega arith in
    rw (hex_digit-value d small, e, hex_split val M h) (grind arith)

-- The rounds from `k` on write the low digits.
read_digits-hex_loop :
    (n k v val : ℕ) → n + k ≡ 16 → read_digits 16 v (hex_loop n k val) ≡ v * 16 ^ n + val % 16 ^ n
unfolding hex_loop
read_digits-hex_loop zero k v val h = omega arith
read_digits-hex_loop (suc n) k v val h =
    let power : 2 ^ ((15 - k) * 4) ≡ 16 ^ n = pow_sixteen n ((15 - k) * 4) (omega arith) in
    let d = (val >>> ((15 - k) * 4)) % 16 in
    read_digits-hex_loop n (k + 1) (v * 16 + digit_value (hex_digit d)) val (omega arith)
    ∙ hex_step v val (16 ^ n) d (one-le-pow n 16 (omega arith)) (rw power refl)
    ∙ rw (pow-succ' 16 n) refl

hex_loop-length : (n k val : ℕ) → length (hex_loop n k val) ≡ n
unfolding hex_loop
hex_loop-length zero k val = refl
hex_loop-length (suc n) k val = ap suc (hex_loop-length n (k + 1) val)

hex_digit-IsDigit : (d : ℕ) → d < 16 → IsDigit 16 (hex_digit d)
hex_digit-IsDigit d h = ground arith

hex_loop-AllDigits : (n k val : ℕ) → AllDigits 16 (hex_loop n k val)
unfolding hex_loop
hex_loop-AllDigits zero k val = tt
hex_loop-AllDigits (suc n) k val =
    (hex_digit-IsDigit _ (omega arith), hex_loop-AllDigits n (k + 1) val)

-- What `%x` writes for a 64-bit number is `0x` and exactly 16 bytes, each a digit `0` to `9` or `a`
-- to `f`, which read back as the number.
pub print_hex-read_digits :
    (val : ℕ)
    → val < 2 ^ 64
    → (out : List ℕ) × (print_hex val ≡ 0x30 ∷ 0x78 ∷ out)
      × (length out ≡ 16)
      × AllDigits 16 out
      × (read_digits 16 0 out ≡ val)
unfolding print_hex
print_hex-read_digits val h = (
  hex_loop 16 0 val,
  refl,
  hex_loop-length 16 0 val,
  hex_loop-AllDigits 16 0 val,
  read_digits-hex_loop 16 0 0 val refl ∙ omega arith,
)
