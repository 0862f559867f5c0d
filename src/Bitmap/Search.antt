-- ===== src/Bitmap/Search.antt =====
-- `bitmap_test`: the first run of `num_bits` equal bits, or none; and `bitmap_test_and_flip`.
use waddle_os.Base.{
  ℕ, zero, suc, ◌+◌, ◌-◌, ◌%◌, ◌^◌, ◌≤◌, ◌<◌, ◌≡◌, refl, ◌≢◌, ◌⊎◌, inl, inr, Bool, false, not, ◌&&◌,
  arith, ltb, leb, ◌==◌, xor, if◌then◌else◌, lt→ltb, le→leb, ok, Bool-cases,
}
use native.Mathlib.Decide.{dec_le}
use waddle_os.Bitmap.{
  Bitmap, get_bit, test_loop, check_range, test, test_and_flip, flip, uint64_max,
}
use waddle_os.Bitmap.View.{bit_at, Fits, IsValid, get_bit-bit_at}
use waddle_os.Bitmap.Flip.{flip-get_bit}

-- The `n` bits from `k` on all have the value `v`.
abbrev pub Run : Bitmap → Bool → ℕ → ℕ → Type 0
Run b v k n = (j : ℕ) → k ≤ j → j < k + n → get_bit b j ≡ ok v

module _ (b : Bitmap) (v : Bool) (start num : ℕ) where
  -- The state of the search at index `i`.
  record Scan (i iter candidate : ℕ) : Type 0 where
    short : iter ≤ num
    from_start : start + iter ≤ i
    run : (l : ℕ) → l + iter ≡ i → Run b v l iter
    start_of_run : 0 < iter → candidate + iter ≡ i
    broken : (l : ℕ) → suc l + iter ≡ i → start ≤ l → get_bit b l ≢ ok v
    none_before : (k : ℕ) → start ≤ k → k + num ≤ i → (k + num < i) ⊎ (iter < num) → ¬ Run b v k num

  Scan-start : 0 < num → (candidate : ℕ) → Scan start 0 candidate
  Scan-start pos candidate = record {
    short = omega arith;
    from_start = omega arith;
    run = λ l e j p q. absurd (omega arith);
    start_of_run = λ h. absurd (omega arith);
    broken = λ l e h. absurd (omega arith);
    none_before = λ k h p q. absurd (omega arith);
  }

  module _ {i iter candidate : ℕ} (scan : Scan i iter candidate) (more : iter < num) where
    Scan-hit :
        get_bit b i ≡ ok v
        → (candidate' : ℕ) → (0 < iter → candidate' ≡ candidate)
        → (iter ≡ 0 → candidate' ≡ i)
        → Scan (i + 1) (iter + 1) candidate'
    Scan-hit hit candidate' keep fresh = record {
      short = omega arith;
      from_start = omega (arith, scan.from_start);
      run = λ l e j p q. grind (arith, scan.run l);
      start_of_run = λ h. ground (arith, scan.start_of_run, keep, fresh);
      broken = λ l e h. scan.broken l (omega arith) h;
      none_before = λ k h p q r. elim (dec_le (k + num) i) [
        | yes old ↦ scan.none_before k h old (inr more) r
        | no new ↦
            let l = i - iter - 1 in
            scan.broken l (omega arith) (omega arith) (r l (omega arith) (omega arith))
      ];
    }

    Scan-miss : get_bit b i ≢ ok v → (candidate' : ℕ) → Scan (i + 1) 0 candidate'
    Scan-miss miss candidate' = record {
      short = omega arith;
      from_start = omega (arith, scan.from_start);
      run = λ l e j p q. absurd (omega arith);
      start_of_run = λ h. absurd (omega arith);
      broken = λ l e h. let same : l ≡ i = omega arith in rw same miss;
      none_before = λ k h p q r. elim (dec_le (k + num) i) [
        | yes old ↦ scan.none_before k h old (inr more) r
        | no new ↦ miss (r i (omega arith) (omega arith))
      ];
    }

  -- The loop from a state of the search stops at a full run or behind the last index.
  test_loop-Scan :
      (rounds i iter candidate : ℕ)
      → Fits b
      → i + rounds ≤ b.size
      → Scan i iter candidate
      → (i' iter' candidate' : ℕ) × (test_loop b v num rounds i iter candidate
          ≡ ok (iter', candidate'))
        × Scan i' iter' candidate'
        × (i' ≤ i + rounds)
        × ((iter' ≡ num) ⊎ (i' ≡ i + rounds))
  unfolding test_loop
  test_loop-Scan zero i iter candidate fits h scan =
      (i, iter, candidate, refl, scan, omega arith, inr (omega arith))
  test_loop-Scan (suc rounds) i iter candidate fits h scan = elim (Bool-cases (ltb iter num)) [
    | inr full ↦
        (i, iter, candidate, rw full refl, scan, omega arith, inl (ground (arith, scan.short)))
    | inl more ↦
        rw (more, get_bit-bit_at b i fits (omega arith))
          (elim (Bool-cases (xor (bit_at b.buf i) v)) [
            | inl miss ↦ rw miss (
                let next =
                  Scan-miss scan (ground arith)
                    (λ e. ground (arith, get_bit-bit_at b i fits (omega arith))) candidate in
                let (i', iter', c', e, s, p, q) =
                  test_loop-Scan rounds (i + 1) 0 candidate fits (omega arith) next in
                (i', iter', c', e, s, omega arith, ground arith))
            | inr hit ↦ rw hit (
                let c = if iter == 0 then i else candidate in
                let next =
                  Scan-hit scan (ground arith)
                    (ground (arith, get_bit-bit_at b i fits (omega arith))) c (λ h. ground arith)
                    (λ h. ground arith) in
                let (i', iter', c', e, s, p, q) =
                  test_loop-Scan rounds (i + 1) (iter + 1) c fits (omega arith) next in
                (i', iter', c', e, s, omega arith, ground arith))
          ])
  ]

-- What a search for `num` bits of value `v` between `s` and `e` may return: the bit pattern of -1
-- if there is no such run, else the start of the first one.
pub data Found (b : Bitmap) (v : Bool) (s e num w : ℕ) : Type 0 where
  nowhere :
      w ≡ uint64_max → ((k : ℕ) → s ≤ k → k + num ≤ e + 1 → ¬ Run b v k num) → Found b v s e num w
  first :
      s ≤ w
      → w + num ≤ e + 1
      → Run b v w num
      → ((k : ℕ) → s ≤ k → k < w → ¬ Run b v k num)
      → Found b v s e num w

module _ (b : Bitmap) (v : Bool) (s e num : ℕ) (valid : IsValid b) (pos : 0 < num)
    (room : s + num ≤ e + 1) (inside : e < b.size) where
  check_range-ok : check_range b s e num ≡ ok tt
  unfolding check_range
  check_range-ok =
      let last : (s + num + (2 ^ 64 - 1)) % 2 ^ 64 ≤ e = omega (arith, valid.small) in
      rw
        (
          lt→ltb s b.size (omega arith),
          lt→ltb e b.size inside,
          le→leb s e (omega arith),
          le→leb ((s + num + (2 ^ 64 - 1)) % 2 ^ 64) e last,
          lt→ltb 0 num pos,
        )
        refl

  Found-of_Scan :
      (i iter candidate : ℕ)
      → Scan b v s num i iter candidate
      → i ≤ e + 1
      → (iter ≡ num) ⊎ (i ≡ e + 1)
      → Found b v s e num (if iter == num then candidate else uint64_max)
  Found-of_Scan i iter candidate scan bound stop = elim (Bool-cases (iter == num)) [
    | inl full ↦
        let full' : iter ≡ num = ground arith in
        let at : candidate + num ≡ i = ground (arith, scan.start_of_run) in
        rw full (
          first (omega (arith, scan.from_start)) (omega arith)
            (λ j p q. scan.run candidate (omega arith) j p (omega arith))
            (λ k p q. scan.none_before k p (omega arith) (inl (omega arith))))
    | inr short ↦
        let less : iter < num = ground (arith, scan.short) in
        let ends : i ≡ e + 1 = ground arith in
        rw short (nowhere refl (λ k p q. scan.none_before k p (omega arith) (inr less)))
  ]

  -- On a range inside a valid bitmap with room for the run, `bitmap_test` ends normally with the
  -- start of the first run of `num` bits of value `v` between `s` and `e`, or with -1 if there is
  -- none.
  pub test-Found : (w : ℕ) × (test b v s e num ≡ ok w) × Found b v s e num w
  unfolding test
  test-Found =
      let (i, iter, c, eq, scan, bound, stop) =
        test_loop-Scan b v s num (e + 1 - s) s 0 s valid.fits (omega arith)
          (Scan-start b v s num pos s) in
      (
        (if iter == num then c else uint64_max),
        rw (check_range-ok, eq) refl,
        Found-of_Scan i iter c scan (omega arith) (ground arith),
      )

  -- What `bitmap_test_and_flip` leaves behind for the result `w`.
  pub data Claimed (w : ℕ) (b' : Bitmap) : Type 0 where
    unchanged : w ≡ uint64_max → b' ≡ b → Claimed w b'
    flipped :
        w < b.size
        → IsValid b'
        → b'.size ≡ b.size
        → ((j : ℕ)
            → j < b.size
            → get_bit b' j ≡ (if leb w j && ltb j (w + num) then ok (not v) else get_bit b j))
        → Claimed w b'

  test_and_flip-flip :
      (w last : ℕ) (b' : Bitmap)
      → test b v s e num ≡ ok w
      → (w == uint64_max) ≡ false
      → (w + num + (2 ^ 64 - 1)) % 2 ^ 64 ≡ last
      → flip b w last ≡ ok b'
      → test_and_flip b v s e num ≡ ok (b', w)
  unfolding test_and_flip
  test_and_flip-flip w last b' eq index wraps eq' = rw (check_range-ok, eq, index, wraps, eq') refl

  Claimed-of_Found :
      (w : ℕ)
      → test b v s e num ≡ ok w
      → Found b v s e num w
      → (b' : Bitmap) × (test_and_flip b v s e num ≡ ok (b', w)) × Claimed w b'
  unfolding test_and_flip
  Claimed-of_Found w eq (nowhere miss none) =
      (b, rw (check_range-ok, eq, miss) refl, unchanged miss refl)
  Claimed-of_Found w eq (first low high run least) =
      let last : (w + num + (2 ^ 64 - 1)) % 2 ^ 64 ≡ w + num - 1 = omega (arith, valid.small) in
      let some_index : (w == uint64_max) ≡ false = ground (arith, valid.small) in
      let (b', eq', valid', same, bits) =
        flip-get_bit b w (w + num - 1) valid (omega arith) (omega arith) in
      (
        b',
        test_and_flip-flip w (w + num - 1) b' eq some_index last eq',
        flipped (omega arith) valid' same (λ j h. ground (arith, bits j h, run j)),
      )

  -- On a range inside a valid bitmap with room for the run, `bitmap_test_and_flip` ends normally
  -- and returns what `bitmap_test` finds: the start of the first run of `num` bits of value `v`,
  -- or -1. If that is -1 the bitmap is unchanged, else exactly the bits of the run found are
  -- flipped.
  pub test_and_flip-Claimed :
      (w : ℕ) × (b' : Bitmap) × (test_and_flip b v s e num ≡ ok (b', w))
      × Found b v s e num w
      × Claimed w b'
  test_and_flip-Claimed =
      let (w, eq, found) = test-Found in
      let (b', eq', claimed) = Claimed-of_Found w eq found in (w, b', eq', found, claimed)
