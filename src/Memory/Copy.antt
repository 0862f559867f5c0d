-- ===== src/Memory/Copy.antt =====
-- `memmove`, `memcpy` and `memset`: which bytes they write, and where copying upwards goes wrong.
use native.Mathlib.Nat.{mod-eq_of_lt, mod-eq-sub-mod}
use native.Mathlib.Decide.{dec_lt}
use waddle_os.Base.{
  ℕ, zero, suc, ◌+◌, ◌-◌, ◌%◌, ◌≤◌, ◌<◌, ◌≡◌, refl, ◌⊎◌, inl, inr, false, ◌==◌, Bool-cases, arith,
}
use waddle_os.Memory.{Memory, write_byte, copy_loop, memmove, memcpy, fill_loop, memset}

-- `m'` holds at `to` the `n` bytes that `m` holds at `from`, and is `m` elsewhere.
pub record Copied (m m' : Memory) (to from n : ℕ) : Type 0 where
  pub inside : (i a s : ℕ) → i < n → a ≡ to + i → s ≡ from + i → m' a ≡ m s
  pub outside : (a : ℕ) → (a < to) ⊎ (to + n ≤ a) → m' a ≡ m a

copy_loop-Copied :
    (n to from : ℕ) (m : Memory)
    → (to < from) ⊎ (from + n ≤ to)
    → Copied m (copy_loop n to from m) to from n
unfolding copy_loop
copy_loop-Copied zero to from m h = record {
  inside = λ i a s p. absurd (omega arith);
  outside = λ a p. refl;
}
copy_loop-Copied (suc n) to from m h =
    let m₁ = write_byte m to (m from) in
    let rest : Copied m₁ (copy_loop n (to + 1) (from + 1) m₁) (to + 1) (from + 1) n =
      copy_loop-Copied n (to + 1) (from + 1) m₁ (ground arith) in
    record {
      inside = λ i a s p e e'. elim (dec_lt 0 i) [
        | yes later ↦ ground (arith, rest.inside (i - 1) a s)
        | no now ↦ ground (arith, rest.outside a)
      ];
      outside = λ a p. ground (arith, rest.outside a);
    }

-- `memmove` copies `n` bytes and changes no others if the target does not lie above the source, or
-- lies behind its end.
pub memmove-Copied :
    (to from n : ℕ) (m : Memory)
    → (to ≤ from) ⊎ (from + n ≤ to)
    → Copied m (memmove to from n m) to from n
unfolding memmove
memmove-Copied to from n m h = elim (Bool-cases (to == from)) [
  | inl same ↦ rw same (record {
    inside = λ i a s p e e'. let eq : a ≡ s = ground arith in rw eq refl;
    outside = λ a p. refl;
  })
  | inr apart ↦ rw apart (elim (Bool-cases (n == 0)) [
    | inl none_left ↦
        rw none_left
          (record { inside = λ i a s p e e'. absurd (ground arith); outside = λ a p. refl })
    | inr some_left ↦ rw some_left (copy_loop-Copied n to from m (ground arith))
  ])
]

pub memcpy-Copied :
    (to from n : ℕ) (m : Memory)
    → (to ≤ from) ⊎ (from + n ≤ to)
    → Copied m (memcpy to from n m) to from n
unfolding memcpy
memcpy-Copied to from n m h = memmove-Copied to from n m h

-- After an upward copy to a higher address each byte of the target equals its source byte as that
-- is afterwards.
copy_loop-repeats :
    (n to from : ℕ) (m : Memory)
    → from < to
    → ((i a s : ℕ)
        → i < n
        → a ≡ to + i
        → s ≡ from + i
        → copy_loop n to from m a ≡ copy_loop n to from m s)
      × ((a : ℕ) → (a < to) ⊎ (to + n ≤ a) → copy_loop n to from m a ≡ m a)
unfolding copy_loop
copy_loop-repeats zero to from m h = (λ i a s p. absurd (omega arith), λ a p. refl)
copy_loop-repeats (suc n) to from m h =
    let m₁ = write_byte m to (m from) in
    let (same, out) = copy_loop-repeats n (to + 1) (from + 1) m₁ (omega arith) in
    (
      λ i a s p e e'. elim (dec_lt 0 i) [
        | yes later ↦ same (i - 1) a s (omega arith) (omega arith) (omega arith)
        | no now ↦ ground (arith, out a, out s)
      ],
      λ a p. ground (arith, out a),
    )

copy_loop-periodic :
    (n to from : ℕ) (m : Memory)
    → from < to
    → (k i : ℕ) → i < k
    → i < n
    → copy_loop n to from m (to + i) ≡ m (from + i % (to - from))
copy_loop-periodic n to from m h zero i q p = absurd (omega arith)
copy_loop-periodic n to from m h (suc k) i q p =
    let (same, out) = copy_loop-repeats n to from m h in
    let step = same i (to + i) (from + i) p refl refl in
    elim (dec_lt i (to - from)) [
      | yes below ↦
          let small : i % (to - from) ≡ i = mod-eq_of_lt below in
          rw (small, step) (out (from + i) (inl (omega arith)))
      | no above ↦
          let back : i % (to - from) ≡ (i - (to - from)) % (to - from) =
            mod-eq-sub-mod (omega arith) in
          let at : from + i ≡ to + (i - (to - from)) = omega arith in
          rw (step, back, at)
            (copy_loop-periodic n to from m h k (i - (to - from)) (omega arith) (omega arith))
    ]

-- Where the target lies above the source and inside it, `memmove` repeats the first `to - from`
-- bytes all the way up instead of moving the block.
pub memmove_overlap :
    (to from n : ℕ) (m : Memory)
    → from < to
    → to < from + n
    → (i : ℕ) → i < n
    → memmove to from n m (to + i) ≡ m (from + i % (to - from))
unfolding memmove
memmove_overlap to from n m h g i p =
    let apart : (to == from) ≡ false = ground arith in
    let some_left : (n == 0) ≡ false = ground arith in
    rw (apart, some_left) (copy_loop-periodic n to from m h (suc i) i (omega arith) p)

fill_loop-filled :
    (n d x : ℕ) (m : Memory)
    → ((a : ℕ) → d ≤ a → a < d + n → fill_loop n d x m a ≡ x)
      × ((a : ℕ) → (a < d) ⊎ (d + n ≤ a) → fill_loop n d x m a ≡ m a)
unfolding fill_loop
fill_loop-filled zero d x m = (λ a p q. absurd (omega arith), λ a p. refl)
fill_loop-filled (suc n) d x m =
    let (in_, out) = fill_loop-filled n (d + 1) x (write_byte m d x) in
    (λ a p q. ground (arith, in_ a, out a), λ a p. ground (arith, out a))

-- `memset` writes the low byte of its value to each of the `n` bytes, and no other byte.
pub memset-filled :
    (d x n : ℕ) (m : Memory)
    → ((a : ℕ) → d ≤ a → a < d + n → memset d x n m a ≡ x % 256)
      × ((a : ℕ) → (a < d) ⊎ (d + n ≤ a) → memset d x n m a ≡ m a)
unfolding memset
memset-filled d x n m = fill_loop-filled n d (x % 256) m
