-- ===== src/Loader/Rounds.antt =====
-- The request map of the boot loader has 32 bits, so its loop takes at most 32 rounds.
use mathlib.Core.Path.{subst}
use native.Mathlib.Nat.{pow-succ'}
use waddle_os.Base.{
  ℕ, zero, suc, ◌+◌, ◌*◌, ◌/◌, ◌%◌, ◌^◌, ◌<◌, ◌≡◌, refl, ltb, ◌==◌, bit_or, Outcome, ok, halt,
  fault, spin, ◌>>=◌, arith, Bool-cases, inl, inr,
}
use waddle_os.Base.Bits.{test_bit-bit_or, high_bit_of_lt-pow, lt_pow-of_high_bits, pow-lt}
use waddle_os.Base.Word.{u8}
use waddle_os.Memory.{Memory, read_field}
use waddle_os.Loader.{Firmware}
use waddle_os.Loader.Tags.{
  htag_type, request_bit, request_count, collect, tag_requests, next_htag, requested, return_info,
}

bit_or_lt : (a b : ℕ) → a < 2 ^ 32 → b < 2 ^ 32 → bit_or a b < 2 ^ 32
bit_or_lt a b h g = lt_pow-of_high_bits 32 (bit_or a b) (λ i above.
    ground (arith, test_bit-bit_or a b i, high_bit_of_lt-pow 32 a i h, high_bit_of_lt-pow 32 b i g))

collect_lt :
    (rounds : ℕ) (m : Memory) (tag i bmap : ℕ)
    → bmap < 2 ^ 32
    → collect rounds m tag i bmap < 2 ^ 32
unfolding collect
collect_lt zero m tag i bmap h = h
collect_lt (suc rounds) m tag i bmap h =
    collect_lt rounds m tag (i + 1) (bit_or bmap (request_bit m tag i)) (
      bit_or_lt bmap (request_bit m tag i) h
        (pow-lt (read_field 4 m (tag + 8 + 4 * i) % 32) 32 (omega arith)))

-- The bound holds of the result, if there is one.
abbrev Below : Outcome ℕ → Type 0
Below (ok bmap) = bmap < 2 ^ 32
Below halt = Unit {0}
Below fault = Unit {0}
Below spin = Unit {0}

tag_requests-Below : (m : Memory) (tag bmap : ℕ) → bmap < 2 ^ 32 → Below (tag_requests m tag bmap)
unfolding tag_requests
tag_requests-Below m tag bmap h = elim (Bool-cases (htag_type m tag == 1)) [
  | inl yes_ ↦ rw yes_ (elim (Bool-cases (ltb 255 (request_count m tag))) [
    | inl many ↦ rw many tt
    | inr few ↦ rw few (collect_lt (request_count m tag) m tag 0 bmap h)
  ])
  | inr no_ ↦ rw no_ h
]

>>=-Below :
    (o : Outcome ℕ) (f : ℕ → Outcome ℕ)
    → Below o
    → ((b : ℕ) → b < 2 ^ 32 → Below (f b))
    → Below (o >>= f)
>>=-Below (ok b) f h g = g b h
>>=-Below halt f h g = tt
>>=-Below fault f h g = tt
>>=-Below spin f h g = tt

requested-Below :
    (fuel : ℕ) (m : Memory) (tag bmap : ℕ) → bmap < 2 ^ 32 → Below (requested fuel m tag bmap)
unfolding requested
requested-Below zero m tag bmap h = tt
requested-Below (suc fuel) m tag bmap h = elim (Bool-cases (htag_type m tag == 0)) [
  | inl last ↦ rw last h
  | inr more ↦ rw more (
      >>=-Below (tag_requests m tag bmap) (requested fuel m (next_htag m tag))
        (tag_requests-Below m tag bmap h) (requested-Below fuel m (next_htag m tag)))
]

>>=-same :
    (o : Outcome Memory) (f g : Memory → Outcome Memory)
    → ((m : Memory) → f m ≡ g m)
    → (o >>= f) ≡ (o >>= g)
>>=-same (ok m) f g h = h m
>>=-same halt f g h = refl
>>=-same fault f g h = refl
>>=-same spin f g h = refl

return_info-done :
    (k fuel : ℕ) (fw : Firmware) (tag_type curr : ℕ) (m : Memory)
    → return_info k fuel fw 0 tag_type curr m ≡ ok m
unfolding return_info
return_info-done zero fuel fw tag_type curr m = refl
return_info-done (suc k) fuel fw tag_type curr m = refl

-- More rounds than the map has bits change nothing.
return_info-more :
    (r k fuel : ℕ) (fw : Firmware) (bmap tag_type curr : ℕ) (m : Memory)
    → bmap < 2 ^ r
    → return_info (r + k) fuel fw bmap tag_type curr m ≡ return_info r fuel fw bmap tag_type curr m
unfolding return_info
return_info-more zero k fuel fw bmap tag_type curr m h =
    let none : bmap ≡ 0 = omega arith in
    let rounds : 0 + k ≡ k = omega arith in
    rw (rounds, none) (return_info-done k fuel fw tag_type curr m)
return_info-more (suc r) k fuel fw bmap tag_type curr m h =
    let rounds : suc r + k ≡ suc (r + k) = omega arith in
    let half : bmap / 2 < 2 ^ r = omega (arith, pow-succ' 2 r) in
    rw rounds (elim (Bool-cases (bmap == 0)) [
      | inl none_left ↦ rw none_left refl
      | inr some_left ↦ rw some_left (
          >>=-same _ _ _
            (λ tagged. return_info-more r k fuel fw (bmap / 2) (u8 (tag_type + 1)) _ _ half))
    ])

-- The request map that the loop over the header's tags returns is below 2^32, and for such a map the
-- loop that writes the boot information is over after 32 rounds at most: with any number of further
-- rounds it does the same.
pub requested-return_info :
    (fuel : ℕ) (m : Memory) (tag bmap : ℕ)
    → requested fuel m tag 0 ≡ ok bmap
    → (bmap < 2 ^ 32)
      × ((k mmap_fuel : ℕ) (fw : Firmware) (tag_type curr : ℕ) (m' : Memory)
          → return_info (32 + k) mmap_fuel fw bmap tag_type curr m'
            ≡ return_info 32 mmap_fuel fw bmap tag_type curr m')
requested-return_info fuel m tag bmap e =
    let small : bmap < 2 ^ 32 = subst Below e (requested-Below fuel m tag 0 (omega arith)) in
    (
      small,
      λ k mmap_fuel fw tag_type curr m'.
          return_info-more 32 k mmap_fuel fw bmap tag_type curr m' small,
    )
