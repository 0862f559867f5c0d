-- ===== src/Memory/Fields.antt =====
-- Reading a field after writing one.
use waddle_os.Base.{
  ℕ, zero, suc, ◌+◌, ◌*◌, ◌/◌, ◌%◌, ◌^◌, ◌≤◌, ◌<◌, ◌≡◌, refl, sym, ◌∙◌, ◌⊎◌, inl, inr, arith,
}
use native.Mathlib.Nat.{pow-succ', one-le-pow}
use native.Mathlib.Decide.{dec_lt}
use waddle_os.Memory.{Memory, read_field, write_field, write_byte}

-- A write of `n` bytes at `p` leaves the bytes elsewhere.
pub write_field-outside :
    (n : ℕ) (m : Memory) (p v a : ℕ) → (a < p) ⊎ (p + n ≤ a) → write_field n m p v a ≡ m a
unfolding write_field
write_field-outside zero m p v a h = refl
write_field-outside (suc n) m p v a h =
    ground (arith, write_field-outside n (write_byte m p (v % 256)) (p + 1) (v / 256) a)

-- A field whose bytes are the same reads the same.
pub read_field-same :
    (n : ℕ) (m m' : Memory) (p : ℕ)
    → ((a : ℕ) → p ≤ a → a < p + n → m' a ≡ m a)
    → read_field n m' p ≡ read_field n m p
unfolding read_field
read_field-same zero m m' p h = refl
read_field-same (suc n) m m' p h =
    ground
      (arith, h p, read_field-same n m m' (p + 1) (λ a low high. h a (omega arith) (omega arith)))

pub read_field-disjoint :
    (n k : ℕ) (m : Memory) (p q v : ℕ)
    → (q + n ≤ p) ⊎ (p + k ≤ q)
    → read_field n (write_field k m p v) q ≡ read_field n m q
read_field-disjoint n k m p q v h = read_field-same n m (write_field k m p v) q (λ a low high.
    write_field-outside k m p v a
      (elim h [ inl before ↦ inl (omega arith) | inr behind ↦ inr (omega arith) ]))

mod-mul_256 : (v M : ℕ) → 0 < M → v % 256 + 256 * (v / 256 % M) ≡ v % (256 * M)
mod-mul_256 v M h = grind arith

-- A field that was just written reads as the value cut to its width.
pub read_field-write_field :
    (n : ℕ) (m : Memory) (p v : ℕ) → read_field n (write_field n m p v) p ≡ v % 256 ^ n
unfolding read_field write_field
read_field-write_field zero m p v = omega arith
read_field-write_field (suc n) m p v =
    rw
      (
        write_field-outside n (write_byte m p (v % 256)) (p + 1) (v / 256) p (inl (omega arith)),
        read_field-write_field n (write_byte m p (v % 256)) (p + 1) (v / 256),
        pow-succ' 256 n,
      )
      (ground (arith, mod-mul_256 v (256 ^ n) (one-le-pow n 256 (omega arith))))

-- The bytes that a write leaves in the field do not depend on the memory before it.
write_field-inside :
    (n : ℕ) (m m' : Memory) (p v a : ℕ)
    → p ≤ a
    → a < p + n
    → write_field n m p v a ≡ write_field n m' p v a
unfolding write_field
write_field-inside zero m m' p v a low high = absurd (omega arith)
write_field-inside (suc n) m m' p v a low high = elim (dec_lt p a) [
  | yes later ↦
      write_field-inside n (write_byte m p (v % 256)) (write_byte m' p (v % 256)) (p + 1) (v / 256)
        a (omega arith) (omega arith)
  | no first ↦
      write_field-outside n (write_byte m p (v % 256)) (p + 1) (v / 256) a (inl (omega arith))
      ∙ ground arith
      ∙ sym (
          write_field-outside n (write_byte m' p (v % 256)) (p + 1) (v / 256) a (inl (omega arith)))
]

-- Two writes to different bytes may change their order.
pub write_field-swap :
    (k n : ℕ) (m : Memory) (p q u v : ℕ)
    → (q + k ≤ p) ⊎ (p + n ≤ q)
    → write_field k (write_field n m p v) q u ≡ write_field n (write_field k m q u) p v
write_field-swap k n m p q u v h = λ i a. same a (place a p n) i
  where
    place : (a b l : ℕ) → ((b ≤ a) × (a < b + l)) ⊎ (a < b) ⊎ (b + l ≤ a)
    place a b l = omega arith

    same :
        (a : ℕ)
        → ((p ≤ a) × (a < p + n)) ⊎ (a < p) ⊎ (p + n ≤ a)
        → write_field k (write_field n m p v) q u a ≡ write_field n (write_field k m q u) p v a
    same a (inl (low, high)) =
        write_field-outside k (write_field n m p v) q u a (omega (arith, h))
        ∙ write_field-inside n m (write_field k m q u) p v a low high
    same a (inr out) =
        elim (place a q k) [
          | inl there ↦ write_field-inside k (write_field n m p v) m q u a there.0 there.1
          | inr apart ↦
              write_field-outside k (write_field n m p v) q u a apart
              ∙ write_field-outside n m p v a out
              ∙ sym (write_field-outside k m q u a apart)
        ]
        ∙ sym (write_field-outside n (write_field k m q u) p v a out)
