-- ===== src/Pic/Masks.antt =====
-- The masks of the interrupt controllers once `pic_init` has moved their vectors to 32 to 47.
use waddle_os.Base.{
  ℕ, ◌-◌, ◌%◌, ◌^◌, ◌≤◌, ◌<◌, ◌≡◌, refl, not, ◌&&◌, ◌||◌, List, ◌∷◌, bit_and, bit_or, ltb, leb,
  ◌==◌, if◌then◌else◌, lt→ltb, le→leb, arith, ok,
}
use waddle_os.Base.Bits.{
  test_bit, test_bit-bit_and, test_bit-bit_or, test_bit-two_pow, test_bit-complement,
  test_bit-mod_pow, pow-lt,
}
use waddle_os.Machine.{Machine, Event, out, inp, wait}
use waddle_os.Pic.{
  init, in_range, line_of, set_mask, clear_mask, eoi, master_pic_data, slave_pic_data,
}

-- The offsets that `pic_init(0x20)` leaves.
pub record IsRemapped (s : Machine) : Type 0 where
  pub master : s.master_pic_offset ≡ 0x20
  pub slave : s.slave_pic_offset ≡ 0x28

-- The accesses of the initialization, the last one first, on top of those before: the start word at
-- both command ports, then at the data ports the vectors 32 and 40, the line 2 that joins the
-- controllers, the 8086 mode, and the masks of all lines.
abbrev pub initialised : List Event → List Event
initialised t =
    wait
    ∷ out 0xA1 0xFF
    ∷ wait
    ∷ out 0x21 0xFF
    ∷ wait
    ∷ out 0xA1 1
    ∷ wait
    ∷ out 0x21 1
    ∷ wait
    ∷ out 0xA1 2
    ∷ wait
    ∷ out 0x21 4
    ∷ wait
    ∷ out 0xA1 40
    ∷ wait
    ∷ out 0x21 32
    ∷ wait
    ∷ out 0xA0 0x11
    ∷ wait
    ∷ out 0x20 0x11
    ∷ t

-- `pic_init` at an offset of 0x20 remaps both controllers, and leaves every line masked.
pub init-IsRemapped :
    (s : Machine)
    → (s' : Machine) × (init 0x20 s ≡ ok (tt, s'))
      × IsRemapped s'
      × (s'.idt ≡ s.idt)
      × (s'.trace ≡ initialised s.trace)
      × (s'.device ≡ s.device)
      × (s'.i_active ≡ s.i_active)
unfolding init
init-IsRemapped s = (_, refl, record { master = refl; slave = refl }, refl, refl, refl, refl)

abbrev pub data_port : ℕ → ℕ
data_port vector = if ltb vector 40 then master_pic_data else slave_pic_data

line_of_lem :
    {s : Machine} (vector : ℕ)
    → IsRemapped s
    → 32 ≤ vector
    → vector < 48
    → line_of s vector ≡ (data_port vector, (vector - 32) % 8)
unfolding line_of
line_of_lem vector r low high = ground (arith, r.master)

in_range_lem :
    {s : Machine} (vector : ℕ) → IsRemapped s → in_range s vector ≡ (leb 32 vector && ltb vector 48)
in_range_lem vector r = rw (r.master, r.slave) refl

-- What `pic_clear_mask` and `pic_set_mask` leave: one read and one write of the mask register.
abbrev pub after_mask : Machine → ℕ → (ℕ → ℕ) → Machine
after_mask s port f =
    let mask = s.device s.trace port in
    record s { trace = wait ∷ out port (f mask) ∷ wait ∷ inp port mask ∷ s.trace }

abbrev cleared : ℕ → ℕ → ℕ
cleared vector mask = bit_and mask (2 ^ 32 - 1 - 2 ^ ((vector - 32) % 8)) % 2 ^ 8

abbrev raised : ℕ → ℕ → ℕ
raised vector mask = bit_or mask (2 ^ ((vector - 32) % 8)) % 2 ^ 8

test_bit-cleared :
    (vector mask i : ℕ)
    → i < 8
    → test_bit (cleared vector mask) i ≡ (test_bit mask i && not ((vector - 32) % 8 == i))
test_bit-cleared vector mask i h =
    let line = (vector - 32) % 8 in
    rw
      (
        test_bit-mod_pow (bit_and mask (2 ^ 32 - 1 - 2 ^ line)) 8 i,
        lt→ltb i 8 h,
        test_bit-bit_and mask (2 ^ 32 - 1 - 2 ^ line) i,
        test_bit-complement 32 (2 ^ line) i (pow-lt line 32 (omega arith)) (omega arith),
        test_bit-two_pow line i,
      )
      refl

test_bit-raised :
    (vector mask i : ℕ)
    → i < 8
    → test_bit (raised vector mask) i ≡ (test_bit mask i || ((vector - 32) % 8 == i))
test_bit-raised vector mask i h =
    let line = (vector - 32) % 8 in
    rw
      (
        test_bit-mod_pow (bit_or mask (2 ^ line)) 8 i,
        lt→ltb i 8 h,
        test_bit-bit_or mask (2 ^ line) i,
        test_bit-two_pow line i,
      )
      refl

module _ {s : Machine} (vector : ℕ) (r : IsRemapped s) (low : 32 ≤ vector)
    (high : vector < 48) where
  -- `pic_clear_mask` of a vector from 32 to 47, with the controllers remapped, reads the mask
  -- register of its controller once and writes it once, with the bit of the line cleared and the
  -- seven others as they were read.
  pub clear_mask-bits :
      (f : ℕ → ℕ) × (clear_mask vector s ≡ ok (tt, after_mask s (data_port vector) f))
      × ((mask i : ℕ)
          → i < 8
          → test_bit (f mask) i ≡ (test_bit mask i && not ((vector - 32) % 8 == i)))
  unfolding clear_mask
  clear_mask-bits = (
    cleared vector,
    rw
        (
          in_range_lem vector r,
          le→leb 32 vector low,
          lt→ltb vector 48 high,
          line_of_lem vector r low high,
          lt→ltb ((vector - 32) % 8) 8 (omega arith),
        )
        refl,
    test_bit-cleared vector,
  )

  -- `pic_set_mask` of a vector from 32 to 47, with the controllers remapped, reads the mask
  -- register of its controller once and writes it once, with the bit of the line set and the seven
  -- others as they were read.
  pub set_mask-bits :
      (f : ℕ → ℕ) × (set_mask vector s ≡ ok (tt, after_mask s (data_port vector) f))
      × ((mask i : ℕ) → i < 8 → test_bit (f mask) i ≡ (test_bit mask i || ((vector - 32) % 8 == i)))
  unfolding set_mask
  set_mask-bits = (
    raised vector,
    rw
        (
          in_range_lem vector r,
          le→leb 32 vector low,
          lt→ltb vector 48 high,
          line_of_lem vector r low high,
          lt→ltb ((vector - 32) % 8) 8 (omega arith),
        )
        refl,
    test_bit-raised vector,
  )

  -- `pic_eoi` acknowledges at the master, and before that at the slave for the vectors from 40 on.
  pub eoi-acknowledges :
      eoi vector s
      ≡ ok (
        tt,
        record s {
          trace = out 0x20 0x20 ∷ (if leb 40 vector then out 0xA0 0x20 ∷ s.trace else s.trace);
        },
      )
  unfolding eoi
  eoi-acknowledges = ground (arith, r.master, r.slave)
