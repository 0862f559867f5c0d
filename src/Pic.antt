-- ===== src/Pic.antt =====
-- kernel/drivers/pic.c: the two interrupt controllers.
pub mod Masks
use waddle_os.Base.{
  ℕ, ◌+◌, ◌-◌, ◌%◌, ◌^◌, Bool, true, false, ◌&&◌, ltb, leb, ◌==◌, if◌then◌else◌, bit_and, bit_or,
}
use waddle_os.Base.Word.{u8}
use waddle_os.Machine.{
  Machine, Cmd, pure, ◌>>=◌, ◌>>◌, get, modify, assert, when, outb, inb, io_wait,
}

abbrev pub master_pic_cmd : ℕ
master_pic_cmd = 0x20

abbrev pub master_pic_data : ℕ
master_pic_data = 0x21

abbrev pub slave_pic_cmd : ℕ
slave_pic_cmd = 0xA0

abbrev pub slave_pic_data : ℕ
slave_pic_data = 0xA1

abbrev pub ocw2_eoi : ℕ
ocw2_eoi = 0x20

-- `ICW1_INIT | ICW1_IC4_PRESENT`, and the later initialization words.
abbrev pub icw1 : ℕ
icw1 = bit_or 0x10 0x01

abbrev pub icw4_8086 : ℕ
icw4_8086 = 0x01

abbrev pub slave_pic_cascade_irq : ℕ
slave_pic_cascade_irq = 2

-- `outb(port, value); io_wait();`
abbrev pub outb_wait : ℕ → ℕ → Cmd (Unit {0})
outb_wait port value = do outb port value; io_wait

pub disable : Cmd (Unit {0})
disable = do outb_wait master_pic_data 0xFF; outb_wait slave_pic_data 0xFF

pub enable : Cmd (Unit {0})
enable = do outb_wait master_pic_data 0x00; outb_wait slave_pic_data 0x00

-- `pic_init`
unfoldable pub init : ℕ → Cmd (Unit {0})
unfolding disable
init offset1 = do
  modify (λ s. record s { master_pic_offset = offset1; slave_pic_offset = u8 (offset1 + 8) })
  s ← get
  outb_wait master_pic_cmd icw1
  outb_wait slave_pic_cmd icw1
  outb_wait master_pic_data s.master_pic_offset
  outb_wait slave_pic_data s.slave_pic_offset
  outb_wait master_pic_data (2 ^ slave_pic_cascade_irq)
  outb_wait slave_pic_data slave_pic_cascade_irq
  outb_wait master_pic_data icw4_8086
  outb_wait slave_pic_data icw4_8086
  disable

-- The assertion of `pic_eoi`, `pic_set_mask` and `pic_clear_mask`.
abbrev pub in_range : Machine → ℕ → Bool
in_range s vector = leb s.master_pic_offset vector && ltb vector (s.slave_pic_offset + 8)

-- `pic_eoi`
unfoldable pub eoi : ℕ → Cmd (Unit {0})
eoi vector = do
  s ← get
  assert (in_range s vector)
  when (leb s.slave_pic_offset vector) (outb slave_pic_cmd ocw2_eoi)
  outb master_pic_cmd ocw2_eoi

-- The port and the line of a vector, as `pic_set_mask` and `pic_clear_mask` compute them.
pub line_of : Machine → ℕ → ℕ × ℕ
line_of s vector =
    let line = u8 (vector + 256 - s.master_pic_offset) in
    if leb 8 line then (slave_pic_data, u8 (line + 256 - 8)) else (master_pic_data, line)

-- `pic_set_mask`
pub set_mask : ℕ → Cmd (Unit {0})
unfolding line_of
set_mask vector = do
  s ← get
  assert (in_range s vector)
  let (port, line) = line_of s vector
  assert (ltb line 8)
  mask ← inb port
  io_wait
  outb_wait port (u8 (bit_or mask (2 ^ line)))

-- `pic_clear_mask`
unfoldable pub clear_mask : ℕ → Cmd (Unit {0})
unfolding line_of
clear_mask vector = do
  s ← get
  assert (in_range s vector)
  let (port, line) = line_of s vector
  assert (ltb line 8)
  mask ← inb port
  io_wait
  outb_wait port (u8 (bit_and mask (2 ^ 32 - 1 - 2 ^ line)))

-- `pic_get_mask`
pub get_mask : ℕ → Cmd ℕ
get_mask slave = do
  res ← inb (if slave == 0 then master_pic_data else slave_pic_data)
  io_wait
  pure res
