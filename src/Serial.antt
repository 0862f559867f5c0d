-- ===== src/Serial.antt =====
-- lib/serial.c: a serial port. A wait for the line status polls on fuel.
pub mod Polling
use waddle_os.Base.{ℕ, zero, suc, ◌+◌, ◌==◌, if◌then◌else◌, bit_and}
use waddle_os.Machine.{Cmd, pure, ◌>>=◌, ◌>>◌, spin_here, outb, inb}

abbrev pub com1 : ℕ
com1 = 0x3F8

abbrev pub com2 : ℕ
com2 = 0x2F8

-- `serial_init`
pub init : ℕ → Cmd ℕ
init port = do
  outb (port + 1) 0x00
  outb (port + 3) 0x80
  outb (port + 0) 0x03
  outb (port + 1) 0x00
  outb (port + 3) 0x03
  outb (port + 2) 0xC7
  outb (port + 4) 0x0B
  outb (port + 4) 0x1E
  outb (port + 0) 0xAE
  answer ← inb (port + 0)
  if answer == 0xAE then (do outb (port + 4) 0x0F; pure 0) else pure 1

-- `serial_recvd` and `serial_is_tx_empty`
pub recvd : ℕ → Cmd ℕ
recvd port = do status ← inb (port + 5); pure (bit_and status 1)

pub is_tx_empty : ℕ → Cmd ℕ
is_tx_empty port = do status ← inb (port + 5); pure (bit_and status 0x20)

-- Polling until a status is not 0.
pub poll : ℕ → Cmd ℕ → Cmd (Unit {0})
poll zero status = spin_here
poll (suc fuel) status = do bits ← status; if bits == 0 then poll fuel status else pure tt

-- `serial_read`
pub read : ℕ → ℕ → Cmd ℕ
read fuel port = do poll fuel (recvd port); inb port

-- `serial_write`, and the two that fix the port
unfoldable pub write : ℕ → ℕ → ℕ → Cmd (Unit {0})
write fuel port a = do poll fuel (is_tx_empty port); outb port a

unfoldable pub com1_putc : ℕ → ℕ → Cmd (Unit {0})
com1_putc fuel a = write fuel com1 a

pub com2_putc : ℕ → ℕ → Cmd (Unit {0})
com2_putc fuel a = write fuel com2 a
