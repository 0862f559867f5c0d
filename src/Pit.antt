-- ===== src/Pit.antt =====
-- kernel/drivers/pit.c: the interval timer.
pub mod Divisor
use waddle_os.Base.{ℕ, ◌/◌, ◌%◌, not, ◌==◌, if◌then◌else◌, bit_or, ok}
use waddle_os.Base.Word.{u16, ◌>>>◌}
use waddle_os.Machine.{Cmd, ◌>>=◌, ◌>>◌, assert, fault_here, outb}
use waddle_os.Interrupts

abbrev pub pit_initial_freq : ℕ
pit_initial_freq = 1193180

-- `PIT_CHAN_SEL_0 | PIT_ACCESSMODE_LOHIBYTE | PIT_OPERATING_MODE_3`
abbrev pub pit_mode : ℕ
pit_mode = bit_or (bit_or 0x00 0x30) 0x06

abbrev pub divisor : ℕ → ℕ
divisor timer_freq_hz = u16 (pit_initial_freq / timer_freq_hz)

-- The handler `timer_interrupt`, whose only statement is a `log`, which pit.c switches off.
unfoldable pub timer_interrupt : Cmd (Unit {0})
timer_interrupt s = ok (tt, s)

-- `pit_init`; `handler` is the address of the handler. A frequency of 0 divides by zero.
pub init : (handler : ℕ) → ℕ → Cmd (Unit {0})
init handler timer_freq_hz = do
  active ← Interrupts.active
  assert (not active)
  Interrupts.register_handler 0x20 handler
  if timer_freq_hz == 0 then fault_here else (do
    outb 0x43 pit_mode
    outb 0x40 (divisor timer_freq_hz % 256)
    outb 0x40 ((divisor timer_freq_hz >>> 8) % 256))
