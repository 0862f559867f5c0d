-- ===== src/Tests/Devices.antt =====
-- The interrupt controllers, gates and handlers at concrete inputs.
use waddle_os.Base.{
  ℕ, ◌+◌, ◌*◌, ◌/◌, ◌-◌, ◌%◌, ◌<◌, ◌≡◌, refl, false, not, ◌&&◌, ltb, ◌==◌, if◌then◌else◌, [], ◌∷◌,
  ok, arith, List,
}
use waddle_os.Base.Bits.{test_bit}
use waddle_os.Machine.{Machine, Event, out, lidt}
use waddle_os.Pic.{clear_mask}
use waddle_os.Pic.Masks.{IsRemapped, initialised, after_mask, data_port, clear_mask-bits}
use waddle_os.Idt.{descriptor}
use waddle_os.Log.Ready.{at_trace}
use waddle_os.Interrupts.{Frame, Run, init, register_handler, interrupt_handler}
use waddle_os.Interrupts.Dispatch.{acknowledged, register_handler-interrupt_handler}
use waddle_os.Interrupts.Gates.{init-gates}
use waddle_os.Pit
use waddle_os.Pit.{pit_initial_freq}
use waddle_os.Pit.Divisor.{programmed, init-divisor}
use waddle_os.Serial.{write}
use waddle_os.Serial.Polling.{polled, write-ready}

-- Every device answers 0xFF; the controllers are remapped.
abbrev quiet : Machine
quiet = record {
  trace = [];
  device = λ t p. 0xFF;
  master_pic_offset = 0x20;
  slave_pic_offset = 0x28;
  idt = λ v. descriptor 0 0;
  exc_handlers = λ v. 0;
  isr_handlers = λ v. 0;
  i_active = false;
}

quiet-IsRemapped : IsRemapped quiet
quiet-IsRemapped = record { master = refl; slave = refl }

clear_mask-bits_example :
    (f : ℕ → ℕ) × (clear_mask 43 quiet ≡ ok (tt, after_mask quiet (data_port 43) f))
    × ((mask i : ℕ) → i < 8 → test_bit (f mask) i ≡ (test_bit mask i && not ((43 - 32) % 8 == i)))
clear_mask-bits_example = clear_mask-bits 43 quiet-IsRemapped (omega arith) (omega arith)

-- A handler that does nothing, and a frame of zeroes.
abbrev no_op : Run
no_op h frame s = ok (tt, s)

abbrev frame : Frame
frame = record {
  r15 = 0;
  r14 = 0;
  r13 = 0;
  r12 = 0;
  r11 = 0;
  r10 = 0;
  r9 = 0;
  r8 = 0;
  rsi = 0;
  rdi = 0;
  rbp = 0;
  rdx = 0;
  rcx = 0;
  rbx = 0;
  rax = 0;
  error_code = 0;
  rip = 0;
  cs = 8;
  rflags = 0;
  rsp = 0;
  ss = 0;
}

register_handler-interrupt_handler_example :
    (s₁ : Machine) × (register_handler 32 0x1000 quiet ≡ ok (tt, s₁))
    × (accesses : List Event) × (s₂ : Machine) × (no_op 0x1000 frame (at_trace s₁ accesses)
        ≡ ok (tt, s₂))
    × (interrupt_handler 1 no_op frame 32 s₁ ≡ ok (tt, acknowledged 32 s₂))
register_handler-interrupt_handler_example =
    register_handler-interrupt_handler quiet quiet-IsRemapped 32 0x1000 (omega arith) (omega arith)
      (ground arith) 1 no_op frame (omega arith) (λ t. ground arith)
      (λ t r. (t, record { runs = refl; remapped = r }))

init-gates_example :
    (s' : Machine) × (init (λ v. v + 1) (λ v. v + 2) 0x5000 quiet ≡ ok (tt, s'))
    × IsRemapped s'
    × ((v : ℕ)
        → s'.idt v ≡ (
            if ltb v 32
            then descriptor (v + 1) 0x8F
            else if ltb v 48
            then descriptor (v + 2) 0x8E
            else descriptor 0 0))
    × (s'.trace ≡ lidt 4095 0x5000 ∷ initialised [])
init-gates_example = init-gates (λ v. v + 1) (λ v. v + 2) 0x5000 quiet

-- 1193180 / 100 is 11931, or 0x2E9B.
init-divisor_example :
    (t : Machine) × (low high : ℕ) × (Pit.init 0x1000 100 quiet ≡ ok (tt, programmed low high t))
    × (low < 256)
    × (high < 256)
    × (low + 256 * high ≡ pit_initial_freq / 100)
init-divisor_example =
    init-divisor quiet 0x1000 100 quiet-IsRemapped refl (ground arith) (omega arith)

write-ready_example :
    write 5 0x3F8 65 quiet
    ≡ ok (tt, record (polled 0x3F8 1 quiet) { trace = out 0x3F8 65 ∷ (polled 0x3F8 1 quiet).trace })
write-ready_example =
    write-ready 0 5 0x3F8 65 quiet (omega arith) (λ i p. absurd (omega arith)) (ground arith)
