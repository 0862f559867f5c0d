-- ===== src/Idt.antt =====
-- kernel/drivers/idt.c: the interrupt descriptor table.
use waddle_os.Base.{ℕ, ◌+◌, ◌-◌, ◌*◌, ◌%◌, ◌^◌, ◌<◌, ◌≡◌, ◌==◌, if◌then◌else◌, arith}
use waddle_os.Base.Word.{◌>>>◌}
use waddle_os.Machine.{IdtEntry, Cmd, modify, emit, lidt}

abbrev pub idt_max_descriptors : ℕ
idt_max_descriptors = 256

-- The descriptor that `idt_set_descriptor` stores.
unfoldable pub descriptor : ℕ → ℕ → IdtEntry
descriptor service_routine flags = record {
  isr_low = service_routine % 2 ^ 16;
  kernel_cs = 0x08;
  ist = 0;
  attributes = flags;
  isr_mid = (service_routine >>> 16) % 2 ^ 16;
  isr_high = (service_routine >>> 32) % 2 ^ 32;
  reserved = 0;
}

-- `idt_set_descriptor`
unfoldable pub set_descriptor : ℕ → ℕ → ℕ → Cmd (Unit {0})
set_descriptor vector service_routine flags =
    modify (λ s. record s {
      idt = λ v. if v == vector then descriptor service_routine flags else s.idt v;
    })

-- `idt_init`; an entry of the table has 16 bytes.
unfoldable pub init : ℕ → Cmd (Unit {0})
init base = emit (lidt (16 * idt_max_descriptors - 1) base)

-- The address at which the processor enters the handler of a gate.
abbrev pub target : IdtEntry → ℕ
target e = e.isr_low + 2 ^ 16 * e.isr_mid + 2 ^ 32 * e.isr_high

-- The three parts of a 64-bit handler address in its descriptor make up the address.
pub target-descriptor :
    (service_routine flags : ℕ)
    → service_routine < 2 ^ 64
    → target (descriptor service_routine flags) ≡ service_routine
unfolding descriptor
target-descriptor r flags h = omega arith
