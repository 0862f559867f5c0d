-- ===== src/Interrupts.antt =====
-- kernel/drivers/interrupts.c: the handler tables and the dispatch of exceptions and interrupts.
-- The stubs are assembly; their addresses are parameters, and so is what a handler does.
pub mod Dispatch
pub mod Gates
pub mod Vectors
use waddle_os.Base.{
  ℕ, zero, suc, ◌+◌, ◌-◌, Bool, true, false, not, ◌&&◌, ltb, leb, ◌==◌, if◌then◌else◌, bit_or, List,
  [], ◌∷◌,
}
use waddle_os.Base.Word.{u8, u32}
use waddle_os.Machine.{
  Machine, Cmd, pure, ◌>>=◌, ◌>>◌, get, modify, assert, spin_here, fault_here, emit, sti, cli,
}
use waddle_os.Printf.{int}
use waddle_os.Log.{log, trace}
use waddle_os.Idt
use waddle_os.Pic

-- `INT_FLAGS_PRESENT | INT_FLAGS_DPL_KERNEL | INT_FLAGS_GATE_TRAP`, and for an interrupt gate.
abbrev pub trap_flags : ℕ
trap_flags = bit_or (bit_or 0x80 0x00) 0xF

abbrev pub intr_flags : ℕ
intr_flags = bit_or (bit_or 0x80 0x00) 0xE

-- The loops of `interrupts_init`, with the rounds left: `stub` gives the address for a vector.
pub set_gates : (ℕ → ℕ) → ℕ → ℕ → ℕ → Cmd (Unit {0})
set_gates stub flags zero vector = pure tt
set_gates stub flags (suc rounds) vector = do
  Idt.set_descriptor vector (stub vector) flags
  set_gates stub flags rounds (vector + 1)

-- `interrupts_init`; `exc_stub` and `isr_stub` are the addresses of the assembly stubs by vector.
pub init : (exc_stub isr_stub : ℕ → ℕ) → ℕ → Cmd (Unit {0})
init exc_stub isr_stub idt_base = do
  set_gates exc_stub trap_flags 32 0
  Pic.init 0x20
  set_gates isr_stub intr_flags 16 32
  Idt.init idt_base

abbrev pub update : (ℕ → ℕ) → ℕ → ℕ → ℕ → ℕ
update f k v j = if j == k then v else f j

-- `interrupts_register_handler`
unfoldable pub register_handler : ℕ → ℕ → Cmd (Unit {0})
register_handler vector handler =
    if ltb vector 32
    then modify (λ s. record s { exc_handlers = update s.exc_handlers vector handler })
    else if ltb vector 48
    then (do
      modify (λ s. record s { isr_handlers = update s.isr_handlers (vector - 32) handler })
      Pic.clear_mask vector)
    else pure tt

-- `interrupts_enable`, `interrupts_disable` and `interrupts_active`
unfoldable pub enable : Cmd (Unit {0})
enable = do emit sti; modify (λ s. record s { i_active = true })

unfoldable pub disable : Cmd (Unit {0})
disable = do emit cli; modify (λ s. record s { i_active = false })

unfoldable pub active : Cmd Bool
active = do s ← get; pure s.i_active

-- `interrupt_frame_t`, as the stubs push it.
pub record Frame : Type 0 where
  pub r15 : ℕ
  pub r14 : ℕ
  pub r13 : ℕ
  pub r12 : ℕ
  pub r11 : ℕ
  pub r10 : ℕ
  pub r9 : ℕ
  pub r8 : ℕ
  pub rsi : ℕ
  pub rdi : ℕ
  pub rbp : ℕ
  pub rdx : ℕ
  pub rcx : ℕ
  pub rbx : ℕ
  pub rax : ℕ
  pub error_code : ℕ
  pub rip : ℕ
  pub cs : ℕ
  pub rflags : ℕ
  pub rsp : ℕ
  pub ss : ℕ

-- The call of a handler, which gets the frame.
abbrev pub Run : Type 0
Run = ℕ → Frame → Cmd (Unit {0})

abbrev pub log_level : ℕ
log_level = 6

-- `Vector Number %d`, `Error code: %d` and `IRQ %d`, each with its line end.
abbrev pub vector_text : List ℕ
vector_text =
    b'V' ∷ b'e' ∷ b'c' ∷ b't' ∷ b'o' ∷ b'r' ∷ 0x20 ∷ b'N' ∷ b'u' ∷ b'm' ∷ b'b' ∷ b'e' ∷ b'r' ∷ 0x20
    ∷ b'%' ∷ b'd' ∷ 0x0A ∷ 0x0D ∷ []

abbrev pub error_text : List ℕ
error_text =
    b'E' ∷ b'r' ∷ b'r' ∷ b'o' ∷ b'r' ∷ 0x20 ∷ b'c' ∷ b'o' ∷ b'd' ∷ b'e' ∷ b':' ∷ 0x20 ∷ b'%' ∷ b'd'
    ∷ 0x0A ∷ 0x0D ∷ []

abbrev pub irq_text : List ℕ
irq_text = b'I' ∷ b'R' ∷ b'Q' ∷ 0x20 ∷ b'%' ∷ b'd' ∷ 0x0A ∷ 0x0D ∷ []

-- `exception_handler`: after its handler it loops for ever. `run` is the call of a handler, and
-- `fuel` bounds the polling of the port that the log goes to.
pub exception_handler : ℕ → Run → Frame → ℕ → Cmd (Unit {0})
exception_handler fuel run frame vector_number = do
  log fuel log_level trace vector_text (int (u32 vector_number) ∷ [])
  log fuel log_level trace error_text (int (u32 frame.error_code) ∷ [])
  assert (ltb vector_number 32)
  s ← get
  assert (not (s.exc_handlers vector_number == 0))
  run (s.exc_handlers vector_number) frame
  spin_here

-- `interrupt_handler`
pub interrupt_handler : ℕ → Run → Frame → ℕ → Cmd (Unit {0})
interrupt_handler fuel run frame irq_number = do
  log fuel log_level trace irq_text (int (u32 irq_number) ∷ [])
  assert (leb 32 irq_number && ltb irq_number 48)
  s ← get
  assert (not (s.isr_handlers (irq_number - 32) == 0))
  run (s.isr_handlers (irq_number - 32)) frame
  Pic.eoi (u8 irq_number)
