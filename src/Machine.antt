-- ===== src/Machine.antt =====
-- The state that the drivers share, with the port accesses of lib/io.h. What a device answers to a
-- read is not the kernel's: it is a function of the accesses so far, part of the initial state.
use waddle_os.Base.{
  ℕ, ◌≡◌, refl, Bool, true, false, List, ◌∷◌, Outcome, and_then, ok, halt, fault, spin,
}

-- `out` and `inp` are `outb` and `inb`, with port and value; `wait` is `io_wait`, the last three are
-- the instructions `lidt` (limit and base), `sti` and `cli`.
pub data Event : Type 0 where
  out : ℕ → ℕ → Event
  inp : ℕ → ℕ → Event
  wait : Event
  lidt : ℕ → ℕ → Event
  sti cli : Event

-- `idt_entry_t`
pub record IdtEntry : Type 0 where
  pub isr_low : ℕ
  pub kernel_cs : ℕ
  pub ist : ℕ
  pub attributes : ℕ
  pub isr_mid : ℕ
  pub isr_high : ℕ
  pub reserved : ℕ

-- The accesses so far, the last one first, and the static variables of the drivers. A handler is
-- its address, and 0 is a null pointer.
pub record Machine : Type 0 where
  pub trace : List Event
  pub device : List Event → ℕ → ℕ
  pub master_pic_offset : ℕ
  pub slave_pic_offset : ℕ
  pub idt : ℕ → IdtEntry
  pub exc_handlers : ℕ → ℕ
  pub isr_handlers : ℕ → ℕ
  pub i_active : Bool

abbrev pub Cmd : Type 0 → Type 0
Cmd A = Machine → Outcome (A × Machine)

abbrev pub pure : {A : Type 0} → A → Cmd A
pure a s = ok (a, s)

infixl 5 ◌>>=◌ ◌>>◌
abbrev pub ◌>>=◌ : {A B : Type 0} → Cmd A → (A → Cmd B) → Cmd B
◌>>=◌ m f s = and_then (m s) f

abbrev pub ◌>>◌ : {B : Type 0} → Cmd (Unit {0}) → Cmd B → Cmd B
m >> k = m >>= λ _. k

abbrev pub get : Cmd Machine
get s = ok (s, s)

abbrev pub modify : (Machine → Machine) → Cmd (Unit {0})
modify f s = ok (tt, f s)

abbrev pub assert : Bool → Cmd (Unit {0})
assert true s = ok (tt, s)
assert false s = halt

abbrev pub when : Bool → Cmd (Unit {0}) → Cmd (Unit {0})
when true c = c
when false c = pure tt

abbrev pub spin_here : {A : Type 0} → Cmd A
spin_here s = spin

abbrev pub fault_here : {A : Type 0} → Cmd A
fault_here s = fault

abbrev pub emit : Event → Cmd (Unit {0})
emit e s = ok (tt, record s { trace = e ∷ s.trace })

-- `outb`
abbrev pub outb : ℕ → ℕ → Cmd (Unit {0})
outb port val = emit (out port val)

-- `inb`
abbrev pub inb : ℕ → Cmd ℕ
inb port s =
    let val = s.device s.trace port in ok (val, record s { trace = inp port val ∷ s.trace })

-- `io_wait`
abbrev pub io_wait : Cmd (Unit {0})
io_wait = emit wait

-- A step that ends normally hands its result and its state on.
pub >>=-ok :
    {A B : Type 0} (m : Cmd A) (f : A → Cmd B) {s s' : Machine} {a : A}
    → m s ≡ ok (a, s')
    → (m >>= f) s ≡ f a s'
>>=-ok m f e = rw e refl
