-- ===== src/Interrupts/Gates.antt =====
-- The descriptor table behind `interrupts_init`.
use waddle_os.Base.{
  ℕ, zero, suc, ◌+◌, ◌≡◌, refl, ◌∙◌, ap, ◌&&◌, ◌∷◌, ltb, leb, ◌==◌, if◌then◌else◌, arith, ok,
}
use waddle_os.Machine.{Machine, IdtEntry, lidt, >>=-ok}
use waddle_os.Idt
use waddle_os.Idt.{descriptor}
use waddle_os.Pic
use waddle_os.Pic.Masks.{IsRemapped, initialised, init-IsRemapped}
use waddle_os.Interrupts.{set_gates, init, trap_flags, intr_flags}

-- The table with the gates of `rounds` vectors from `vector` on.
abbrev with_gates : (ℕ → ℕ) → ℕ → ℕ → ℕ → (ℕ → IdtEntry) → ℕ → IdtEntry
with_gates stub flags rounds vector idt v =
    if leb vector v && ltb v (vector + rounds) then descriptor (stub v) flags else idt v

set_gates_lem :
    (stub : ℕ → ℕ) (flags rounds vector : ℕ) (s : Machine)
    → (idt' : ℕ → IdtEntry) × (set_gates stub flags rounds vector s
        ≡ ok (tt, record s { idt = idt' }))
      × ((v : ℕ) → idt' v ≡ with_gates stub flags rounds vector s.idt v)
unfolding set_gates Idt.set_descriptor
set_gates_lem stub flags zero vector s = (s.idt, refl, λ v. ground arith)
set_gates_lem stub flags (suc rounds) vector s =
    let here = record s {
      idt = λ v. if v == vector then descriptor (stub vector) flags else s.idt v;
    } in
    let (idt', e, gates) = set_gates_lem stub flags rounds (vector + 1) here in
    (idt', e, λ v. ground (arith, gates v))

-- The state behind `interrupts_init`: what `init-gates` says of it, and what stays.
pub record Initialised (exc_stub isr_stub : ℕ → ℕ) (base : ℕ) (s s' : Machine) : Type 0 where
  pub runs : init exc_stub isr_stub base s ≡ ok (tt, s')
  pub remapped : IsRemapped s'
  pub gates :
      (v : ℕ)
      → s'.idt v ≡ (
          if ltb v 32
          then descriptor (exc_stub v) 0x8F
          else if ltb v 48
          then descriptor (isr_stub v) 0x8E
          else s.idt v)
  pub accesses : s'.trace ≡ lidt 4095 base ∷ initialised s.trace
  pub device : s'.device ≡ s.device
  pub i_active : s'.i_active ≡ s.i_active

pub init-Initialised :
    (exc_stub isr_stub : ℕ → ℕ) (base : ℕ) (s : Machine)
    → (s' : Machine) × Initialised exc_stub isr_stub base s s'
unfolding init Idt.init
init-Initialised exc_stub isr_stub base s =
    let (idt₁, e₁, g₁) = set_gates_lem exc_stub trap_flags 32 0 s in
    let (s₂, e₂, r, same, traced, dev, act) = init-IsRemapped (record s { idt = idt₁ }) in
    let (idt₃, e₃, g₃) = set_gates_lem isr_stub intr_flags 16 32 s₂ in
    (
      record s₂ { idt = idt₃; trace = lidt 4095 base ∷ s₂.trace },
      record {
        runs =
            >>=-ok (set_gates exc_stub trap_flags 32 0) _ e₁
            ∙ (>>=-ok (Pic.init 0x20) _ e₂ ∙ >>=-ok (set_gates isr_stub intr_flags 16 32) _ e₃);
        remapped = record { master = r.master; slave = r.slave };
        gates = λ v. rw (g₃ v, same, g₁ v) (ground arith);
        accesses = ap (λ t. lidt 4095 base ∷ t) traced;
        device = dev;
        i_active = act;
      },
    )

-- `interrupts_init` ends with the gates 0 to 31 as traps to the exception stubs, the gates 32 to
-- 47 as interrupts to the hardware stubs and the others as they were. Its accesses are, in order:
-- the initialization words of both controllers, which move their vectors to 32 and 40, the masks of
-- all lines, and last the load of the table's base with its limit of 4095; and the driver's offsets
-- are those of the controllers.
pub init-gates :
    (exc_stub isr_stub : ℕ → ℕ) (base : ℕ) (s : Machine)
    → (s' : Machine) × (init exc_stub isr_stub base s ≡ ok (tt, s'))
      × IsRemapped s'
      × ((v : ℕ)
          → s'.idt v ≡ (
              if ltb v 32
              then descriptor (exc_stub v) 0x8F
              else if ltb v 48
              then descriptor (isr_stub v) 0x8E
              else s.idt v))
      × (s'.trace ≡ lidt 4095 base ∷ initialised s.trace)
init-gates exc_stub isr_stub base s =
    let (s', i) = init-Initialised exc_stub isr_stub base s in
    (s', i.runs, i.remapped, i.gates, i.accesses)
