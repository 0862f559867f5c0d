-- ===== src/Pit/Divisor.antt =====
-- The divisor that `pit_init` programs.
use native.Mathlib.Nat.{div-lt_iff_lt-mul}
use waddle_os.Base.{
  ℕ, ◌+◌, ◌*◌, ◌/◌, ◌%◌, ◌^◌, ◌≤◌, ◌<◌, ◌≡◌, refl, ◌≢◌, ◌∙◌, ap, false, ◌∷◌, not, arith, ok, ne→==,
}
use waddle_os.Base.Word.{◌>>>◌}
use waddle_os.Machine.{Machine, out, assert, >>=-ok}
use waddle_os.Pic.Masks.{IsRemapped}
use waddle_os.Interrupts
use waddle_os.Interrupts.Dispatch.{register_handler-ok}
use waddle_os.Pit.{init, divisor, pit_initial_freq}

-- The accesses of `pit_init` behind the registration of its handler.
abbrev pub programmed : ℕ → ℕ → Machine → Machine
programmed low high s = record s { trace = out 0x40 high ∷ out 0x40 low ∷ out 0x43 0x36 ∷ s.trace }

pub init-runs :
    (s t : Machine) (handler freq : ℕ)
    → s.i_active ≡ false
    → 0 < freq
    → Interrupts.register_handler 0x20 handler s ≡ ok (tt, t)
    → init handler freq s ≡ ok (tt, programmed (divisor freq % 256) ((divisor freq >>> 8) % 256) t)
unfolding init Interrupts.active
init-runs s t handler freq off pos e =
    >>=-ok (assert (not s.i_active)) _ allowed
    ∙ (>>=-ok (Interrupts.register_handler 0x20 handler) _ e ∙ rw (ne→== freq 0 (omega arith)) refl)
  where
    allowed : assert (not s.i_active) s ≡ ok (tt, s)
    allowed = ap (λ b. assert (not b) s) off

-- With interrupts off, the controllers remapped and a handler that is not NULL, `pit_init` of a
-- frequency from 19 Hz on ends with the mode byte 0x36 at port 0x43, and then the low and the high
-- byte of 1193180 / frequency at port 0x40, which make up the whole quotient.
pub init-divisor :
    (s : Machine) (handler freq : ℕ)
    → IsRemapped s
    → s.i_active ≡ false
    → handler ≢ 0
    → 19 ≤ freq
    → (t : Machine) × (low high : ℕ) × (init handler freq s ≡ ok (tt, programmed low high t))
      × (low < 256)
      × (high < 256)
      × (low + 256 * high ≡ pit_initial_freq / freq)
init-divisor s handler freq r off real least =
    let (f, e) = register_handler-ok s r 0x20 handler (omega arith) (omega arith) real in
    (
      _,
      divisor freq % 256,
      (divisor freq >>> 8) % 256,
      init-runs s _ handler freq off (omega arith) e,
      omega arith,
      omega arith,
      omega (arith, small),
    )
  where
    small : 1193180 / freq < 2 ^ 16
    small = (div-lt_iff_lt-mul (omega arith)).1 (omega arith)
