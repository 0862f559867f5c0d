-- ===== src/Interrupts/Dispatch.antt =====
-- From the registration of a handler to its interrupts.
use waddle_os.Base.{
  ℕ, ◌-◌, List, [], not, ◌==◌, Outcome, and_then, fault, spin, refl, ◌≤◌, ◌<◌, ◌≡◌, ◌≢◌, ◌∙◌, false,
  ◌∷◌, ◌%◌, ◌^◌, ltb, leb, if◌then◌else◌, lt→ltb, le→leb, not-ltb, ne→==, arith, ok, halt,
}
use waddle_os.Machine.{Machine, Cmd, Event, out, assert, ◌>>=◌, >>=-ok}
use waddle_os.Pic
use waddle_os.Pic.Masks.{IsRemapped, clear_mask-bits, eoi-acknowledges, after_mask, data_port}
use waddle_os.Printf.{int, format, convert, convert_int}
use waddle_os.Log.{log, trace}
use waddle_os.Log.Ready.{IsReady, at_trace, log-sent}
use waddle_os.Interrupts.{
  Frame, Run, log_level, irq_text, vector_text, error_text, register_handler, interrupt_handler,
  exception_handler, update,
}

-- A handler that comes back, and leaves the driver tables and the offsets of the controllers.
pub record Returns (run : Run) (handler : ℕ) (frame : Frame) (s s' : Machine) : Type 0 where
  pub runs : run handler frame s ≡ ok (tt, s')
  pub remapped : IsRemapped s'

-- The state after the acknowledgement of an interrupt.
abbrev pub acknowledged : ℕ → Machine → Machine
acknowledged irq s = record s {
  trace = out 0x20 0x20 ∷ (if leb 40 irq then out 0xA0 0x20 ∷ s.trace else s.trace);
}

-- The text of the log for an interrupt.
pub irq_bytes :
    (irq : ℕ) → (bytes : List ℕ) × (format false 0 irq_text (int (irq % 2 ^ 32) ∷ []) ≡ ok bytes)
unfolding format convert convert_int
irq_bytes irq = (_, refl)

pub interrupt_handler-runs :
    (fuel : ℕ) (run : Run) (frame : Frame) (s t s' : Machine) (irq handler : ℕ)
    → log fuel log_level trace irq_text (int (irq % 2 ^ 32) ∷ []) s ≡ ok (tt, t)
    → 32 ≤ irq
    → irq < 48
    → handler ≢ 0
    → t.isr_handlers (irq - 32) ≡ handler
    → Returns run handler frame t s'
    → interrupt_handler fuel run frame irq s ≡ ok (tt, acknowledged irq s')
unfolding interrupt_handler
interrupt_handler-runs fuel run frame s t s' irq handler logged low high real registered back =
    let byte : irq % 2 ^ 8 ≡ irq = omega arith in
    >>=-ok (log fuel log_level trace irq_text (int (irq % 2 ^ 32) ∷ [])) _ logged
    ∙ rw (le→leb 32 irq low, lt→ltb irq 48 high, registered, ne→== handler 0 real)
        (>>=-ok (run handler frame) (λ _. Pic.eoi (irq % 2 ^ 8)) back.runs
          ∙ rw byte (eoi-acknowledges irq back.remapped low high))

module _ (s : Machine) (r : IsRemapped s) (irq handler : ℕ) (low : 32 ≤ irq) (high : irq < 48)
    (real : handler ≢ 0) where
  -- The state behind the registration.
  abbrev pub stored : Machine
  stored = record s { isr_handlers = update s.isr_handlers (irq - 32) handler }

  pub register_handler-ok :
      (f : ℕ → ℕ) × (register_handler irq handler s ≡ ok (tt, after_mask stored (data_port irq) f))
  unfolding register_handler
  register_handler-ok =
      let (f, e, bits) =
        clear_mask-bits {s = stored} irq (record { master = r.master; slave = r.slave }) low high in
      (f, rw (not-ltb irq 32 low, lt→ltb irq 48 high) e)

  -- With the controllers remapped and a serial port that is always ready, a handler that is not
  -- NULL and is registered for a vector from 32 to 47 is called with the frame when that interrupt
  -- comes, and the interrupt is then acknowledged: at the slave controller for the vectors from 40
  -- on, and at the master. Between the registration and the call only accesses to ports are made.
  -- It holds for each handler that returns with the controllers' offsets in place.
  pub register_handler-interrupt_handler :
      (fuel : ℕ) (run : Run) (frame : Frame)
      → 0 < fuel
      → IsReady s
      → ((t : Machine) → IsRemapped t → (t' : Machine) × Returns run handler frame t t')
      → (s₁ : Machine) × (register_handler irq handler s ≡ ok (tt, s₁))
        × (accesses : List Event) × (s₂ : Machine) × (run handler frame (at_trace s₁ accesses)
            ≡ ok (tt, s₂))
        × (interrupt_handler fuel run frame irq s₁ ≡ ok (tt, acknowledged irq s₂))
  register_handler-interrupt_handler fuel run frame some_fuel ready returns =
      let (f, e) = register_handler-ok in
      let s₁ = after_mask stored (data_port irq) f in
      let (bytes, text) = irq_bytes irq in
      let (accesses, logged, _, _) =
        log-sent fuel some_fuel log_level trace irq_text (int (irq % 2 ^ 32) ∷ []) bytes s₁
          (omega arith) text ready in
      let (s₂, back) =
        returns (at_trace s₁ accesses) (record { master = r.master; slave = r.slave }) in
      (
        s₁,
        e,
        accesses,
        s₂,
        back.runs,
        interrupt_handler-runs fuel run frame s₁ (at_trace s₁ accesses) s₂ irq handler logged low
            high real (ground arith) back,
      )

-- A run whose continuation never ends normally does not either.
>>=-stuck :
    {A B : Type 0} (m : Cmd A) (f : A → Cmd B) (s s' : Machine) (b : B)
    → ((a : A) (t : Machine) → f a t ≢ ok (b, s'))
    → (m >>= f) s ≢ ok (b, s')
>>=-stuck m f s s' b stuck e = and_then-stuck (m s) e
  where
    and_then-stuck : (o : Outcome _) → and_then o f ≢ ok (b, s')
    and_then-stuck (ok (a, t)) e = stuck a t e
    and_then-stuck halt e = cc
    and_then-stuck fault e = cc
    and_then-stuck spin e = cc

-- `exception_handler` never returns to the code that raised the exception, whatever the handler
-- does.
pub exception_handler-never_returns :
    (fuel : ℕ) (run : Run) (frame : Frame) (vector : ℕ) (s s' : Machine)
    → exception_handler fuel run frame vector s ≢ ok (tt, s')
unfolding exception_handler
exception_handler-never_returns fuel run frame vector s s' =
    >>=-stuck (log fuel log_level trace vector_text (int (vector % 2 ^ 32) ∷ [])) _ s s' tt (λ _ t.
      >>=-stuck (log fuel log_level trace error_text (int (frame.error_code % 2 ^ 32) ∷ [])) _ t s'
        tt
        (λ _ u. >>=-stuck (assert (ltb vector 32)) _ u s' tt (λ _ v.
          >>=-stuck (assert (not (v.exc_handlers vector == 0))) _ v s' tt
            (λ _ w. >>=-stuck (run (v.exc_handlers vector) frame) _ w s' tt (λ _ x e. cc)))))
