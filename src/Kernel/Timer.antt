-- ===== src/Kernel/Timer.antt =====
-- The timer, from its set-up in `kernel_main` to its interrupts.
use waddle_os.Base.{
  ℕ, zero, suc, ◌%◌, ◌^◌, ◌≤◌, ◌<◌, ◌≡◌, refl, ◌≢◌, ◌∙◌, true, false, List, [], ◌∷◌, ◌++◌, arith,
  ok, sym, bit_and,
}
use mathlib.Core.Path.{subst}
use waddle_os.Machine.{Machine, Cmd, Event, out, pure, ◌>>◌, >>=-ok}
use waddle_os.Idt.{descriptor}
use waddle_os.Printf.{int, format}
use waddle_os.Log.{trace, none, log_level_color}
use waddle_os.Log.Ready.{IsReady, sent, acks, at_trace, log-sent}
use waddle_os.Pic.Masks.{IsRemapped}
use waddle_os.Interrupts
use waddle_os.Interrupts.{Frame, Run, log_level, irq_text, interrupt_handler, enable}
use waddle_os.Interrupts.Dispatch.{irq_bytes, interrupt_handler-runs, register_handler-ok}
use waddle_os.Interrupts.Gates.{init-Initialised}
use waddle_os.Pit
use waddle_os.Pit.{timer_interrupt, divisor}
use waddle_os.Pit.Divisor.{init-runs}

-- The calls of `kernel_main` that set up interrupts and the timer.
pub start_timer : (exc_stub isr_stub : ℕ → ℕ) → ℕ → ℕ → ℕ → Cmd (Unit {0})
start_timer exc_stub isr_stub base handler freq = do
  Interrupts.init exc_stub isr_stub base
  Pit.init handler freq
  Interrupts.enable

-- `k` interrupts of the timer, one after the other.
pub ticks : ℕ → ℕ → Run → Frame → Cmd (Unit {0})
ticks zero fuel run frame = pure tt
ticks (suc k) fuel run frame = do interrupt_handler fuel run frame 32; ticks k fuel run frame

-- From the accesses `t` to `u` by `k` timer interrupts, one after the other: each writes its line of
-- the log to the port, with no acknowledgement, then calls the handler, which makes the accesses
-- `work`, and then acknowledges the interrupt at the master controller.
pub data Handled (work : List Event) : ℕ → List Event → List Event → Type 0 where
  none_yet : {t : List Event} → Handled work 0 t t
  one_more :
      {k : ℕ} {t u : List Event} (v : List Event) (bytes : List ℕ)
      → format false 0 irq_text (int 32 ∷ []) ≡ ok bytes
      → sent v ≡ ((sent t ++ log_level_color trace) ++ bytes) ++ log_level_color none
      → acks v ≡ acks t
      → Handled work k (out 0x20 0x20 ∷ (work ++ v)) u
      → Handled work (suc k) t u

module _ (fuel : ℕ) (some_fuel : 0 < fuel) (run : Run) (frame : Frame) (handler : ℕ)
    (work : List Event) (real : handler ≢ 0)
    (called : (s : Machine) → run handler frame s ≡ ok (tt, at_trace s (work ++ s.trace))) where
  ticks-Handled :
      (k : ℕ) (s : Machine)
      → IsRemapped s
      → IsReady s
      → s.isr_handlers 0 ≡ handler
      → (u : List Event) × (ticks k fuel run frame s ≡ ok (tt, at_trace s u))
        × Handled work k s.trace u
  unfolding ticks
  ticks-Handled zero s r ready registered = (s.trace, refl, none_yet)
  ticks-Handled (suc k) s r ready registered =
      let (bytes, text) = irq_bytes 32 in
      let (v, logged, written, same) =
        log-sent fuel some_fuel log_level trace irq_text (int (32 % 2 ^ 32) ∷ []) bytes s
          (omega arith) text ready in
      let once =
        interrupt_handler-runs fuel run frame s (at_trace s v) (at_trace s (work ++ v)) 32 handler
          logged (omega arith) (omega arith) real registered
          (record {
            runs = called (at_trace s v);
            remapped = record { master = r.master; slave = r.slave };
          }) in
      let (u, e, rest) =
        ticks-Handled k (at_trace s (out 0x20 0x20 ∷ (work ++ v)))
          (record { master = r.master; slave = r.slave }) ready registered in
      (
        u,
        >>=-ok (interrupt_handler fuel run frame 32) _ once ∙ e,
        one_more v bytes text written same rest,
      )

-- With interrupts off, a serial port that is always ready, a frequency from 19 Hz on and a handler
-- that is not NULL, the calls of `kernel_main` that set up interrupts and the timer end normally,
-- with interrupts on and gate 32 at its stub. Let what is called at the handler's address return
-- after the accesses `work` to ports, whatever they are, none in the case of `timer_interrupt`. Then
-- any number of timer interrupts from there on, one after the other, ends normally; each is logged,
-- then runs the handler once, and then is acknowledged once at the master controller.
pub start_timer-ticks :
    (exc_stub isr_stub : ℕ → ℕ) (base handler freq : ℕ) (s : Machine)
    → s.i_active ≡ false
    → IsReady s
    → handler ≢ 0
    → 19 ≤ freq
    → (fuel : ℕ) (run : Run) (frame : Frame) (work : List Event) → 0 < fuel
    → ((t : Machine) → run handler frame t ≡ ok (tt, at_trace t (work ++ t.trace)))
    → (s₁ : Machine) × (start_timer exc_stub isr_stub base handler freq s ≡ ok (tt, s₁))
      × (s₁.i_active ≡ true)
      × (s₁.idt 32 ≡ descriptor (isr_stub 32) 0x8E)
      × ((k : ℕ)
          → (s₂ : Machine) × (ticks k fuel run frame s₁ ≡ ok (tt, s₂))
            × Handled work k s₁.trace s₂.trace)
unfolding start_timer enable
start_timer-ticks exc_stub isr_stub base handler freq s off ready real least fuel run frame work
      some_fuel called =
    let (a, i) = init-Initialised exc_stub isr_stub base s in
    let (f, e) = register_handler-ok a i.remapped 0x20 handler (omega arith) (omega arith) real in
    let ready' : IsReady a =
      λ t. subst (λ d. bit_and (d t 0x3FD) 0x20 ≢ 0) (sym i.device) (ready t) in
    let programs = init-runs a _ handler freq (i.i_active ∙ off) (omega arith) e in
    (
      _,
      >>=-ok (Interrupts.init exc_stub isr_stub base) _ i.runs
          ∙ >>=-ok (Pit.init handler freq) (λ _. Interrupts.enable) programs,
      refl,
      i.gates 32,
      λ k.
          let (t, runs, count) =
            ticks-Handled fuel some_fuel run frame handler work real called k _
              (record { master = i.remapped.master; slave = i.remapped.slave }) ready' refl in
          (_, runs, count),
    )
