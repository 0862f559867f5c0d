-- ===== src/Log/Ready.antt =====
-- Printing on a serial port whose transmitter is always ready.
use mathlib.Core.List.{append-nil, append_assoc}
use waddle_os.Base.{
  suc, ◌&&◌, length, ℕ, ◌≤◌, ◌<◌, ◌≡◌, refl, ◌≢◌, ◌∙◌, ap, sym, false, List, [], ◌∷◌, ◌++◌, bit_and,
  ◌==◌, if◌then◌else◌, arith, ok, le→leb,
}
use waddle_os.Machine.{Machine, Event, out, inp, wait, lidt, sti, cli, >>=-ok}
use waddle_os.Serial.{com1_putc}
use waddle_os.Serial.Polling.{write-ready}
use waddle_os.Printf.{Arg, format, max_printf_len}
use waddle_os.Printf.Pieces.{Piece, ArePieces, pattern, args, text, format-text}
use waddle_os.Log.{
  Level, level_code, none, fatal, error, warn, info, debug, trace, put_all, printf, log,
  log_level_color,
}

-- Whatever was done before, the line status of the first port says that its transmitter is empty.
abbrev pub IsReady : Machine → Type 0
IsReady s = (t : List Event) → bit_and (s.device t 0x3FD) 0x20 ≢ 0

-- The bytes that one access writes to the data register of the port.
abbrev data_of : Event → List ℕ
data_of (out port val) = if port == 0x3F8 then val ∷ [] else []
data_of (inp port val) = []
data_of wait = []
data_of (lidt limit base) = []
data_of sti = []
data_of cli = []

-- The bytes that the accesses of a trace have written to the port, in order.
abbrev pub sent : List Event → List ℕ
sent [] = []
sent (e ∷ t) = sent t ++ data_of e

-- How often the accesses acknowledge an interrupt at the master controller.
abbrev pub acks : List Event → ℕ
acks [] = 0
acks (out port val ∷ t) = if (port == 0x20) && (val == 0x20) then suc (acks t) else acks t
acks (inp port val ∷ t) = acks t
acks (wait ∷ t) = acks t
acks (lidt limit base ∷ t) = acks t
acks (sti ∷ t) = acks t
acks (cli ∷ t) = acks t

-- The state with other accesses behind it.
abbrev pub at_trace : Machine → List Event → Machine
at_trace s t = record s { trace = t }

-- A colour has no conversions.
format-log_level_color :
    (level : Level) → format false 0 (log_level_color level) [] ≡ ok (log_level_color level)
unfolding format
format-log_level_color none = refl
format-log_level_color fatal = refl
format-log_level_color error = refl
format-log_level_color warn = refl
format-log_level_color info = refl
format-log_level_color debug = refl
format-log_level_color trace = refl

module _ (fuel : ℕ) (some_fuel : 0 < fuel) where
  com1_putc-sent :
      (c : ℕ) (s : Machine)
      → IsReady s
      → (t : List Event) × (com1_putc fuel c s ≡ ok (tt, at_trace s t))
        × (sent t ≡ sent s.trace ++ (c ∷ []))
        × (acks t ≡ acks s.trace)
  unfolding com1_putc
  com1_putc-sent c s ready = (
    _,
    write-ready 0 fuel 0x3F8 c s some_fuel (λ i h. absurd (omega arith)) (ready s.trace),
    ap (λ l. l ++ (c ∷ [])) (append-nil (sent s.trace)),
    refl,
  )

  pub put_all-sent :
      (cs : List ℕ) (s : Machine)
      → IsReady s
      → (t : List Event) × (put_all fuel cs s ≡ ok (tt, at_trace s t))
        × (sent t ≡ sent s.trace ++ cs)
        × (acks t ≡ acks s.trace)
  unfolding put_all
  put_all-sent [] s ready = (s.trace, refl, sym (append-nil (sent s.trace)), refl)
  put_all-sent (c ∷ cs) s ready =
      let (t, e, first, a) = com1_putc-sent c s ready in
      let (t', e', rest, a') = put_all-sent cs (at_trace s t) ready in
      (
        t',
        >>=-ok (com1_putc fuel c) (λ _. put_all fuel cs) e ∙ e',
        rest ∙ ap (λ l. l ++ cs) first ∙ append_assoc (sent s.trace) (c ∷ []) cs,
        a' ∙ a,
      )

  -- `printf` of a string whose conversions have their arguments.
  pub printf-sent :
      (str : List ℕ) (args : List Arg) (bytes : List ℕ) (s : Machine)
      → format false 0 str args ≡ ok bytes
      → IsReady s
      → (t : List Event) × (printf fuel str args s ≡ ok (tt, at_trace s t))
        × (sent t ≡ sent s.trace ++ bytes)
        × (acks t ≡ acks s.trace)
  unfolding printf
  printf-sent str args bytes s e ready =
      let (t, e', same, a) = put_all-sent bytes s ready in (t, rw e e', same, a)

  -- On a port that is always ready, `printf` of a format string put together from bytes other than
  -- `%`, conversions with their arguments and unknown conversions ends normally, if the string has
  -- fewer than 2^32 bytes: the port gets exactly the bytes, the converted arguments, and an `X` for
  -- each unknown conversion, in order. Nothing but the accesses to ports has changed.
  pub printf-text :
      (ps : List Piece) (s : Machine)
      → ArePieces ps
      → length (pattern ps) ≤ max_printf_len
      → IsReady s
      → (t : List Event) × (printf fuel (pattern ps) (args ps) s ≡ ok (tt, at_trace s t))
        × (sent t ≡ sent s.trace ++ text ps)
  printf-text ps s good short ready =
      let (t, e, same, _) =
        printf-sent (pattern ps) (args ps) (text ps) s (format-text ps 0 good (omega arith))
          ready in
      (t, e, same)

  -- The text of a call of `log` that its level lets through, with its colour round it.
  pub log-sent :
      (log_level : ℕ) (level : Level) (str : List ℕ) (args : List Arg) (bytes : List ℕ)
      (s : Machine)
      → level_code level ≤ log_level
      → format false 0 str args ≡ ok bytes
      → IsReady s
      → (t : List Event) × (log fuel log_level level str args s ≡ ok (tt, at_trace s t))
        × (sent t ≡ ((sent s.trace ++ log_level_color level) ++ bytes) ++ log_level_color none)
        × (acks t ≡ acks s.trace)
  unfolding log
  log-sent log_level level str args bytes s through e ready =
      let (t₁, e₁, b₁, a₁) =
        printf-sent (log_level_color level) [] (log_level_color level) s
          (format-log_level_color level) ready in
      let (t₂, e₂, b₂, a₂) = printf-sent str args bytes (at_trace s t₁) e ready in
      let (t₃, e₃, b₃, a₃) =
        printf-sent (log_level_color none) [] (log_level_color none) (at_trace s t₂)
          (format-log_level_color none) ready in
      (
        t₃,
        rw (le→leb (level_code level) log_level through) (
            >>=-ok (printf fuel (log_level_color level) []) _ e₁
            ∙ (>>=-ok (printf fuel str args) _ e₂ ∙ e₃)),
        b₃ ∙ ap (λ l. l ++ log_level_color none) (b₂ ∙ ap (λ l. l ++ bytes) b₁),
        a₃ ∙ a₂ ∙ a₁,
      )
