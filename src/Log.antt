-- ===== src/Log.antt =====
-- lib/log.h and the printing half of lib/printf.c: formatted text on the first serial port. The
-- bound on the polling of the port is `fuel`.
pub mod Ready
use waddle_os.Base.{
  ℕ, false, leb, if◌then◌else◌, List, [], ◌∷◌, Outcome, and_then, ok, halt, fault, spin,
}
use waddle_os.Machine.{Machine, Cmd, pure, ◌>>=◌, ◌>>◌}
use waddle_os.Serial.{com1_putc}
use waddle_os.Printf.{Arg, format}

-- `log_level_t`
pub data Level : Type 0 where
  none fatal error warn info debug trace : Level

abbrev pub level_code : Level → ℕ
level_code none = 0
level_code fatal = 1
level_code error = 2
level_code warn = 3
level_code info = 4
level_code debug = 5
level_code trace = 6

-- The escape sequences of `log_level_color`: `ESC [ <a> <b> ; <c> <d> m`, and the shorter one that
-- ends a colour.
abbrev escape : ℕ → ℕ → ℕ → ℕ → List ℕ
escape a b c d = 0x1B ∷ b'[' ∷ a ∷ b ∷ b';' ∷ c ∷ d ∷ b'm' ∷ []

abbrev pub log_level_color : Level → List ℕ
log_level_color trace = escape b'0' b'0' b'3' b'4'
log_level_color debug = escape b'0' b'0' b'3' b'5'
log_level_color info = escape b'0' b'0' b'3' b'6'
log_level_color warn = escape b'0' b'0' b'3' b'3'
log_level_color error = escape b'0' b'0' b'3' b'1'
log_level_color fatal = escape b'3' b'7' b'4' b'1'
log_level_color none = 0x1B ∷ b'[' ∷ b'0' ∷ b'm' ∷ []

-- The bytes that `vprintf_to_device` hands to `serial_com1_putc`.
pub put_all : ℕ → List ℕ → Cmd (Unit {0})
put_all fuel [] = pure tt
put_all fuel (c ∷ cs) = do com1_putc fuel c; put_all fuel cs

abbrev pub lift : {A : Type 0} → Outcome A → Cmd A
lift (ok a) s = ok (a, s)
lift halt s = halt
lift fault s = fault
lift spin s = spin

-- `printf`, whose default device is the first serial port.
pub printf : ℕ → List ℕ → List Arg → Cmd (Unit {0})
printf fuel str args = do out ← lift (format false 0 str args); put_all fuel out

-- `log` of a file with the level `log_level`.
pub log : ℕ → ℕ → Level → List ℕ → List Arg → Cmd (Unit {0})
log fuel log_level level str args =
    if leb (level_code level) log_level
    then (do
      printf fuel (log_level_color level) []
      printf fuel str args
      printf fuel (log_level_color none) [])
    else pure tt
