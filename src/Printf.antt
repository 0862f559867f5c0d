-- ===== src/Printf.antt =====
-- lib/printf.c: formatted output. A string is its bytes up to the NUL, and the output is the bytes
-- that the device's `putc` gets, in order.
pub mod Digits
pub mod Pieces
use waddle_os.Base.{
  ℕ, zero, suc, ◌+◌, ◌-◌, ◌*◌, ◌/◌, ◌%◌, ◌^◌, Bool, true, false, ◌&&◌, ltb, leb, ◌==◌,
  if◌then◌else◌, List, [], ◌∷◌, ◌++◌, Option, none, some, Outcome, ok, fault, ◌>>=◌,
}
use waddle_os.Base.Word.{◌>>>◌}

-- `printf_device_t`, and the function that `get_device_putc` returns for a device.
pub data Device : Type 0 where
  dev_term dev_serial_com1 : Device

pub data Putc : Type 0 where
  term_putc serial_com1_putc : Putc

pub get_device_putc : Device → Putc
get_device_putc dev_term = term_putc
get_device_putc dev_serial_com1 = serial_com1_putc

abbrev pub max_printf_len : ℕ
max_printf_len = 0xFFFFFFFF

-- An argument that `va_arg` takes: a string, an `int` as its 32 bits, or a `uint64_t`.
pub data Arg : Type 0 where
  str : List ℕ → Arg
  int : ℕ → Arg
  uint64 : ℕ → Arg

-- The two loops of `%d` over a buffer with room for `n` more digits: they are written last to first.
pub digits : ℕ → ℕ → List ℕ → List ℕ
digits zero a buf = buf
digits (suc n) a buf = if a == 0 then buf else digits n (a / 10) ((0x30 + a % 10) ∷ buf)

abbrev pub negative : ℕ → Bool
negative a = leb (2 ^ 31) a

-- `a > 0` on an `int`: the loop does not run for a value that is negative after `a = -a`.
pub print_magnitude : ℕ → List ℕ
unfolding digits
print_magnitude a = if negative a then [] else digits 20 a []

-- The case `%d`
pub print_int : ℕ → List ℕ
print_int a =
    if a == 0
    then 0x30 ∷ []
    else if negative a
    then 0x2D ∷ print_magnitude ((2 ^ 32 - a) % 2 ^ 32)
    else print_magnitude a

abbrev pub hex_digit : ℕ → ℕ
hex_digit nibble = if ltb nibble 10 then 0x30 + nibble else 0x61 + (nibble - 10)

-- The loop of `%x`, with the rounds left.
pub hex_loop : ℕ → ℕ → ℕ → List ℕ
hex_loop zero k val = []
hex_loop (suc n) k val = hex_digit ((val >>> ((15 - k) * 4)) % 16) ∷ hex_loop n (k + 1) val

-- The case `%x`
pub print_hex : ℕ → List ℕ
unfolding hex_loop
print_hex val = 0x30 ∷ 0x78 ∷ hex_loop 16 0 val

-- One conversion: the output and the arguments left. A `va_arg` without an argument of its type has
-- no defined result.
pub convert_string : List Arg → Outcome (List ℕ × List Arg)
convert_string (str s ∷ args) = ok (s, args)
convert_string args = fault

unfoldable pub convert_int : List Arg → Outcome (List ℕ × List Arg)
convert_int (int a ∷ args) = ok (print_int a, args)
convert_int args = fault

pub convert_hex : List Arg → Outcome (List ℕ × List Arg)
convert_hex (uint64 v ∷ args) = ok (print_hex v, args)
convert_hex args = fault

-- The switch on the byte behind a `%`
unfoldable pub convert : ℕ → List Arg → Outcome (List ℕ × List Arg)
convert c args =
    if c == 0x73
    then convert_string args
    else if c == 0x64
    then convert_int args
    else if c == 0x78
    then convert_hex args
    else ok (0x58 ∷ [], args)

-- The loop of `vprintf_to_device` from index `i` on; `conversion` if the byte before was a `%`.
-- After a `%` at the very end of the string the loop goes on behind the NUL, outside the string.
unfoldable pub format : (conversion : Bool) → ℕ → List ℕ → List Arg → Outcome (List ℕ)
format false i [] args = ok []
format true i [] args = fault
format true i (d ∷ cs) args = do
  (out, args') ← convert d args
  tail ← format false (i + 1) cs args'
  ok (out ++ tail)
format false i (c ∷ cs) args =
    let rest = format (c == 0x25) (i + 1) cs args in
    if ltb i max_printf_len
    then (if c == 0x25 then rest else (do tail ← rest; ok (c ∷ tail)))
    else ok []

-- `vprintf_to_device`, whose `i` starts at 0, and the entry points, which fix the device.
abbrev pub default_device : Device
default_device = dev_serial_com1

pub vprintf_to_device : Device → List ℕ → List Arg → Outcome (Putc × List ℕ)
vprintf_to_device device s args = do out ← format false 0 s args; ok (get_device_putc device, out)

pub vprintf : List ℕ → List Arg → Outcome (Putc × List ℕ)
vprintf s args = vprintf_to_device default_device s args

pub printf_to_device : Device → List ℕ → List Arg → Outcome (Putc × List ℕ)
printf_to_device device s args = vprintf_to_device device s args
