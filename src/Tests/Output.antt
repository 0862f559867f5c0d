-- ===== src/Tests/Output.antt =====
-- The screen and the formatted output at concrete inputs.
use waddle_os.Base.{
  ℕ, ◌+◌, ◌-◌, ◌%◌, ◌^◌, ◌<◌, ◌≡◌, ◌||◌, ◌&&◌, ltb, ◌==◌, if◌then◌else◌, List, ◌∷◌, length, arith,
}
use waddle_os.Term.{Term, vga_write, readc, readbg, readfg, clear, putc}
use waddle_os.Term.Cells.{shown, clear-shown, vga_write-read}
use waddle_os.Term.Cursor.{OnScreen, putc-OnScreen}
use waddle_os.Printf.{print_int, print_hex}
use waddle_os.Printf.Digits.{
  read_digits, IsNumeral, AllDigits, print_int-read_digits, print_hex-read_digits,
}

-- The cursor is at the end of the last row.
abbrev screen : Term
screen = record { vga = λ k. k % 65536; term_col = 79; term_row = 24 }

clear-shown_example : (clear screen).vga 85 ≡ (if shown 85 then 0x0F20 else 85 % 65536)
clear-shown_example = clear-shown screen 85

vga_write-read_example :
    let t' = vga_write 3 4 1 15 65 screen in
    (readc 3 4 t' ≡ 65) × (readbg 3 4 t' ≡ 15 % 16) × (readfg 3 4 t' ≡ 1 % 16)
vga_write-read_example = vga_write-read 3 4 1 15 65 screen (omega arith) (omega arith) (omega arith)

putc-OnScreen_example :
    OnScreen (putc 65 screen)
    × ((putc 65 screen).term_col
        ≡ (if (65 == 0x0A) || (screen.term_col == 79) then 0 else screen.term_col + 1))
    × ((putc 65 screen).term_row ≡ (
        if ((65 == 0x0A) || (screen.term_col == 79)) && ltb screen.term_row 24
        then screen.term_row + 1
        else screen.term_row))
putc-OnScreen_example = putc-OnScreen 65 screen (record { row = omega arith; col = omega arith })

print_int-read_digits_example :
    (4096 < 2 ^ 31 → IsNumeral 4096 (print_int 4096))
    × (2 ^ 31 < 4096
        → 4096 < 2 ^ 32
        → (out : List ℕ) × (print_int 4096 ≡ 0x2D ∷ out) × IsNumeral (2 ^ 32 - 4096) out)
print_int-read_digits_example = print_int-read_digits 4096

print_hex-read_digits_example :
    (out : List ℕ) × (print_hex 0xB8000 ≡ 0x30 ∷ 0x78 ∷ out)
    × (length out ≡ 16)
    × AllDigits 16 out
    × (read_digits 16 0 out ≡ 0xB8000)
print_hex-read_digits_example = print_hex-read_digits 0xB8000 (omega arith)
