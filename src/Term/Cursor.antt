-- ===== src/Term/Cursor.antt =====
-- The cursor of lib/term.c stays on the screen.
use waddle_os.Base.{ℕ, ◌+◌, ◌<◌, ◌≡◌, ◌&&◌, ◌||◌, ltb, ◌==◌, if◌then◌else◌, arith}
use waddle_os.Term.{Term, vga_write, scroll, putc}

-- The cursor is on one of the 25 rows of 80 columns.
pub record OnScreen (t : Term) : Type 0 where
  pub row : t.term_row < 25
  pub col : t.term_col < 80

vga_write-cursor :
    (row col bg fg c : ℕ) (t : Term)
    → ((vga_write row col bg fg c t).term_row ≡ t.term_row)
      × ((vga_write row col bg fg c t).term_col ≡ t.term_col)
unfolding vga_write
vga_write-cursor row col bg fg c t = ground arith

-- `term_putc` keeps a cursor on the screen there. After a newline it stands in column 0 of the
-- next row, after any other character one column further or at the start of the next row; on the
-- last row "the next row" is that row again, after scrolling.
pub putc-OnScreen :
    (c : ℕ) (t : Term)
    → OnScreen t
    → OnScreen (putc c t)
      × ((putc c t).term_col ≡ (if (c == 0x0A) || (t.term_col == 79) then 0 else t.term_col + 1))
      × ((putc c t).term_row ≡ (
          if ((c == 0x0A) || (t.term_col == 79)) && ltb t.term_row 24
          then t.term_row + 1
          else t.term_row))
unfolding putc scroll
putc-OnScreen c t on =
    ground (arith, on.row, on.col, vga_write-cursor t.term_row t.term_col 0x0 0xF c t)
