-- ===== src/Term/Position.antt =====
-- `term_readcursor` of lib/term.c, the only function of the file that uses ports.
use waddle_os.Base.{◌/◌, ◌%◌, bit_or}
use waddle_os.Base.Word.{u8, u16, ◌<<<◌}
use waddle_os.Machine.{Cmd, pure, ◌>>=◌, ◌>>◌, outb, inb}
use waddle_os.Term.{Term, vga_cols}

-- The arguments of `outb` are taken as the code passes them: port 0x0E and then 0x0F gets the low byte
-- of 0x3D4.
pub readcursor : Term → Cmd Term
readcursor t = do
  outb 0x0E (u8 0x3D4)
  high ← inb 0x3D5
  outb 0x0F (u8 0x3D4)
  low ← inb 0x3D5
  let pos = bit_or (u16 (high <<< 8)) low
  pure (record t { term_row = u8 (pos / vga_cols); term_col = u8 (pos % vga_cols) })
