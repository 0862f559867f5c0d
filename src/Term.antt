-- ===== src/Term.antt =====
-- lib/term.c: the text screen. `vga` is the buffer at 0xB8000, a 16-bit cell for each index.
pub mod Cells
pub mod Cursor
pub mod Position
use waddle_os.Base.{
  ℕ, zero, suc, ◌+◌, ◌-◌, ◌*◌, ◌/◌, ◌%◌, ◌^◌, Bool, true, false, ◌||◌, ltb, leb, ◌==◌,
  if◌then◌else◌, bit_and, bit_or, List, get_or, [], ◌∷◌,
}
use waddle_os.Base.Word.{u8, u16, ◌<<<◌, ◌>>>◌}

pub record Term : Type 0 where
  pub vga : ℕ → ℕ
  pub term_col : ℕ
  pub term_row : ℕ

abbrev pub vga_cols : ℕ
vga_cols = 80

abbrev pub vga_rows : ℕ
vga_rows = 25

-- `_vga_write`, with its bounds check
pub raw_write : ℕ → ℕ → ℕ → Term → Term
raw_write row col raw t =
    if ltb 79 row || ltb 24 col
    then t
    else record t { vga = λ k. if k == vga_cols * row + col then raw else t.vga k }

-- A `char` as an operand of `|`: it is sign-extended.
abbrev pub char_bits : ℕ → ℕ
char_bits c = if ltb c 128 then c else c + 0xFF00

-- The cell that `vga_write` stores.
pub cell : ℕ → ℕ → ℕ → ℕ
cell bg_4b fg_4b c = bit_or (bit_or ((bg_4b % 16) <<< 12) ((fg_4b % 16) <<< 8)) (char_bits c)

-- `vga_write`
pub vga_write : ℕ → ℕ → ℕ → ℕ → ℕ → Term → Term
unfolding raw_write
vga_write row col bg_4b fg_4b c t = raw_write row col (cell bg_4b fg_4b c) t

-- `_vga_read`
pub raw_read : ℕ → ℕ → Term → ℕ
raw_read row col t = if ltb 79 row || ltb 24 col then 0 else t.vga (vga_cols * row + col)

-- `vga_readc`, `vga_readbg` and `vga_readfg`
pub readc : ℕ → ℕ → Term → ℕ
readc row col t = raw_read row col t % 256

pub readbg : ℕ → ℕ → Term → ℕ
readbg row col t = (raw_read row col t >>> 8) % 16

pub readfg : ℕ → ℕ → Term → ℕ
readfg row col t = (raw_read row col t >>> 12) % 16

-- A loop of `n` rounds over an index from `i` on.
pub for_range : ℕ → ℕ → (ℕ → Term → Term) → Term → Term
for_range zero i body t = t
for_range (suc n) i body t = for_range n (i + 1) body (body i t)

-- `term_clear`
pub clear : Term → Term
clear t =
    for_range vga_cols 0 (λ col. for_range vga_rows 0 (λ row. vga_write row col 0x0 0xF 0x20)) t

-- The scrolling of `term_putc`
pub scroll : Term → Term
scroll t =
    let up =
      for_range vga_cols 0
        (λ col.
          for_range (vga_rows - 1) 1 (λ row t. raw_write (row - 1) col (raw_read row col t) t))
        t in
    let blank = for_range vga_cols 0 (λ col. vga_write (vga_rows - 1) col 0x0 0xF 0x20) up in
    record blank { term_col = 0; term_row = vga_rows - 1 }

-- The switch of `term_putc`
pub put_char : ℕ → Term → Term
put_char c t =
    if c == 0x0A
    then record t { term_col = 0; term_row = u8 (t.term_row + 1) }
    else let t' = vga_write t.term_row t.term_col 0x0 0xF c t in
      record t' { term_col = u8 (t'.term_col + 1) }

pub wrap_line : Term → Term
wrap_line t =
    if leb vga_cols t.term_col then record t { term_col = 0; term_row = u8 (t.term_row + 1) } else t

-- `term_putc`
pub putc : ℕ → Term → Term
unfolding put_char wrap_line
putc c t = let t' = wrap_line (put_char c t) in if leb vga_rows t'.term_row then scroll t' else t'

-- `hexdig_lookup` and `term_putbyte`
abbrev pub hexdig_lookup : List ℕ
hexdig_lookup =
    0x30 ∷ 0x31 ∷ 0x32 ∷ 0x33 ∷ 0x34 ∷ 0x35 ∷ 0x36 ∷ 0x37 ∷ 0x38 ∷ 0x39 ∷ 0x41 ∷ 0x42 ∷ 0x43 ∷ 0x44
    ∷ 0x45 ∷ 0x46 ∷ []

pub putbyte : ℕ → Term → Term
putbyte b t =
    putc (get_or hexdig_lookup (bit_and b 0xF) 0)
      (putc (get_or hexdig_lookup (bit_and b 0xF0 >>> 4) 0) t)
