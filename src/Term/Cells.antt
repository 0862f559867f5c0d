-- ===== src/Term/Cells.antt =====
-- The cells that lib/term.c writes and reads. Its bounds check takes the columns for rows: it lets
-- only the columns 0 to 24 of the 80 through.
use waddle_os.Base.{
  ℕ, zero, suc, ◌+◌, ◌*◌, ◌/◌, ◌%◌, ◌^◌, ◌≤◌, ◌<◌, ◌≡◌, refl, Bool, ◌&&◌, ltb, leb, ◌==◌,
  if◌then◌else◌, arith,
}
use waddle_os.Base.Bits.{bit_or-shifted}
use waddle_os.Term.{
  Term, raw_write, raw_read, vga_write, cell, readc, readbg, readfg, for_range, clear, vga_cols,
  vga_rows,
}

-- `k` is the cell of a row of the screen and a column below 25.
abbrev pub shown : ℕ → Bool
shown k = ltb (k / 80) 25 && ltb (k % 80) 25

-- What `term_clear` writes.
abbrev blank : ℕ
blank = 0x0F20

cell-blank : cell 0x0 0xF 0x20 ≡ blank
unfolding cell
cell-blank = refl

write_blank :
    (row col : ℕ) (t : Term) (k : ℕ)
    → row < 25
    → (vga_write row col 0x0 0xF 0x20 t).vga k
      ≡ (if ltb col 25 && ((k / 80 == row) && (k % 80 == col)) then blank else t.vga k)
unfolding vga_write
write_blank row col t k h = ground (arith, cell-blank)

column_lem :
    (col n row : ℕ) (t : Term)
    → row + n ≤ 25
    → (k : ℕ)
    → (for_range n row (λ r. vga_write r col 0x0 0xF 0x20) t).vga k ≡ (
        if ltb col 25 && (leb row (k / 80) && (ltb (k / 80) (row + n) && (k % 80 == col)))
        then blank
        else t.vga k)
unfolding for_range
column_lem col zero row t h k = ground arith
column_lem col (suc n) row t h k = ground (
  arith,
  column_lem col n (row + 1) (vga_write row col 0x0 0xF 0x20 t) (omega arith) k,
  write_blank row col t k,
)

columns-step :
    (n col : ℕ) (t' t : Term) (k : ℕ) {v : ℕ}
    → v ≡ (
        if ltb (k / 80) 25
          && (leb (col + 1) (k % 80) && (ltb (k % 80) (col + 1 + n) && ltb (k % 80) 25))
        then blank
        else t'.vga k)
    → t'.vga k ≡ (
        if ltb col 25 && (leb 0 (k / 80) && (ltb (k / 80) 25 && (k % 80 == col)))
        then blank
        else t.vga k)
    → v ≡ (
        if ltb (k / 80) 25 && (leb col (k % 80) && (ltb (k % 80) (col + suc n) && ltb (k % 80) 25))
        then blank
        else t.vga k)
columns-step n col t' t k e e' = ground arith

columns_lem :
    (n col : ℕ) (t : Term) (k : ℕ)
    → (for_range n col (λ c. for_range vga_rows 0 (λ r. vga_write r c 0x0 0xF 0x20)) t).vga k ≡ (
        if ltb (k / 80) 25 && (leb col (k % 80) && (ltb (k % 80) (col + n) && ltb (k % 80) 25))
        then blank
        else t.vga k)
unfolding for_range
columns_lem zero col t k = ground arith
columns_lem (suc n) col t k =
    columns-step n col (for_range vga_rows 0 (λ r. vga_write r col 0x0 0xF 0x20) t) t k
      (columns_lem n (col + 1) (for_range vga_rows 0 (λ r. vga_write r col 0x0 0xF 0x20) t) k)
      (column_lem col vga_rows 0 t (omega arith) k)

-- `term_clear` blanks, on each of the 25 rows, the first 25 columns, and leaves the other 55 columns
-- and all memory behind the screen as they are.
pub clear-shown : (t : Term) (k : ℕ) → (clear t).vga k ≡ (if shown k then 0x0F20 else t.vga k)
unfolding clear
clear-shown t k = ground (arith, columns_lem vga_cols 0 t k)

cell-sum : (bg fg c : ℕ) → c < 128 → cell bg fg c ≡ (bg % 16 * 16 + fg % 16) * 256 + c
unfolding cell
cell-sum bg fg c h = ground (
  arith,
  bit_or-shifted 12 (bg % 16) (fg % 16 * 2 ^ 8),
  bit_or-shifted 8 (bg % 16 * 16 + fg % 16) c,
  same,
)
  where
    same : bg % 16 * 2 ^ 12 + fg % 16 * 2 ^ 8 ≡ (bg % 16 * 16 + fg % 16) * 2 ^ 8
    same = omega arith

read_back :
    (row col bg fg c : ℕ) (t : Term)
    → row ≤ 79
    → col ≤ 24
    → raw_read row col (vga_write row col bg fg c t) ≡ cell bg fg c
unfolding raw_read raw_write vga_write
read_back row col bg fg c t hr hc = ground arith

-- What is read back of a 7-bit character written to a cell that passes the bounds check: the
-- character, and the two colours, each under the name of the other.
pub vga_write-read :
    (row col bg fg c : ℕ) (t : Term)
    → row ≤ 79
    → col ≤ 24
    → c < 128
    → let t' = vga_write row col bg fg c t in
      (readc row col t' ≡ c) × (readbg row col t' ≡ fg % 16) × (readfg row col t' ≡ bg % 16)
unfolding readc readbg readfg
vga_write-read row col bg fg c t hr hc hk =
    omega (arith, read_back row col bg fg c t hr hc, cell-sum bg fg c hk)
