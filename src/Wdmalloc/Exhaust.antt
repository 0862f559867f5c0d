-- ===== src/Wdmalloc/Exhaust.antt =====
-- An allocation of the only free block, and `wdfree` behind it.
use waddle_os.Base.{ℕ, ◌+◌, bit_or}
use waddle_os.Memory.{write_field}
use waddle_os.Wdmalloc.{Wd, magic, alloc_bit}

-- The state behind `take_block`.
abbrev taken : Wd → ℕ → ℕ → Wd
taken w start field = record w {
  mem = write_field 2 (write_field 8 w.mem (start + 4) magic) (start + 2) (bit_or field alloc_bit);
  freelist_head = 0;
}
