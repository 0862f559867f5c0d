-- ===== src/Paging/Init.antt =====
-- `memory_map_init` and `paging_init`.
use waddle_os.Base.{
  ℕ, zero, suc, ◌+◌, ◌-◌, ◌*◌, ◌/◌, ◌^◌, ltb, ◌==◌, if◌then◌else◌, List, [], ◌∷◌, Outcome, ok,
  fault, ◌>>=◌,
}
use waddle_os.Base.Word.{u32, u64}
use waddle_os.Memory.{Memory, read_field}
use waddle_os.Machine.{Machine, Cmd}
use waddle_os.Multiboot.{get_tag, tag_size}
use waddle_os.Interrupts.{Frame, register_handler}
use waddle_os.Interrupts.Vectors.{code, exc_page_fault}
use waddle_os.Paging.{
  MmapEntry, sort_map, memory_map_len, phys_mem_end, page_size, round_up_to, k_ptov,
}
use waddle_os.Paging.Pools.{Pools, memory_pool_init}
use waddle_os.Paging.Tables.{tables_init}

-- The entries of the memory map tag, `n` of them from the address `p` on.
pub read_entries : ℕ → Memory → ℕ → List MmapEntry
read_entries zero m p = []
read_entries (suc n) m p =
    record {
      addr = read_field 8 m p;
      len = read_field 8 m (p + 8);
      type_ = read_field 4 m (p + 16);
    }
    ∷ read_entries n m (p + 24)

abbrev pub tag_type_mmap : ℕ
tag_type_mmap = 6

-- `memory_map_init`. The array has room for 10 entries; a copy beyond it, and a tag that is missing,
-- have no defined result.
pub memory_map_init : ℕ → Memory → ℕ → Outcome (List MmapEntry)
unfolding read_entries
memory_map_init fuel m mboot_tags = do
  tag ← get_tag fuel m mboot_tags tag_type_mmap
  let size = tag_size m tag
  let count = memory_map_len size (read_field 4 m (tag + 8))
  if (tag == 0)
      then fault
      else (if ltb 240 (u32 (size + 2 ^ 32 - 24))
          then fault
          else ok (sort_map (read_entries count m (tag + 16))))

-- The words of memory at a bitmap's buffer.
pub read_words : ℕ → Memory → ℕ → List ℕ
read_words zero m p = []
read_words (suc n) m p = read_field 8 m p ∷ read_words n m (p + 8)

abbrev words_for : Memory → ℕ → ℕ → List ℕ
words_for m p bits = read_words ((bits + 63) / 64) m p

-- `page_fault_handler` reads CR2 for a `log`, which paging.c switches off.
pub page_fault_handler : Frame → Cmd (Unit {0})
page_fault_handler frame s = ok (tt, s)

-- `paging_init`; the parameters are the address of the boot information, the linker's
-- `_kernel_end` and the address of `page_fault_handler`. The last result is the value in CR3.
pub paging_init :
    (fuel mboot_tags kernel_end handler : ℕ) → Memory → Machine → Outcome (Machine × Pools × ℕ)
unfolding memory_map_init read_words
paging_init fuel mboot_tags kernel_end handler m machine = do
  entries ← memory_map_init fuel m mboot_tags
  (_, machine') ← register_handler (code exc_page_fault) handler machine
  let free_start = round_up_to kernel_end page_size
  let total = u64 (k_ptov (phys_mem_end entries) + 2 ^ 64 - free_start) / page_size
  let k_pages = total / 2
  let u_pages = total - k_pages
  let k_md = free_start
  let u_md = u64 (free_start + round_up_to k_pages 8 / 8 * 2)
  let k_md_bytes = round_up_to k_pages 8 / 8
  let u_md_bytes = round_up_to u_pages 8 / 8
  k_pool ←
      memory_pool_init (words_for m k_md k_pages) (words_for m (k_md + k_md_bytes) k_pages) k_md
        free_start k_pages entries
  u_pool ←
      memory_pool_init (words_for m u_md u_pages) (words_for m (u_md + u_md_bytes) u_pages) u_md
        (u64 (free_start + k_pages * page_size)) u_pages entries
  (_, pools, cr3) ← tables_init total (record { mem = m; kernel_pool = k_pool; user_pool = u_pool })
  ok (machine', pools, cr3)
