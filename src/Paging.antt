-- ===== src/Paging.antt =====
-- kernel/mem/paging.c and paging.h: the bit fields of the table entries, the memory map, the page
-- pools and the page tables.
pub mod Fields
pub mod Pools
pub mod Alloc
pub mod Tables
pub mod Walk
pub mod Init
pub mod Sorted
pub mod Sort
use waddle_os.Base.{
  ℕ, zero, suc, ◌+◌, ◌-◌, ◌*◌, ◌/◌, ◌%◌, ◌^◌, Bool, true, false, ◌&&◌, ltb, leb, ◌==◌,
  if◌then◌else◌, bit_and, bit_or, List, [], ◌∷◌, length, get_or, set,
}
use waddle_os.Base.Word.{u32, u64, ◌<<<◌, ◌>>>◌, not64}

-- `GET_BITS` and `SET_BITS`
unfoldable pub get_bits : (value pos len : ℕ) → ℕ
get_bits value pos len = bit_and (value >>> pos) (2 ^ len - 1)

pub set_bits : (value pos len newval : ℕ) → ℕ
set_bits value pos len newval =
    bit_or (bit_and value (not64 (u64 ((2 ^ len - 1) <<< pos))))
      (u64 (bit_and newval (2 ^ len - 1) <<< pos))

-- `GET_PML4_OFS` to `GET_PML1_OFS`
abbrev pub pml4_ofs : ℕ → ℕ
pml4_ofs x = (x >>> 39) % 512

abbrev pub pml3_ofs : ℕ → ℕ
pml3_ofs x = (x >>> 30) % 512

abbrev pub pml2_ofs : ℕ → ℕ
pml2_ofs x = (x >>> 21) % 512

abbrev pub pml1_ofs : ℕ → ℕ
pml1_ofs x = (x >>> 12) % 512

abbrev pub phys_base : ℕ
phys_base = 0xFFFFFFFF80000000

abbrev pub page_size : ℕ
page_size = 4096

-- The fields of an entry: base address, user access, write access and presence.
abbrev pub base_pos : ℕ
base_pos = 12

abbrev pub base_len : ℕ
base_len = 39

abbrev pub us_pos : ℕ
us_pos = 2

abbrev pub rw_pos : ℕ
rw_pos = 1

abbrev pub present_pos : ℕ
present_pos = 0

-- `ROUND_UP_TO` for a power of two.
abbrev pub round_up_to : ℕ → ℕ → ℕ
round_up_to x r = u64 (x + (r - 1)) / r * r

-- `k_ptov` and `k_vtop`
abbrev pub k_ptov : ℕ → ℕ
k_ptov phys_addr = u64 (phys_addr + phys_base)

abbrev pub k_vtop : ℕ → ℕ
k_vtop virt_addr = u64 (virt_addr + 2 ^ 64 - phys_base)

-- `struct multiboot_mmap_entry`
pub record MmapEntry : Type 0 where
  pub addr : ℕ
  pub len : ℕ
  pub type_ : ℕ

abbrev no_entry : MmapEntry
no_entry = record { addr = 0; len = 0; type_ = 0 }

abbrev pub entry_at : List MmapEntry → ℕ → MmapEntry
entry_at xs i = get_or xs i no_entry

-- The inner loop of the sort in `memory_map_init`: the entry at `j` sinks while it is smaller.
pub sink : ℕ → List MmapEntry → List MmapEntry
sink zero xs = xs
sink (suc j) xs =
    let lower = sink j (set (set xs j (entry_at xs (suc j))) (suc j) (entry_at xs j)) in
    if ltb (entry_at xs (suc j)).addr (entry_at xs j).addr then lower else xs

-- The outer loop, from index `i` on.
pub sort_loop : ℕ → ℕ → List MmapEntry → List MmapEntry
unfolding sink
sort_loop zero i xs = xs
sort_loop (suc rounds) i xs = sort_loop rounds (i + 1) (sink i xs)

pub sort_map : List MmapEntry → List MmapEntry
unfolding sort_loop
sort_map xs = sort_loop (length xs - 1) 1 xs

-- `memory_map_len` from the size field of the tag, whose header `memory_map_init` takes to have 24
-- bytes; the difference is taken on 32 bits.
pub memory_map_len : (tag_size entry_size : ℕ) → ℕ
memory_map_len tag_size entry_size = u32 (tag_size + 2 ^ 32 - 24) / entry_size

-- `phys_mem_end_paddr`
pub phys_mem_end : List MmapEntry → ℕ
phys_mem_end xs = let last = entry_at xs (length xs - 1) in u64 (last.addr + last.len)
