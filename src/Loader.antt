-- ===== src/Loader.antt =====
-- loader/boot1/main.c: the boot loader, which runs in 32-bit mode. The routines in assembly that ask
-- the firmware are parameters; a pointer is a 32-bit address. The messages on the serial port are left
-- out.
pub mod Elf
pub mod Tags
pub mod Run
pub mod Sectors
pub mod Rounds
use waddle_os.Base.{
  ℕ, zero, suc, ◌+◌, ◌-◌, ◌*◌, ◌%◌, ◌^◌, ltb, ◌==◌, if◌then◌else◌, Outcome, ok, spin,
}
use waddle_os.Base.Word.{u16, u32}
use waddle_os.Memory.{Memory, memcpy}

-- The assembly routines of boot1.S, as parameters: `load_sector_asm` with sector and count, of which
-- Sectors states what it does, the two results of `get_basic_meminfo`, `get_single_mmap` on an
-- address, with its result, and the two checks.
pub record Firmware : Type 0 where
  pub load_sector_asm : ℕ → ℕ → Memory → Memory
  pub mem_lower : ℕ
  pub mem_upper : ℕ
  pub get_single_mmap : ℕ → Memory → ℕ × Memory
  pub check_for_cpuid : ℕ
  pub check_for_longmode : ℕ

abbrev pub kernel_start_sector : ℕ
kernel_start_sector = 12

abbrev pub disk_buffer_addr : ℕ
disk_buffer_addr = 0x8000

abbrev pub multiboot_return_info_addr : ℕ
multiboot_return_info_addr = 0xC000

-- One round of the loop in `load_sector` reads at most 24 sectors.
abbrev pub sectors_curr : ℕ → ℕ
sectors_curr num_sectors = if ltb 24 num_sectors then 24 else num_sectors

-- The loop of `load_sector`, on fuel.
pub load_loop : ℕ → Firmware → ℕ → ℕ → ℕ → Memory → Outcome Memory
load_loop zero fw sector num_sectors address m = if num_sectors == 0 then ok m else spin
load_loop (suc fuel) fw sector num_sectors address m =
    let curr = sectors_curr num_sectors in
    let loaded = fw.load_sector_asm sector curr m in
    let copied = memcpy address disk_buffer_addr (curr * 512) loaded in
    let rest =
      load_loop fuel fw (u16 (sector + curr)) (num_sectors - curr) (u32 (address + curr * 512))
        copied in
    if num_sectors == 0 then ok m else rest

-- `load_sector`: each round takes away at least one sector.
pub load_sector : Firmware → ℕ → ℕ → ℕ → Memory → Outcome Memory
load_sector fw sector num_sectors address m = load_loop num_sectors fw sector num_sectors address m
