-- ===== src/Loader/Run.antt =====
-- `main` of the boot loader, up to the jump into long mode.
use waddle_os.Base.{ℕ, ◌+◌, ◌==◌, if◌then◌else◌, List, [], ◌∷◌, Outcome, ok, fault, spin, ◌>>=◌}
use waddle_os.Base.Word.{u16, ◌>>>◌}
use waddle_os.Memory.{Memory}
use waddle_os.Loader.{Firmware, kernel_start_sector, disk_buffer_addr, load_sector}
use waddle_os.Loader.Elf.{LoadInfo, read_ehdr, has_magic, read_phdrs}
use waddle_os.Loader.Tags.{header_ok, requested, write_info}

-- A segment, loaded to its physical address.
pub load_segment : Firmware → LoadInfo → Memory → Outcome Memory
load_segment fw l m =
    load_sector fw (u16 (kernel_start_sector + (l.offset >>> 9))) (u16 ((l.bytes >>> 9) + 1)) l.addr
      m

pub load_all : Firmware → List LoadInfo → Memory → Outcome Memory
load_all fw [] m = ok m
load_all fw (l ∷ ls) m = do loaded ← load_segment fw l m; load_all fw ls loaded

-- The checks and the copying behind the program headers: the first segment holds the multiboot
-- header. Without a loadable segment the first entry of `linfo` is not initialised.
pub load_kernel : ℕ → Firmware → List LoadInfo → Memory → Outcome Memory
load_kernel fuel fw [] m = fault
load_kernel fuel fw (l ∷ ls) m = do
  first ← load_segment fw l m
  bmap ← if header_ok first l.addr then requested fuel first (l.addr + 16) 0 else spin
  informed ← write_info fuel fw bmap first
  load_all fw (l ∷ ls) informed

-- `main`: the entry address of the kernel and the memory at the jump. Where the loader gives up it
-- loops for ever.
pub boot_main : ℕ → Firmware → Memory → Outcome (ℕ × Memory)
boot_main fuel fw m = do
  let loaded = fw.load_sector_asm kernel_start_sector 1 m
  let ehdr = read_ehdr loaded disk_buffer_addr
  (linfo, scanned) ←
      if has_magic loaded disk_buffer_addr
      then read_phdrs ehdr.e_phnum fw ehdr 0 [] loaded
      else spin
  memory ← load_kernel fuel fw linfo scanned
  if fw.check_for_longmode == 1 then ok (ehdr.e_entry, memory) else spin
