-- ===== src/Loader/Elf.antt =====
-- The headers of the kernel's ELF file, and the loop of `main` over its program headers.
use waddle_os.Base.{
  ℕ, zero, suc, ◌+◌, ◌*◌, ◌%◌, Bool, ◌&&◌, ltb, ◌==◌, if◌then◌else◌, List, [], ◌∷◌, ◌++◌, length,
  Outcome, ok, fault, ◌>>=◌,
}
use waddle_os.Base.Word.{u16, u32, ◌>>>◌}
use waddle_os.Memory.{Memory, read_field}
use waddle_os.Loader.{Firmware, kernel_start_sector, disk_buffer_addr}

-- The fields of `Elf64_Ehdr` that `main` uses.
pub record Ehdr : Type 0 where
  pub e_entry : ℕ
  pub e_phoff : ℕ
  pub e_phentsize : ℕ
  pub e_phnum : ℕ

pub read_ehdr : Memory → ℕ → Ehdr
read_ehdr m p = record {
  e_entry = read_field 8 m (p + 24);
  e_phoff = read_field 8 m (p + 32);
  e_phentsize = read_field 2 m (p + 54);
  e_phnum = read_field 2 m (p + 56);
}

-- The comparison of `e_ident` with `ELFMAG`.
pub has_magic : Memory → ℕ → Bool
has_magic m p =
    (m p % 256 == 0x7F)
    && ((m (p + 1) % 256 == 0x45) && ((m (p + 2) % 256 == 0x4C) && (m (p + 3) % 256 == 0x46)))

-- The fields of `Elf64_Phdr` that `main` uses.
pub record Phdr : Type 0 where
  pub p_type : ℕ
  pub p_offset : ℕ
  pub p_paddr : ℕ
  pub p_filesz : ℕ

pub read_phdr : Memory → ℕ → Phdr
read_phdr m p = record {
  p_type = read_field 4 m p;
  p_offset = read_field 8 m (p + 8);
  p_paddr = read_field 8 m (p + 24);
  p_filesz = read_field 8 m (p + 32);
}

-- `load_info_t`, whose fields have 32 bits.
pub record LoadInfo : Type 0 where
  pub bytes : ℕ
  pub addr : ℕ
  pub offset : ℕ

abbrev pub pt_load : ℕ
pt_load = 1

-- The sector that is read for program header `i`, and where `main` looks for the header.
abbrev pub phdr_sector : Ehdr → ℕ → ℕ
phdr_sector e i = u16 (kernel_start_sector + ((i * e.e_phentsize) >>> 9))

abbrev pub phdr_address : Ehdr → ℕ → ℕ
phdr_address e i = disk_buffer_addr + (e.e_phoff + i * e.e_phentsize) % 512

-- A loadable segment is appended to `linfo`, which has room for five; a sixth is written behind it.
pub add_segment : Phdr → List LoadInfo → Outcome (List LoadInfo)
add_segment p linfo =
    if p.p_type == pt_load
    then (if ltb (length linfo) 5
        then ok (
            linfo
            ++ (record { bytes = u32 p.p_filesz; addr = u32 p.p_paddr; offset = u32 p.p_offset }
                ∷ []))
        else fault)
    else ok linfo

-- The loop over the program headers from index `i` on.
pub read_phdrs : ℕ → Firmware → Ehdr → ℕ → List LoadInfo → Memory → Outcome (List LoadInfo × Memory)
unfolding read_phdr
read_phdrs zero fw e i linfo m = ok (linfo, m)
read_phdrs (suc rounds) fw e i linfo m = do
  let loaded = fw.load_sector_asm (phdr_sector e i) (u16 ((e.e_phentsize >>> 9) + 2)) m
  linfo' ← add_segment (read_phdr loaded (phdr_address e i)) linfo
  read_phdrs rounds fw e (i + 1) linfo' loaded
