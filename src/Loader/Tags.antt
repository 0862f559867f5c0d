-- ===== src/Loader/Tags.antt =====
-- The multiboot header of the kernel: its checks, the tags that it requests, and the boot information
-- that `main` writes for them.
use waddle_os.Base.{
  ℕ, zero, suc, ◌+◌, ◌-◌, ◌*◌, ◌/◌, ◌%◌, ◌^◌, Bool, ◌&&◌, ltb, ◌==◌, if◌then◌else◌, bit_or, Outcome,
  ok, spin, ◌>>=◌,
}
use waddle_os.Base.Word.{u8, u32}
use waddle_os.Memory.{Memory, read_field, write_field}
use waddle_os.Loader.{Firmware, multiboot_return_info_addr}

abbrev pub header_magic : ℕ
header_magic = 0xE85250D6

-- The magic number and the checksum of a `struct multiboot_header`.
pub header_ok : Memory → ℕ → Bool
header_ok m h =
    (read_field 4 m h == header_magic)
    && (u32 (
          read_field 4 m h
          + read_field 4 m (h + 4)
          + read_field 4 m (h + 8)
          + read_field 4 m (h + 12))
        == 0)

-- `type` and `size` of a `struct multiboot_header_tag`.
abbrev pub htag_type : Memory → ℕ → ℕ
htag_type m tag = read_field 2 m tag

abbrev pub htag_size : Memory → ℕ → ℕ
htag_size m tag = read_field 4 m (tag + 4)

-- `1 << t->requests[i]`, whose shift takes its count modulo 32.
abbrev pub request_bit : Memory → ℕ → ℕ → ℕ
request_bit m tag i = 2 ^ (read_field 4 m (tag + 8 + 4 * i) % 32)

-- The requests of one tag, from index `i` on.
unfoldable pub collect : ℕ → Memory → ℕ → ℕ → ℕ → ℕ
collect zero m tag i bmap = bmap
collect (suc rounds) m tag i bmap = collect rounds m tag (i + 1) (bit_or bmap (request_bit m tag i))

abbrev pub request_count : Memory → ℕ → ℕ
request_count m tag = u32 (htag_size m tag + 2 ^ 32 - 8) / 4

-- The case of the switch: with more than 255 requests the 8-bit index never reaches their number.
unfoldable pub tag_requests : Memory → ℕ → ℕ → Outcome ℕ
unfolding collect
tag_requests m tag bmap =
    if htag_type m tag == 1
    then (if ltb 255 (request_count m tag)
        then spin
        else ok (collect (request_count m tag) m tag 0 bmap))
    else ok bmap

abbrev pub next_htag : Memory → ℕ → ℕ
next_htag m tag = u32 (u32 (tag + htag_size m tag) + 7) / 8 * 8

-- The loop over the header's tags, on fuel; the result is `tags_requested_bmap`.
unfoldable pub requested : ℕ → Memory → ℕ → ℕ → Outcome ℕ
requested zero m tag bmap = spin
requested (suc fuel) m tag bmap =
    if htag_type m tag == 0
    then ok bmap
    else (do bmap' ← tag_requests m tag bmap; requested fuel m (next_htag m tag) bmap')

-- The loop over `get_single_mmap`, on fuel; the result is the address of the last entry.
pub fill_mmap : ℕ → Firmware → ℕ → Memory → Outcome (ℕ × Memory)
fill_mmap zero fw entry m = spin
fill_mmap (suc fuel) fw entry m =
    let (last, written) = fw.get_single_mmap entry m in
    let rest = fill_mmap fuel fw (u32 (entry + 24)) written in
    if last == 1 then ok (entry, written) else rest

-- The tag of one type at `curr`: memory bounds, the memory map, or only a type.
pub write_meminfo : Firmware → ℕ → Memory → Memory
write_meminfo fw curr m =
    write_field 4 (write_field 4 (write_field 4 m (curr + 8) fw.mem_lower) (curr + 12) fw.mem_upper)
      (curr + 4) 16

pub write_mmap : ℕ → Firmware → ℕ → Memory → Outcome Memory
write_mmap fuel fw curr m = do
  (last, filled) ← fill_mmap fuel fw (u32 (curr + 16)) m
  let sized =
      write_field 4 (write_field 4 filled (curr + 8) 24) (curr + 4) (u32 (last + 2 ^ 32 - curr))
  ok (write_field 4 sized (curr + 12) 0)

pub write_tag : ℕ → Firmware → ℕ → ℕ → Memory → Outcome Memory
unfolding write_meminfo
write_tag fuel fw tag_type curr m = do
  body ←
      if tag_type == 4
      then ok (write_meminfo fw curr m)
      else if tag_type == 6
      then write_mmap fuel fw curr m
      else ok m
  ok (write_field 4 body curr tag_type)

abbrev pub tag_end : Memory → ℕ → ℕ
tag_end m curr = u32 (curr + read_field 4 m (curr + 4) + 7) / 8 * 8

-- The loop that returns the information: one round for each bit of the 32, up to the last one set.
-- `fuel` bounds the memory map.
unfoldable pub return_info : ℕ → ℕ → Firmware → ℕ → ℕ → ℕ → Memory → Outcome Memory
return_info zero fuel fw bmap tag_type curr m = ok m
return_info (suc rounds) fuel fw bmap tag_type curr m = if bmap == 0 then ok m else (do
  tagged ← if bmap % 2 == 1 then write_tag fuel fw tag_type curr m else ok m
  let total = u32 (read_field 4 tagged multiboot_return_info_addr + read_field 4 tagged (curr + 4))
  let counted = write_field 4 tagged multiboot_return_info_addr total
  return_info rounds fuel fw (bmap / 2) (u8 (tag_type + 1)) (tag_end counted curr) counted)

-- The boot information, from the two words at its start on.
unfoldable pub write_info : ℕ → Firmware → ℕ → Memory → Outcome Memory
write_info fuel fw bmap m =
    let start =
      write_field 4 (write_field 4 m multiboot_return_info_addr 2) (multiboot_return_info_addr + 4)
        0 in
    return_info 32 fuel fw bmap 0 (multiboot_return_info_addr + 8) start
