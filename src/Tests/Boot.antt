-- ===== src/Tests/Boot.antt =====
-- The boot loader and the printing at concrete inputs.
use waddle_os.Base.{
  ◌^◌, ◌<◌, ◌==◌, true, false, ℕ, ◌+◌, ◌-◌, ◌*◌, ◌%◌, ◌≡◌, refl, ◌∙◌, ◌&&◌, ltb, leb, if◌then◌else◌,
  List, [], ◌∷◌, ◌++◌, inr, arith, ok,
}
use waddle_os.Memory.{Memory, read_field}
use waddle_os.Loader.Tags.{requested, tag_requests, collect, return_info}
use waddle_os.Loader.Rounds.{requested-return_info}
use waddle_os.Pit.{timer_interrupt}
use waddle_os.Interrupts.{Run, Frame}
use waddle_os.Kernel.Timer.{start_timer, ticks, Handled, start_timer-ticks}
use waddle_os.Machine.{Machine, Event}
use waddle_os.Idt.{descriptor}
use waddle_os.Loader.{Firmware, load_sector}
use waddle_os.Loader.Sectors.{ReadsDisk, Loaded, load_sector-Loaded}
use waddle_os.Printf.{str, int, print_int}
use waddle_os.Printf.Pieces.{Piece, string, byte, decimal}
use waddle_os.Log.{printf}
use waddle_os.Log.Ready.{sent, at_trace, printf-text}

-- The packet at 0x7000 begins with its size. Byte `k` of the disk is `k` modulo 251.
abbrev disk : ℕ → ℕ
disk k = k % 251

abbrev read_sectors : ℕ → ℕ → Memory → Memory
read_sectors sector num m a =
    if (m 0x7000 == 16) && leb 0x8000 a && ltb a (0x8000 + num * 512)
    then disk (sector * 512 + (a - 0x8000))
    else m a

abbrev firmware : Firmware
firmware = record {
  load_sector_asm = read_sectors;
  mem_lower = 640;
  mem_upper = 0x10000;
  get_single_mmap = λ entry m. (1, m);
  check_for_cpuid = 1;
  check_for_longmode = 1;
}

-- The loader's own memory is from 0x7000 up to 0x8000; this routine leaves it as it is.
abbrev HasPacket : Memory → Type 0
HasPacket m = m 0x7000 ≡ 16

firmware-ReadsDisk : ReadsDisk firmware disk 0x7000 0x8000 HasPacket
firmware-ReadsDisk = record {
  inside = λ s n i m intact low below more few h.
      let off : 0x8000 + i - 0x8000 ≡ i = omega arith in
      let from : leb 0x8000 (0x8000 + i) ≡ true = ground arith in
      let to : ltb (0x8000 + i) (0x8000 + n * 512) ≡ true = ground arith in
      rw (intact, from, to, off) refl;
  outside = λ s n a m intact low below more few h away. ground arith;
  stays = λ s n m intact low below more few. ground arith;
  local = λ m m' same intact. same 0x7000 (omega arith) (omega arith) ∙ intact;
}

-- Nothing but the packet.
abbrev empty : Memory
empty a = if a == 0x7000 then 16 else 0

-- 30 sectors, in two rounds, to the first mebibyte.
load_sector-Loaded_example :
    (m' : Memory) × (load_sector firmware 20 30 0x100000 empty ≡ ok m')
    × Loaded disk 0x7000 0x8000 20 30 0x100000 empty m'
load_sector-Loaded_example =
    load_sector-Loaded firmware disk 0x7000 0x8000 HasPacket firmware-ReadsDisk 20 30 0x100000 empty
      refl (omega arith) (omega arith) (omega arith) (inr (omega arith)) (inr (omega arith))

-- Every device answers 0xFF.
abbrev quiet : Machine
quiet = record {
  trace = [];
  device = λ t p. 0xFF;
  master_pic_offset = 0x20;
  slave_pic_offset = 0x28;
  idt = λ v. descriptor 0 0;
  exc_handlers = λ v. 0;
  isr_handlers = λ v. 0;
  i_active = false;
}

-- `%s=%d` of `ab` and 42.
abbrev pieces : List Piece
pieces = string (b'a' ∷ b'b' ∷ []) ∷ byte b'=' ∷ decimal 42 ∷ []

printf-text_example :
    (t : List Event) × (printf 1
        (b'%' ∷ b's' ∷ b'=' ∷ b'%' ∷ b'd' ∷ [])
        (str (b'a' ∷ b'b' ∷ []) ∷ int 42 ∷ [])
        quiet
      ≡ ok (tt, at_trace quiet t))
    × (sent t ≡ b'a' ∷ b'b' ∷ b'=' ∷ (print_int 42 ++ []))
printf-text_example =
    printf-text 1 (omega arith) pieces quiet (tt, ((λ e. ground arith), (tt, tt))) (omega arith)
      (λ t. ground arith)

-- A header whose tags request the memory bounds and the memory map.
abbrev tags : Memory
tags a = if a == 0 then 1 else if a == 4 then 16 else if a == 8 then 4 else if a == 12 then 6 else 0

tags-requested : requested 2 tags 0 0 ≡ ok 0x50
unfolding requested tag_requests collect read_field
tags-requested = refl

requested-return_info_example :
    (0x50 < 2 ^ 32)
    × ((k mmap_fuel : ℕ) (fw : Firmware) (tag_type curr : ℕ) (m' : Memory)
        → return_info (32 + k) mmap_fuel fw 0x50 tag_type curr m'
          ≡ return_info 32 mmap_fuel fw 0x50 tag_type curr m')
requested-return_info_example = requested-return_info 2 tags 0 0x50 tags-requested

-- The handler at 0x1000 is the timer's.
abbrev timer_only : Run
timer_only handler frame = timer_interrupt

abbrev frame : Frame
frame = record {
  r15 = 0;
  r14 = 0;
  r13 = 0;
  r12 = 0;
  r11 = 0;
  r10 = 0;
  r9 = 0;
  r8 = 0;
  rsi = 0;
  rdi = 0;
  rbp = 0;
  rdx = 0;
  rcx = 0;
  rbx = 0;
  rax = 0;
  error_code = 0;
  rip = 0;
  cs = 8;
  rflags = 0;
  rsp = 0;
  ss = 0;
}

timer_only-work : (t : Machine) → timer_only 0x1000 frame t ≡ ok (tt, at_trace t ([] ++ t.trace))
unfolding timer_interrupt
timer_only-work t = refl

start_timer-ticks_example :
    (s₁ : Machine) × (start_timer (λ v. v + 1) (λ v. v + 2) 0x5000 0x1000 100 quiet ≡ ok (tt, s₁))
    × (s₁.i_active ≡ true)
    × (s₁.idt 32 ≡ descriptor 34 0x8E)
    × ((k : ℕ)
        → (s₂ : Machine) × (ticks k 1 timer_only frame s₁ ≡ ok (tt, s₂))
          × Handled [] k s₁.trace s₂.trace)
start_timer-ticks_example =
    start_timer-ticks (λ v. v + 1) (λ v. v + 2) 0x5000 0x1000 100 quiet refl (λ t. ground arith)
      (ground arith) (omega arith) 1 timer_only frame [] (omega arith) timer_only-work
