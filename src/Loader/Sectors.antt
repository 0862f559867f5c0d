-- ===== src/Loader/Sectors.antt =====
-- What `load_sector` copies, from what one call of the firmware reads.
use native.Mathlib.Decide.{dec_lt}
use mathlib.Core.Path.{subst}
use waddle_os.Base.{
  ℕ, zero, suc, ◌+◌, ◌-◌, ◌*◌, ◌^◌, ◌≤◌, ◌<◌, ◌≡◌, refl, ◌∙◌, ap, sym, ◌⊎◌, inl, ◌==◌, arith, ok,
  false,
}
use waddle_os.Base.Word.{u16, u32}
use waddle_os.Memory.{Memory, memcpy}
use waddle_os.Memory.Copy.{Copied, memcpy-Copied}
use waddle_os.Loader.{Firmware, sectors_curr, load_loop, load_sector}

-- `load_sector_asm` (boot1.S) on a disk whose byte `k` is `disk k`. It compares the number of the
-- sector, which is 16 bits wide, as a signed one: for a sector from 12 to 2^15 - 1 and 1 to 24
-- sectors these go to the buffer. Besides it writes to memory of the loader's own, from `own` up to
-- `own_end`: the numbers to its disk address packet, and what it saves to its stack. `Intact` is what
-- it needs there, such as the other fields of the packet, and leaves there.
pub record ReadsDisk (fw : Firmware) (disk : ℕ → ℕ) (own own_end : ℕ) (Intact : Memory → Type 0)
    : Type 0 where
  pub inside :
      (s n i : ℕ) (m : Memory)
      → Intact m
      → 12 ≤ s
      → s < 2 ^ 15
      → 0 < n
      → n ≤ 24
      → i < n * 512
      → fw.load_sector_asm s n m (0x8000 + i) ≡ disk (s * 512 + i)
  pub outside :
      (s n a : ℕ) (m : Memory)
      → Intact m
      → 12 ≤ s
      → s < 2 ^ 15
      → 0 < n
      → n ≤ 24
      → (a < 0x8000) ⊎ (0x8000 + n * 512 ≤ a)
      → (a < own) ⊎ (own_end ≤ a)
      → fw.load_sector_asm s n m a ≡ m a
  pub stays :
      (s n : ℕ) (m : Memory)
      → Intact m
      → 12 ≤ s
      → s < 2 ^ 15
      → 0 < n
      → n ≤ 24
      → Intact (fw.load_sector_asm s n m)
  pub local :
      (m m' : Memory) → ((a : ℕ) → own ≤ a → a < own_end → m' a ≡ m a) → Intact m → Intact m'

-- `m'` holds at `address` the sectors from `sector` on, `num` of them, and is `m` elsewhere but in
-- the buffer of 24 sectors and the loader's own memory.
pub record Loaded (disk : ℕ → ℕ) (own own_end sector num address : ℕ) (m m' : Memory) : Type 0 where
  pub inside : (i : ℕ) → i < num * 512 → m' (address + i) ≡ disk (sector * 512 + i)
  pub outside :
      (a : ℕ)
      → (a < address) ⊎ (address + num * 512 ≤ a)
      → (a < 0x8000) ⊎ (0xB000 ≤ a)
      → (a < own) ⊎ (own_end ≤ a)
      → m' a ≡ m a

module _ (fw : Firmware) (disk : ℕ → ℕ) (own own_end : ℕ) (Intact : Memory → Type 0)
    (reads : ReadsDisk fw disk own own_end Intact) where
  -- One round, and the rest of the sectors behind it.
  Loaded-round :
      (sector curr rest address : ℕ) (m m' : Memory)
      → Intact m
      → 12 ≤ sector
      → sector < 2 ^ 15
      → 0 < curr
      → curr ≤ 24
      → (address + (curr + rest) * 512 ≤ 0x8000) ⊎ (0xB000 ≤ address)
      → (address + (curr + rest) * 512 ≤ own) ⊎ (own_end ≤ address)
      → Loaded disk own own_end
          (sector + curr)
          rest
          (address + curr * 512)
          (memcpy address 0x8000 (curr * 512) (fw.load_sector_asm sector curr m))
          m'
      → Loaded disk own own_end sector (curr + rest) address m m'
  Loaded-round sector curr rest address m m' intact low below some_sectors small apart off later =
      record {
        inside = λ i h. elim (dec_lt i (curr * 512)) [
          | yes now ↦
              later.outside (address + i) (inl (omega arith)) (ground arith) (ground arith)
              ∙ copied.inside i (address + i) (0x8000 + i) now refl refl
              ∙ reads.inside sector curr i m intact low below some_sectors small now
          | no then_ ↦
              let at : address + curr * 512 + (i - curr * 512) ≡ address + i = omega arith in
              let from : (sector + curr) * 512 + (i - curr * 512) ≡ sector * 512 + i =
                omega arith in
              ap m' (sym at) ∙ later.inside (i - curr * 512) (omega arith) ∙ ap disk from
        ];
        outside = λ a out buffer away.
            later.outside a (ground arith) buffer away
            ∙ copied.outside a (ground arith)
            ∙ reads.outside sector curr a m intact low below some_sectors small (ground arith) away;
      }
    where
      copied :
          Copied
            (fw.load_sector_asm sector curr m)
            (memcpy address 0x8000 (curr * 512) (fw.load_sector_asm sector curr m))
            address
            0x8000
            (curr * 512)
      copied =
          memcpy-Copied address 0x8000 (curr * 512) (fw.load_sector_asm sector curr m)
            (ground arith)

  -- The memory behind a round is as intact as before it.
  Intact-round :
      (sector curr address : ℕ) (m : Memory)
      → Intact m
      → 12 ≤ sector
      → sector < 2 ^ 15
      → 0 < curr
      → curr ≤ 24
      → (address + curr * 512 ≤ 0x8000) ⊎ (0xB000 ≤ address)
      → (address + curr * 512 ≤ own) ⊎ (own_end ≤ address)
      → Intact (memcpy address 0x8000 (curr * 512) (fw.load_sector_asm sector curr m))
  Intact-round sector curr address m intact low below some_sectors small apart off =
      let loaded = fw.load_sector_asm sector curr m in
      let copied = memcpy-Copied address 0x8000 (curr * 512) loaded (ground arith) in
      reads.local loaded (memcpy address 0x8000 (curr * 512) loaded)
        (λ a from to. copied.outside a (ground arith))
        (reads.stays sector curr m intact low below some_sectors small)

  Loaded-nothing : (sector address : ℕ) (m : Memory) → Loaded disk own own_end sector 0 address m m
  Loaded-nothing sector address m = record {
    inside = λ i h. absurd (omega arith);
    outside = λ a h buffer away. refl;
  }

  load_loop-suc :
      (fuel sector num address : ℕ) (m m' : Memory)
      → let curr = sectors_curr (suc num) in
        u16 (sector + curr) ≡ sector + curr
        → u32 (address + curr * 512) ≡ address + curr * 512
        → load_loop fuel fw
            (sector + curr)
            (suc num - curr)
            (address + curr * 512)
            (memcpy address 0x8000 (curr * 512) (fw.load_sector_asm sector curr m))
          ≡ ok m'
        → load_loop (suc fuel) fw sector (suc num) address m ≡ ok m'
  unfolding load_loop
  load_loop-suc fuel sector num address m m' next target e =
      let more : (suc num == 0) ≡ false = ground arith in rw (more, next, target) e

  load_loop-Loaded :
      (fuel sector num address : ℕ) (m : Memory)
      → num ≤ fuel
      → Intact m
      → 12 ≤ sector
      → sector + num ≤ 2 ^ 15
      → address + num * 512 < 2 ^ 32
      → (address + num * 512 ≤ 0x8000) ⊎ (0xB000 ≤ address)
      → (address + num * 512 ≤ own) ⊎ (own_end ≤ address)
      → (m' : Memory) × (load_loop fuel fw sector num address m ≡ ok m')
        × Loaded disk own own_end sector num address m m'
  unfolding load_loop
  load_loop-Loaded zero sector zero address m enough intact low last top apart off =
      (m, refl, Loaded-nothing sector address m)
  load_loop-Loaded (suc fuel) sector zero address m enough intact low last top apart off =
      (m, refl, Loaded-nothing sector address m)
  load_loop-Loaded zero sector (suc num) address m enough intact low last top apart off =
      absurd (omega arith)
  load_loop-Loaded (suc fuel) sector (suc num) address m enough intact low last top apart off =
      let curr = sectors_curr (suc num) in
      let some_sectors : 0 < curr = ground arith in
      let small : curr ≤ 24 = ground arith in
      let within : curr ≤ suc num = ground arith in
      let left = suc num - curr in
      let whole : curr + left ≡ suc num = omega arith in
      let next : u16 (sector + curr) ≡ sector + curr = omega arith in
      let target : u32 (address + curr * 512) ≡ address + curr * 512 = omega arith in
      let (m', e, later) =
        load_loop-Loaded fuel (sector + curr) left (address + curr * 512)
          (memcpy address 0x8000 (curr * 512) (fw.load_sector_asm sector curr m)) (omega arith)
          (Intact-round sector curr address m intact low (omega arith) some_sectors small
            (ground arith) (ground arith))
          (omega arith) (omega arith) (omega arith) (ground arith) (ground arith) in
      (
        m',
        load_loop-suc fuel sector num address m m' next target e,
        subst (λ n. Loaded disk own own_end sector n address m m') whole
            (Loaded-round sector curr left address m m' intact low (omega arith) some_sectors small
              (ground arith) (ground arith) later),
      )

  -- Where `load_sector_asm` reads the disk for the sectors 12 to 2^15 - 1 as long as the loader's own
  -- memory is intact, and it is at first, `load_sector` of any of these ends normally: the target holds the `num` sectors of the disk, in order, and no byte is
  -- written but there, in the buffer and in the loader's own memory. The target is 32-bit and
  -- overlaps neither the buffer nor the loader's own memory.
  pub load_sector-Loaded :
      (sector num address : ℕ) (m : Memory)
      → Intact m
      → 12 ≤ sector
      → sector + num ≤ 2 ^ 15
      → address + num * 512 < 2 ^ 32
      → (address + num * 512 ≤ 0x8000) ⊎ (0xB000 ≤ address)
      → (address + num * 512 ≤ own) ⊎ (own_end ≤ address)
      → (m' : Memory) × (load_sector fw sector num address m ≡ ok m')
        × Loaded disk own own_end sector num address m m'
  unfolding load_sector
  load_sector-Loaded sector num address m intact low last top apart off =
      load_loop-Loaded num sector num address m (omega arith) intact low last top apart off
