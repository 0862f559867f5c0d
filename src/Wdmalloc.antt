-- ===== src/Wdmalloc.antt =====
-- kernel/mem/wdmalloc.c: the kernel heap. Blocks with a packed header of 12 bytes tile the heap;
-- the free ones are linked through their headers. The walks along the free list run on fuel.
mod Monad
pub mod Free
pub mod Realloc
pub mod Limits
pub mod Carve
pub mod Exhaust
pub mod Apart
pub mod Sizes
pub mod Merge
pub mod Lowest
pub mod Undo
pub mod Blocks
pub mod Tiling
pub mod Around
pub mod Links
pub mod Unlink
pub mod Take
pub mod Malloc
pub mod Loose
pub mod Aside
pub mod Join
pub mod JoinPrev
pub mod FindPrev
pub mod JoinBoth
pub mod Replace
pub mod JoinNext
pub mod Neighbours
pub mod Coalesce
pub mod Release
pub mod Live
pub mod Separate
pub mod Reached
pub mod Safety
pub mod Print
pub mod Dump
pub mod Restore
pub mod Split
pub mod Heap
pub mod Search
pub use Monad.*
use waddle_os.Base.{
  ℕ, zero, suc, ◌+◌, ◌-◌, ◌*◌, ◌%◌, ◌^◌, Bool, true, false, ◌&&◌, ◌||◌, bit_and, bit_or, ◌==◌, ltb,
  leb, if◌then◌else◌,
}
use waddle_os.Base.Word.{u16, u64}
use waddle_os.Memory.{Memory}

-- `WDM_IS_FREE` and `WDM_ACTUAL_SIZE` of a size field.
abbrev pub alloc_bit : ℕ
alloc_bit = 2 ^ 15

abbrev pub magic : ℕ
magic = 0xDEADBEEFBABECAFE

pub is_free : ℕ → Bool
is_free sz = bit_and sz alloc_bit == 0

pub actual_size : ℕ → ℕ
actual_size sz = bit_and sz 0xFFFF7FFF

abbrev pub hdr_size : ℕ
hdr_size = 12

-- Pointer arithmetic on `uintptr_t`.
abbrev pub add_ptr : ℕ → ℕ → ℕ
add_ptr a b = (a + b) % 2 ^ 64

abbrev pub sub_ptr : ℕ → ℕ → ℕ
sub_ptr a b = (a + 2 ^ 64 - b) % 2 ^ 64

-- `WDM_IN_HEAP`
abbrev pub in_heap : Wd → ℕ → Bool
in_heap w p = ltb p ((w.heap_start + w.heap_size) % 2 ^ 64) && leb w.heap_start p

-- `wdmalloc_init`
pub init : Memory → ℕ → ℕ → Cmd (Unit {0})
init m start_addr size = do
  assert (ltb hdr_size size)
  put (record { mem = m; freelist_head = start_addr; heap_start = start_addr; heap_size = size })
  set_prev_sz start_addr 0
  set_sz start_addr (size - hdr_size)
  set_lom start_addr 0

-- The locals of the search in `wdmalloc`.
pub record Best : Type 0 where
  pub min : ℕ
  pub min_prev : ℕ
  pub min_sz : ℕ

abbrev pub no_best : Best
no_best = record { min = 0; min_prev = 0; min_sz = 2 ^ 16 - 1 }

-- The best fit among the free blocks from `curr` on.
pub find_best : ℕ → ℕ → ℕ → ℕ → Best → Cmd Best
find_best zero size curr prev best = spin_here
find_best (suc fuel) size curr prev best = if curr == 0 then pure best else (do
  s ← sz curr
  next ← lom curr
  let fits = is_free s && (leb size s && ltb s best.min_sz)
  find_best fuel size next curr
      (if fits then record { min = curr; min_prev = prev; min_sz = s } else best))

-- The lower part of the free block `min` stays free, the upper part is allocated.
pub split_block : ℕ → ℕ → ℕ → Cmd ℕ
split_block size min s = do
  let rest = u16 (s - size - hdr_size)
  set_sz min rest
  let new_alloc = add_ptr min (hdr_size + rest)
  set_prev_sz new_alloc rest
  set_sz new_alloc (bit_or size alloc_bit)
  set_lom new_alloc magic
  let new_alloc_adj = add_ptr new_alloc (hdr_size + size)
  w ← get
  when (in_heap w new_alloc_adj) (set_prev_sz new_alloc_adj size)
  pure (add_ptr new_alloc hdr_size)

-- The whole free block leaves the free list.
pub take_block : Best → Cmd ℕ
take_block best = do
  w ← get
  if best.min_prev == 0
      then (do next ← lom w.freelist_head; set_freelist_head next)
      else (do next ← lom best.min; set_lom best.min_prev next)
  set_lom best.min magic
  s ← sz best.min
  set_sz best.min (bit_or s alloc_bit)
  pure (add_ptr best.min hdr_size)

abbrev pub uninitialised : Wd → Bool
uninitialised w = (w.freelist_head == 0) || ((w.heap_start == 0) || (w.heap_size == 0))

-- More rounds than a free list without repetition can have.
abbrev pub list_fuel : Wd → ℕ
list_fuel w = w.heap_size + 1

-- `wdmalloc`; 0 is NULL.
pub wdmalloc : ℕ → Cmd ℕ
wdmalloc size = do
  w ← get
  if uninitialised w then pure 0 else (do
    best ← find_best (list_fuel w) size w.freelist_head 0 no_best
    if (best.min == 0) || (best.min_sz == 2 ^ 16 - 1) then pure 0 else (do
      s ← sz best.min
      if ltb size s && leb hdr_size (s - size)
          then split_block size best.min s
          else take_block best))

-- `wdcalloc`, whose product is one of `size_t`.
pub wdcalloc : ℕ → ℕ → Cmd ℕ
wdcalloc num size = do
  w ← get
  if uninitialised w
      then pure 0
      else if ltb (2 ^ 16 - 1) (u64 (num * size))
      then pure 0
      else wdmalloc (u16 (u64 (num * size)))
