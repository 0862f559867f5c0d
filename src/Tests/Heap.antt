-- ===== src/Tests/Heap.antt =====
-- The allocator, the memory routines, the task block and the boot tags at concrete inputs.
use waddle_os.Base.{
  ℕ, true, false, ◌+◌, ◌-◌, ◌%◌, ◌^◌, ◌≤◌, ◌<◌, ◌≡◌, refl, ◌⊎◌, inl, inr, ◌==◌, if◌then◌else◌, [],
  ◌∷◌, ◌++◌, ok, arith,
}
use waddle_os.Memory.{Memory, memmove, read_field}
use waddle_os.Memory.Copy.{Copied, memmove-Copied, memmove_overlap}
use waddle_os.Wdmalloc.{Wd, init, wdmalloc}
use waddle_os.Wdmalloc.Free.{wdfree}
use waddle_os.Wdmalloc.Limits.{OneBlock, laid_out, laid_out-OneBlock, init-unusable, init-laid_out}
use waddle_os.LinkedList.Ring.{has}
use waddle_os.Wdmalloc.Blocks.{free, used, extent, IsHeap}
use waddle_os.Wdmalloc.Split.{split_heap, split_heap-IsHeap}
use waddle_os.Wdmalloc.Carve.{wdmalloc-split_state}
use waddle_os.Wdmalloc.Malloc.{TooSmall, Served, wdmalloc-Served}
use waddle_os.Wdmalloc.Heap.{Kept}
use waddle_os.Wdmalloc.Release.{release, wdfree-release}
use waddle_os.Wdmalloc.Reached.{Reached, initialised, allocated, Sound, laid_out-IsHeap}
use waddle_os.Wdmalloc.Print.{print_heap_state}
use waddle_os.Wdmalloc.Dump.{lines_of, listing, print_heap_state-lines_of}
use waddle_os.Wdmalloc.Restore.{wdfree-wdmalloc}
use waddle_os.Wdmalloc.Safety.{Reached-safe}
use waddle_os.Wdmalloc.Lowest.{Lowest}
use waddle_os.Wdmalloc.Undo.{alloc_free, alloc_free-Lowest, laid_out-Lowest}
use waddle_os.Sched.{running, task_init, task_magic, state_code, task_init-fields}
use waddle_os.Multiboot.{Tags, get_tag, get_tag-first_tag}

abbrev zeroes : Memory
zeroes a = 0

-- Byte `a` holds the low byte of `a`.
abbrev ramp : Memory
ramp a = a % 256

-- A heap of 100 bytes at 4096, of which 88 can be given out.
abbrev heap : Wd
heap = laid_out zeroes 4096 100

heap-OneBlock : OneBlock heap 4096 100 88
heap-OneBlock = laid_out-OneBlock zeroes 4096 100 (omega arith)

heap-IsHeap : IsHeap heap 4096 100 (free 88 ∷ [])
heap-IsHeap =
    laid_out-IsHeap zeroes 4096 100 (ground arith) (omega arith) (omega arith) (omega arith)

-- The heap behind the allocation of 20 bytes, which lie at 4176.
abbrev carved : Wd
carved = split_heap heap 4096 100 [] 88 [] 4096 20 heap-IsHeap refl (omega arith)

carved-IsHeap : IsHeap carved 4096 100 (free 56 ∷ used 20 ∷ [])
carved-IsHeap = split_heap-IsHeap heap 4096 100 [] 88 [] 4096 20 heap-IsHeap refl (omega arith)

wdmalloc-carved : wdmalloc 20 heap ≡ ok (4176, carved)
wdmalloc-carved =
    wdmalloc-split_state heap 4096 100 88 20 heap-OneBlock (ground arith) (omega arith)
      (omega arith) (omega arith) (omega arith)

carved-Reached : Reached 4096 100 carved (4176 ∷ [])
carved-Reached =
    allocated heap carved [] 20 4176
      (initialised zeroes heap heap (init-laid_out zeroes 4096 100 heap (omega arith)))
      wdmalloc-carved (ground arith)

Reached-safe_example :
    Sound carved 4096 100 (4176 ∷ [])
    × ((n : ℕ)
        → (p : ℕ) × (w' : Wd) × (wdmalloc n carved ≡ ok (p, w')) × (has p (4176 ∷ []) ≡ false))
    × ((p : ℕ) → has p (4176 ∷ []) ≡ true → (w' : Wd) × (wdfree p carved ≡ ok (tt, w')))
Reached-safe_example =
    Reached-safe 4096 100 (ground arith) (omega arith) (omega arith) (omega arith) carved
      (4176 ∷ []) carved-Reached

wdmalloc-Served_example :
    (TooSmall (free 56 ∷ used 20 ∷ []) 50 × (wdmalloc 50 carved ≡ ok (0, carved)))
    ⊎ Served carved 4096 100 (free 56 ∷ used 20 ∷ []) 50
wdmalloc-Served_example = wdmalloc-Served carved 4096 100 (free 56 ∷ used 20 ∷ []) 50 carved-IsHeap

wdfree-release_example :
    (w' : Wd) × (wdfree (4096 + extent (free 56 ∷ []) + 12) carved ≡ ok (tt, w'))
    × IsHeap w' 4096 100 (release (free 56 ∷ []) 20 [])
    × Kept 4096 100 ((free 56 ∷ []) ++ (free 20 ∷ [])) carved.mem w'.mem
wdfree-release_example =
    wdfree-release carved 4096 100 (free 56 ∷ []) 20 [] carved-IsHeap (ground arith) (omega arith)

wdfree-wdmalloc_example :
    (w : Wd) × (wdfree 4176 carved ≡ ok (tt, w)) × IsHeap w 4096 100 (free 88 ∷ [])
wdfree-wdmalloc_example =
    wdfree-wdmalloc heap carved 4096 100 20 4176 (free 88 ∷ []) heap-IsHeap refl wdmalloc-carved
      (ground arith) (omega arith) (ground arith)

print_heap_state-lines_of_example :
    let (lines, stopped) = lines_of carved.mem 4096 0 0 0 (free 56 ∷ used 20 ∷ []) in
    print_heap_state carved
    ≡ ok (
      record {
        total = 100;
        blocks = lines;
        zero_size = stopped;
        free_list = listing carved.mem 0 carved-IsHeap.free_list;
      },
      carved,
    )
print_heap_state-lines_of_example =
    print_heap_state-lines_of carved 4096 100 (free 56 ∷ used 20 ∷ []) carved-IsHeap

-- Three allocations, and what frees them.
alloc_free-Lowest_example :
    (w' : Wd) × (alloc_free (20 ∷ 3 ∷ 17 ∷ []) heap ≡ ok (tt, w'))
    × Lowest w' 4096 100 88
    × ((a : ℕ) → (a < 4096) ⊎ (4198 ≤ a) → w'.mem a ≡ heap.mem a)
alloc_free-Lowest_example =
    alloc_free-Lowest 4096 100 (ground arith) (omega arith) (20 ∷ 3 ∷ 17 ∷ []) heap 88
      (laid_out-Lowest zeroes 4096 100 (omega arith) (omega arith))
      (omega arith, (omega arith, (omega arith, tt))) (omega arith) (omega arith) (omega arith)

-- The size that `kernel_main` passes.
init-unusable_example :
    (w : Wd) × (init zeroes 4096 40960 heap ≡ ok (tt, w)) × ((n : ℕ) → wdmalloc n w ≡ ok (0, w))
init-unusable_example =
    init-unusable zeroes 4096 40960 heap (ground arith) (omega arith) (omega arith)

memmove-Copied_example : Copied ramp (memmove 10 12 8 ramp) 10 12 8
memmove-Copied_example = memmove-Copied 10 12 8 ramp (inl (omega arith))

memmove_overlap_example : memmove 12 10 8 ramp (12 + 5) ≡ ramp (10 + 5 % (12 - 10))
memmove_overlap_example = memmove_overlap 12 10 8 ramp (omega arith) (omega arith) 5 (omega arith)

task_init-fields_example :
    let s' = task_init 4096 16 running (record { mem = ramp; next_tid = 7 }) in
    (read_field 4 s'.mem (4096 + 24) ≡ task_magic)
    × (read_field 2 s'.mem (4096 + 16) ≡ 7 % 2 ^ 16)
    × (read_field 4 s'.mem (4096 + 20) ≡ state_code running)
    × ((i : ℕ) → i < 16 → s'.mem (4096 + i) ≡ ramp (16 + i))
    × (s'.next_tid ≡ (7 + 1) % 2 ^ 32)
    × ((a : ℕ) → (a < 4096) ⊎ (4096 + 28 ≤ a) → s'.mem a ≡ ramp a)
task_init-fields_example =
    task_init-fields 4096 16 running (record { mem = ramp; next_tid = 7 }) (inr (omega arith))

-- A tag of type 4 and size 13 at 8, one of type 6 and size 8 at 24, and the end tag behind it.
abbrev boot : Memory
boot a =
    if a == 8 then 4 else if a == 12 then 13 else if a == 24 then 6 else if a == 28 then 8 else 0

boot-Tags : Tags boot 8 (8 ∷ 24 ∷ [])
unfolding read_field
boot-Tags = (
  refl,
  (λ e. ground (arith, e)),
  24,
  record { aligned = refl; above = omega arith; least = omega arith; fits = omega arith },
  (
    refl,
    (λ e. ground (arith, e)),
    32,
    record { aligned = refl; above = omega arith; least = omega arith; fits = omega arith },
    refl,
  ),
)

get_tag-first_tag_example : get_tag 3 boot 0 6 ≡ ok 24
unfolding read_field
get_tag-first_tag_example = get_tag-first_tag 3 boot 0 6 (8 ∷ 24 ∷ []) boot-Tags (omega arith)
