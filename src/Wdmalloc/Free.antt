-- ===== src/Wdmalloc/Free.antt =====
-- `coalesce` and `wdfree` of kernel/mem/wdmalloc.c.
use waddle_os.Base.{ℕ, zero, suc, ◌+◌, Bool, false, not, ◌&&◌, ◌||◌, ◌==◌, if◌then◌else◌}
use waddle_os.Base.Word.{u16}
use waddle_os.Wdmalloc.Monad.{
  Cmd, pure, ◌>>=◌, ◌>>◌, get, spin_here, assert, when, prev_sz, sz, lom, set_prev_sz, set_sz,
  set_lom, set_freelist_head, Wd,
}
use waddle_os.Wdmalloc.{
  is_free, actual_size, hdr_size, add_ptr, sub_ptr, in_heap, uninitialised, list_fuel,
}

-- The walk of `coalesce` to the node before `target`: `prev` and `curr` where it stops.
unfoldable pub find_prev : ℕ → ℕ → ℕ → ℕ → Cmd (ℕ × ℕ)
find_prev zero target curr prev = spin_here
find_prev (suc fuel) target curr prev =
    if (curr == target) || (curr == 0)
    then pure (prev, curr)
    else (do next ← lom curr; find_prev fuel target next curr)

-- A neighbour's address, or NULL if it lies outside the heap.
abbrev pub if_in_heap : Wd → ℕ → ℕ
if_in_heap w p = if in_heap w p then p else 0

-- A neighbour that is there and free.
unfoldable pub is_free_block : ℕ → Cmd Bool
is_free_block p = if p == 0 then pure false else (do s ← sz p; pure (is_free s))

unfoldable pub merge_both : ℕ → ℕ → ℕ → ℕ → Cmd (Unit {0})
merge_both hdr prev_nghbr next_nghbr next_next = do
  ps ← sz prev_nghbr
  s ← sz hdr
  ns ← sz next_nghbr
  let merged = u16 (ps + hdr_size + s + hdr_size + ns)
  set_sz prev_nghbr merged
  w ← get
  (prev, curr) ← find_prev (list_fuel w) next_nghbr w.freelist_head 0
  assert (curr == next_nghbr)
  next ← lom next_nghbr
  if prev == 0 then set_freelist_head next else set_lom prev next
  when (not (next_next == 0)) (do s' ← sz prev_nghbr; set_prev_sz next_next s')

unfoldable pub merge_prev : ℕ → ℕ → ℕ → Cmd (Unit {0})
merge_prev hdr prev_nghbr next_nghbr = do
  ps ← sz prev_nghbr
  s ← sz hdr
  let merged = u16 (ps + hdr_size + s)
  set_sz prev_nghbr merged
  when (not (next_nghbr == 0)) (set_prev_sz next_nghbr merged)

unfoldable pub merge_next : ℕ → ℕ → ℕ → Cmd (Unit {0})
merge_next hdr next_nghbr next_next = do
  s ← sz hdr
  ns ← sz next_nghbr
  let merged = u16 (s + hdr_size + ns)
  set_sz hdr merged
  next ← lom next_nghbr
  set_lom hdr next
  w ← get
  (prev, curr) ← find_prev (list_fuel w) next_nghbr w.freelist_head 0
  assert (curr == next_nghbr)
  if prev == 0 then set_freelist_head hdr else set_lom prev hdr
  when (not (next_next == 0)) (do s' ← sz hdr; set_prev_sz next_next s')

unfoldable pub add_free : ℕ → Cmd (Unit {0})
add_free hdr = do w ← get; set_freelist_head hdr; set_lom hdr w.freelist_head

-- `coalesce`
unfoldable pub coalesce : ℕ → Cmd (Unit {0})
coalesce hdr = do
  w ← get
  ps ← prev_sz hdr
  s ← sz hdr
  let prev_nghbr = if_in_heap w (sub_ptr (sub_ptr hdr ps) hdr_size)
  let next_nghbr = if_in_heap w (add_ptr hdr (hdr_size + actual_size s))
  ns ← if next_nghbr == 0 then pure 0 else sz next_nghbr
  let beyond = add_ptr next_nghbr (hdr_size + actual_size ns)
  let next_next = if_in_heap w (if next_nghbr == 0 then 0 else beyond)
  prev_free ← is_free_block prev_nghbr
  next_free ← is_free_block next_nghbr
  if prev_free && next_free
      then merge_both hdr prev_nghbr next_nghbr next_next
      else if prev_free
      then merge_prev hdr prev_nghbr next_nghbr
      else if next_free
      then merge_next hdr next_nghbr next_next
      else add_free hdr

-- `wdfree`
unfoldable pub wdfree : ℕ → Cmd (Unit {0})
wdfree ptr = do
  w ← get
  let hdr = sub_ptr ptr hdr_size
  if uninitialised w || (not (in_heap w ptr) || not (in_heap w hdr))
      then pure tt
      else (do s ← sz hdr; set_sz hdr (actual_size s); set_lom hdr 0; coalesce hdr)
