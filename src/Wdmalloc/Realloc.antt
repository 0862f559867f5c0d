-- ===== src/Wdmalloc/Realloc.antt =====
-- `wdrealloc` of kernel/mem/wdmalloc.c.
use waddle_os.Base.{
  ℕ, zero, suc, ◌+◌, ◌-◌, ◌^◌, not, ◌&&◌, ◌||◌, bit_or, ◌==◌, ltb, leb, if◌then◌else◌, Option, none,
  some, ok,
}
use waddle_os.Base.Word.{u16, u64}
use waddle_os.Memory.{memmove}
use waddle_os.Wdmalloc.Monad.{
  Cmd, pure, ◌>>=◌, ◌>>◌, get, spin_here, when, prev_sz, sz, lom, set_prev_sz, set_sz, set_lom,
  set_freelist_head,
}
use waddle_os.Wdmalloc.{
  is_free, actual_size, alloc_bit, magic, hdr_size, add_ptr, sub_ptr, in_heap, uninitialised,
  list_fuel, wdmalloc,
}
use waddle_os.Wdmalloc.Free.{if_in_heap, coalesce, wdfree}

-- The scenarios of `wdrealloc` for a larger size: the bytes at hand, the first header of the joined
-- area and the two entries of `remove`; `none` where space has to be found elsewhere.
pub record Area : Type 0 where
  pub bytes_avail : ℕ
  pub start : ℕ
  pub remove_0 : ℕ
  pub remove_1 : ℕ

pub choose_area : ℕ → ℕ → ℕ → ℕ → Cmd (Option Area)
choose_area size hdr prev_nghbr next_nghbr = do
  s ← sz hdr
  let here = actual_size s
  ns ← if next_nghbr == 0 then pure 0 else sz next_nghbr
  ps ← if prev_nghbr == 0 then pure 0 else sz prev_nghbr
  let next_free = not (next_nghbr == 0) && is_free ns
  let prev_free = not (prev_nghbr == 0) && is_free ps
  let with_next = ns + hdr_size + here
  let with_prev = ps + hdr_size + here
  let with_both = ps + hdr_size + here + hdr_size + ns
  if next_free && leb size with_next
      then pure (some (area (u16 with_next) hdr next_nghbr 0))
      else if prev_free && leb size with_prev
      then pure (some (area (u16 with_prev) prev_nghbr prev_nghbr 0))
      else if (next_free && prev_free) && leb size with_both
      then pure (some (area (u16 with_both) prev_nghbr prev_nghbr next_nghbr))
      else pure none
  where
    area : ℕ → ℕ → ℕ → ℕ → Area
    area b st r0 r1 = record { bytes_avail = b; start = st; remove_0 = r0; remove_1 = r1 }

-- The loop that takes the entries of `remove` off the free list.
pub remove_loop : ℕ → ℕ → ℕ → ℕ → ℕ → Cmd (Unit {0})
remove_loop zero remove_0 remove_1 curr prev = spin_here
remove_loop (suc fuel) remove_0 remove_1 curr prev =
    if curr == 0
    then pure tt
    else (if (curr == remove_0) || (curr == remove_1)
        then (do
          next ← lom curr
          when (not (prev == 0)) (set_lom prev next)
          w ← get
          next' ← lom curr
          when (curr == w.freelist_head) (set_freelist_head next')
          next'' ← lom curr
          remove_loop fuel remove_0 remove_1 next'' prev)
        else (do next ← lom curr; remove_loop fuel remove_0 remove_1 next curr))

-- `memmove((void *)to, from, n)` on the state.
abbrev pub move_bytes : ℕ → ℕ → ℕ → Cmd (Unit {0})
move_bytes to from n w = ok (tt, record w { mem = memmove to from n w.mem })

-- The block at `start` takes the whole area, or leaves a free block behind its `size` bytes.
pub place : ℕ → ℕ → ℕ → ℕ → ℕ → Cmd ℕ
place size ptr hdr start bytes_avail =
    if leb (hdr_size + 4) (u64 (bytes_avail + 2 ^ 64 - size))
    then (do
      set_sz start (bit_or size alloc_bit)
      set_lom start magic
      s ← sz hdr
      move_bytes (add_ptr start hdr_size) ptr (actual_size s)
      let split_loc = add_ptr start (hdr_size + size)
      set_sz split_loc (u16 (bytes_avail - size - hdr_size))
      set_prev_sz split_loc size
      w ← get
      set_lom split_loc w.freelist_head
      set_freelist_head split_loc
      rest ← sz split_loc
      let after_split = add_ptr split_loc (hdr_size + rest)
      when (in_heap w after_split) (do r ← sz split_loc; set_prev_sz after_split r)
      pure (add_ptr start hdr_size))
    else (do
      set_sz start (bit_or bytes_avail alloc_bit)
      set_lom start magic
      s ← sz start
      let after = add_ptr start (hdr_size + actual_size s)
      w ← get
      when (in_heap w after) (set_prev_sz after bytes_avail)
      s' ← sz hdr
      move_bytes (add_ptr start hdr_size) ptr (actual_size s')
      pure (add_ptr start hdr_size))

-- The branch of `wdrealloc` for a larger size.
pub grow : ℕ → ℕ → ℕ → Cmd ℕ
grow size ptr hdr = do
  w ← get
  ps ← prev_sz hdr
  s ← sz hdr
  let prev_nghbr = if_in_heap w (sub_ptr (sub_ptr hdr ps) hdr_size)
  let next_nghbr = if_in_heap w (add_ptr hdr (hdr_size + actual_size s))
  choice ← choose_area size hdr prev_nghbr next_nghbr
  elim choice [
    | some a ↦ do
      remove_loop (list_fuel w) a.remove_0 a.remove_1 w.freelist_head 0
      place size ptr hdr a.start a.bytes_avail
    | none ↦ do
      new_loc ← wdmalloc size
      if new_loc == 0
          then pure 0
          else (do s' ← sz hdr; move_bytes new_loc ptr (actual_size s'); wdfree ptr; pure new_loc)
  ]

-- The branch of `wdrealloc` for a smaller size.
pub shrink : ℕ → ℕ → ℕ → ℕ → Cmd ℕ
shrink size ptr hdr bytes_avail =
    if size == 0
    then (do wdfree ptr; pure 0)
    else if ltb (bytes_avail - size) (hdr_size + 4)
    then pure ptr
    else (do
      set_sz hdr (bit_or size alloc_bit)
      let split_loc = add_ptr hdr (hdr_size + size)
      set_prev_sz split_loc size
      set_sz split_loc (bytes_avail - hdr_size - size)
      set_lom split_loc 0
      coalesce split_loc
      rest ← sz split_loc
      let after_split = add_ptr split_loc (hdr_size + rest)
      w ← get
      when (in_heap w after_split) (do r ← sz split_loc; set_prev_sz after_split r)
      pure ptr)

-- `wdrealloc`
pub wdrealloc : ℕ → ℕ → Cmd ℕ
wdrealloc ptr size = do
  w ← get
  if uninitialised w
      then pure 0
      else (if ptr == 0 then wdmalloc size else (do
        let hdr = sub_ptr ptr hdr_size
        s ← sz hdr
        let here = actual_size s
        if size == here
            then pure ptr
            else if ltb here size
            then grow size ptr hdr
            else shrink size ptr hdr here))
