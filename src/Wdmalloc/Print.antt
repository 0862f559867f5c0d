-- ===== src/Wdmalloc/Print.antt =====
-- `wd_print_heap_state` of kernel/mem/wdmalloc.c, which test builds have: the lines that it prints.
use waddle_os.Base.{
  ℕ, zero, suc, ◌+◌, Bool, true, false, not, ◌&&◌, ◌==◌, ltb, if◌then◌else◌, List, [], ◌∷◌, Option,
  none, some,
}
use waddle_os.Base.Word.{u16, u64}
use waddle_os.Wdmalloc.{
  Cmd, pure, ◌>>=◌, get, spin_here, prev_sz, sz, lom, hdr_size, magic, add_ptr, sub_ptr, in_heap,
  is_free, actual_size, list_fuel,
}

-- What a line says of a block: the link of a free one, and whether an allocated one has its magic
-- number.
pub data Contents : Type 0 where
  next_link : ℕ → Contents
  magic_ok : Bool → Contents

-- The line of a block, with the size before it that was expected and the one found if they differ.
pub record BlockLine : Type 0 where
  pub number : ℕ
  pub address : ℕ
  pub offset : ℕ
  pub before : ℕ
  pub bytes : ℕ
  pub contents : Contents
  pub mismatch : Option (ℕ × ℕ)

-- The line of an element of the free list, and its two warnings.
pub record ListLine : Type 0 where
  pub number : ℕ
  pub address : ℕ
  pub bytes : ℕ
  pub next : ℕ
  pub alloc_bit_set : Bool
  pub out_of_heap : Bool

-- What is printed: the heap's size, the lines, and whether a block without bytes ended the walk.
pub record Report : Type 0 where
  pub total : ℕ
  pub blocks : List BlockLine
  pub zero_size : Bool
  pub free_list : List ListLine

-- `printf` of one block's line.
unfoldable pub block_line : ℕ → ℕ → ℕ → Cmd BlockLine
block_line curr block offset = do
  before ← prev_sz curr
  s ← sz curr
  link ← lom curr
  found ← sz (sub_ptr (sub_ptr curr before) hdr_size)
  let expected = u16 (actual_size found)
  pure (record {
    number = block;
    address = curr;
    offset = offset;
    before = before;
    bytes = u16 (actual_size s);
    contents = if is_free s then next_link link else magic_ok (link == magic);
    mismatch = if ltb 0 offset && not (expected == before) then some (expected, before) else none;
  })

-- The first loop: a line for every block, by where the blocks lie.
unfoldable pub block_lines : ℕ → ℕ → ℕ → ℕ → Cmd (List BlockLine × Bool)
block_lines zero curr block offset = spin_here
block_lines (suc fuel) curr block offset = do
  w ← get
  if not (in_heap w curr) then pure ([], false) else (do
    line ← block_line curr block offset
    let step = hdr_size + line.bytes
    if step == hdr_size then pure (line ∷ [], true) else (do
      (rest, stopped) ← block_lines fuel (add_ptr curr step) (block + 1) (u64 (offset + step))
      pure (line ∷ rest, stopped)))

unfoldable pub list_line : ℕ → ℕ → Cmd ListLine
list_line f number = do
  s ← sz f
  next ← lom f
  w ← get
  pure (record {
    number = number;
    address = f;
    bytes = actual_size s;
    next = next;
    alloc_bit_set = not (is_free s);
    out_of_heap = not (in_heap w f);
  })

-- The second loop: a line for every element of the free list, up to one outside the heap.
unfoldable pub list_lines : ℕ → ℕ → ℕ → Cmd (List ListLine)
list_lines zero f number = spin_here
list_lines (suc fuel) f number = if f == 0 then pure [] else (do
  line ← list_line f number
  if line.out_of_heap
      then pure (line ∷ [])
      else (do rest ← list_lines fuel line.next (number + 1); pure (line ∷ rest)))

-- `wd_print_heap_state`
unfoldable pub print_heap_state : Cmd Report
print_heap_state = do
  w ← get
  (blocks, stopped) ← block_lines (list_fuel w) w.heap_start 0 0
  free_list ← list_lines (list_fuel w) w.freelist_head 0
  pure (record { total = w.heap_size; blocks = blocks; zero_size = stopped; free_list = free_list })
