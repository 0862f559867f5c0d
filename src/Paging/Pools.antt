-- ===== src/Paging/Pools.antt =====
-- The page pools: `memory_pool_init`, `paging_get_pages` and `paging_get_page`. The bitmaps of a pool
-- are values of their own, apart from the memory of the pages. In the kernel the bitmaps of both pools
-- lie in the first pages of the kernel pool, of which only those that hold the kernel pool's own are
-- marked as taken. What is said of the bitmaps is therefore about runs in which no page is granted
-- and written that holds a bitmap.
use waddle_os.Base.{
  ℕ, zero, suc, ◌+◌, ◌-◌, ◌*◌, ◌/◌, ◌^◌, Bool, true, false, not, ltb, ◌==◌, if◌then◌else◌, bit_and,
  List, [], ◌∷◌, some, Outcome, ok, ◌>>=◌,
}
use waddle_os.Base.Word.{u64}
use waddle_os.Memory.{Memory, memset}
use waddle_os.Bitmap.{Bitmap, init_buf, set_bit, test_and_flip, uint64_max}
use waddle_os.Paging.{MmapEntry, page_size, round_up_to, k_ptov}

-- `pool_t`
pub record Pool : Type 0 where
  pub allocated_bmp : Bitmap
  pub pinned_bmp : Bitmap
  pub md_base : ℕ
  pub page_base : ℕ

-- A page is marked in both bitmaps.
pub mark_pages : ℕ → ℕ → Pool → Outcome Pool
mark_pages zero i pool = ok pool
mark_pages (suc rounds) i pool = do
  allocated ← set_bit pool.allocated_bmp i true
  pinned ← set_bit pool.pinned_bmp i true
  mark_pages rounds (i + 1) (record pool { allocated_bmp = allocated; pinned_bmp = pinned })

-- One round of the loop over the memory map.
pub mark_entry : ℕ → MmapEntry → Pool → Outcome Pool
unfolding mark_pages
mark_entry pool_pages entry pool =
    let pool_start = pool.md_base in
    let pool_end = u64 (pool_start + pool_pages * page_size) in
    let region_start = k_ptov entry.addr in
    let region_end = k_ptov (u64 (entry.addr + entry.len)) in
    let overlap_start = if ltb pool_start region_start then region_start else pool_start in
    let overlap_end = if ltb region_end pool_end then region_end else pool_end in
    let start_page = (overlap_start - pool_start) / page_size in
    let end_page = (overlap_end - pool_start) / page_size in
    if entry.type_ == 1
    then ok pool
    else if ltb overlap_start overlap_end
    then mark_pages (end_page - start_page) start_page pool
    else ok pool

pub mark_reserved : ℕ → List MmapEntry → Pool → Outcome Pool
mark_reserved pool_pages [] pool = ok pool
mark_reserved pool_pages (entry ∷ entries) pool = do
  marked ← mark_entry pool_pages entry pool
  mark_reserved pool_pages entries marked

-- `memory_pool_init`; the two lists are the words of memory at the bitmaps' buffers.
pub memory_pool_init :
    (allocated_buf pinned_buf : List ℕ) → ℕ → ℕ → ℕ → List MmapEntry → Outcome Pool
memory_pool_init allocated_buf pinned_buf pool_base page_base pool_pages entries = do
  let bmp_bytes = round_up_to pool_pages 8 / 8
  let md_pages = round_up_to (2 * bmp_bytes) page_size / page_size
  allocated ← init_buf (some allocated_buf) pool_pages
  pinned ← init_buf (some pinned_buf) pool_pages
  marked ← mark_pages md_pages 0 (record {
    allocated_bmp = allocated;
    pinned_bmp = pinned;
    md_base = pool_base;
    page_base = page_base;
  })
  mark_reserved pool_pages entries marked

-- The memory with both pools.
pub record Pools : Type 0 where
  pub mem : Memory
  pub kernel_pool : Pool
  pub user_pool : Pool

abbrev pub palloc_user : ℕ
palloc_user = 0x1

abbrev pub palloc_zero : ℕ
palloc_zero = 0x2

abbrev pub flag : ℕ → ℕ → Bool
flag flags mask = not (bit_and flags mask == 0)

abbrev pub pool_of : ℕ → Pools → Pool
pool_of flags s = if flag flags palloc_user then s.user_pool else s.kernel_pool

abbrev pub with_pool : ℕ → Pool → Pools → Pools
with_pool flags pool s =
    if flag flags palloc_user
    then record s { user_pool = pool }
    else record s { kernel_pool = pool }

-- `paging_get_pages` and `paging_get_page`; 0 is NULL.
unfoldable pub get_pages : ℕ → ℕ → Pools → Outcome (ℕ × Pools)
get_pages num_pages flags s = do
  let pool = pool_of flags s
  let bmp = pool.allocated_bmp
  (bmp', pg_ind) ← test_and_flip bmp false 0 (u64 (bmp.size + (2 ^ 64 - 1))) num_pages
  let s' = with_pool flags (record pool { allocated_bmp = bmp' }) s
  let pg_ptr = u64 (pool.page_base + pg_ind * page_size)
  let zeroed = memset pg_ptr 0 (num_pages * page_size) s'.mem
  if pg_ind == uint64_max
      then ok (0, s')
      else ok (pg_ptr, (if flag flags palloc_zero then record s' { mem = zeroed } else s'))

pub get_page : ℕ → Pools → Outcome (ℕ × Pools)
get_page flags s = get_pages 1 flags s
