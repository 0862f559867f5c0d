-- ===== src/Paging/Alloc.antt =====
-- What `paging_get_pages` returns, marks and clears. The bitmaps are values apart from the memory.
use waddle_os.Base.{
  ℕ, ◌+◌, ◌-◌, ◌*◌, ◌%◌, ◌^◌, ◌≤◌, ◌<◌, ◌≡◌, ◌⊎◌, true, false, ◌&&◌, ltb, leb, if◌then◌else◌, ok,
}
use waddle_os.Base.Word.{u64}
use waddle_os.Memory.{Memory, memset}
use waddle_os.Bitmap.{Bitmap, get_bit}
use waddle_os.Bitmap.View.{IsValid}
use waddle_os.Bitmap.Search.{Run}
use waddle_os.Paging.{page_size}
use waddle_os.Paging.Pools.{
  Pool, Pools, pool_of, with_pool, flag, palloc_user, palloc_zero, get_pages,
}

-- The pool that `flags` does not select.
abbrev pub other_of : ℕ → Pools → Pool
other_of flags s = if flag flags palloc_user then s.kernel_pool else s.user_pool

-- All but the memory and the allocation bitmap of the selected pool is as before.
pub record SameRest (flags : ℕ) (s s' : Pools) : Type 0 where
  pub pinned_bmp : (pool_of flags s').pinned_bmp ≡ (pool_of flags s).pinned_bmp
  pub md_base : (pool_of flags s').md_base ≡ (pool_of flags s).md_base
  pub page_base : (pool_of flags s').page_base ≡ (pool_of flags s).page_base
  pub other : other_of flags s' ≡ other_of flags s

-- The `n` bytes from `p` on are 0 if `flags` asks for it; every other byte is as before, and all
-- bytes are if it does not.
pub record ZeroedIfAsked (flags p n : ℕ) (m m' : Memory) : Type 0 where
  pub inside : flag flags palloc_zero ≡ true → (a : ℕ) → p ≤ a → a < p + n → m' a ≡ 0
  pub outside : (a : ℕ) → (a < p) ⊎ (p + n ≤ a) → m' a ≡ m a
  pub kept : flag flags palloc_zero ≡ false → (a : ℕ) → m' a ≡ m a

-- The result `p` of a request for `num` pages from the pool that `flags` selects. The run of pages
-- that is granted was free, and after it exactly these pages are marked as
-- well.
pub data Allocated (num flags : ℕ) (s : Pools) (p : ℕ) (s' : Pools) : Type 0 where
  none_free :
      p ≡ 0
      → ((k : ℕ)
          → k + num ≤ (pool_of flags s).allocated_bmp.size
          → ¬ Run (pool_of flags s).allocated_bmp false k num)
      → (pool_of flags s').allocated_bmp ≡ (pool_of flags s).allocated_bmp
      → SameRest flags s s'
      → s'.mem ≡ s.mem
      → Allocated num flags s p s'
  granted :
      (w : ℕ) (b : Bitmap)
      → p ≡ ((pool_of flags s).page_base + w * page_size) % 2 ^ 64
      → w + num ≤ (pool_of flags s).allocated_bmp.size
      → Run (pool_of flags s).allocated_bmp false w num
      → (pool_of flags s').allocated_bmp ≡ b
      → IsValid b
      → b.size ≡ (pool_of flags s).allocated_bmp.size
      → ((j : ℕ)
          → j < (pool_of flags s).allocated_bmp.size
          → get_bit b j ≡ (
              if leb w j && ltb j (w + num)
              then ok true
              else get_bit (pool_of flags s).allocated_bmp j))
      → SameRest flags s s'
      → ZeroedIfAsked flags p (num * page_size) s.mem s'.mem
      → Allocated num flags s p s'

module _ (num flags : ℕ) (s : Pools) where
  abbrev pool : Pool
  pool = pool_of flags s

  -- The state behind a search that returned the bitmap `b` and the index `w`.
  abbrev after : Bitmap → Pools
  after b = with_pool flags (record pool { allocated_bmp = b }) s

  abbrev pointer : ℕ → ℕ
  pointer w = u64 (pool.page_base + w * page_size)

  abbrev behind : Bitmap → ℕ → Pools
  behind b w =
      if flag flags palloc_zero
      then record (after b) { mem = memset (pointer w) 0 (num * page_size) (after b).mem }
      else after b

  module _ (valid : IsValid pool.allocated_bmp) (pos : 0 < num)
      (room : num ≤ pool.allocated_bmp.size) where
    abbrev last : ℕ
    last = pool.allocated_bmp.size - 1

    abbrev Result : Type 0
    Result =
        (p : ℕ) × (s' : Pools) × (get_pages num flags s ≡ ok (p, s')) × Allocated num flags s p s'
