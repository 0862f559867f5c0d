-- ===== src/Memory.antt =====
-- Memory as bytes by address, little-endian fields in it, and the routines of lib/string.c. A
-- pointer is its 64-bit address, and NULL is 0.
pub mod Fields
pub mod Copy
use waddle_os.Base.{
  ℕ, zero, suc, ◌+◌, ◌-◌, ◌*◌, ◌/◌, ◌%◌, ◌^◌, Bool, true, false, ◌&&◌, ◌||◌, ◌==◌, ltb, leb,
  if◌then◌else◌,
}
use waddle_os.Base.Word.{u8, u64}

abbrev pub Memory : Type 0
Memory = ℕ → ℕ

abbrev pub write_byte : Memory → ℕ → ℕ → Memory
write_byte m p v a = if a == p then v else m a

-- An unsigned field of `n` bytes at `p`.
unfoldable pub read_field : ℕ → Memory → ℕ → ℕ
read_field zero m p = 0
read_field (suc n) m p = m p % 256 + 256 * read_field n m (p + 1)

pub write_field : ℕ → Memory → ℕ → ℕ → Memory
write_field zero m p v = m
write_field (suc n) m p v = write_field n (write_byte m p (v % 256)) (p + 1) (v / 256)

-- The loop of `memmove`: from the first byte to the last, `n` of them left.
pub copy_loop : ℕ → ℕ → ℕ → Memory → Memory
copy_loop zero d s m = m
copy_loop (suc n) d s m = copy_loop n (d + 1) (s + 1) (write_byte m d (m s))

-- `memmove`, which `memcpy` calls; it returns `to`.
pub memmove : ℕ → ℕ → ℕ → Memory → Memory
unfolding copy_loop
memmove to from n m = if (to == from) || (n == 0) then m else copy_loop n to from m

pub memcpy : ℕ → ℕ → ℕ → Memory → Memory
unfolding memmove
memcpy to from n m = memmove to from n m

-- The loop of `memset`, `n` bytes left.
pub fill_loop : ℕ → ℕ → ℕ → Memory → Memory
fill_loop zero d x m = m
fill_loop (suc n) d x m = fill_loop n (d + 1) x (write_byte m d x)

-- `memset`
pub memset : ℕ → ℕ → ℕ → Memory → Memory
unfolding fill_loop
memset a x n m = fill_loop n a (x % 256) m

-- `memcmp`: whole words while they agree, then single bytes. It returns the two bytes that differ,
-- whose difference is the result, or the same byte twice.
pub compare_words : ℕ → Memory → ℕ → ℕ → ℕ → ℕ × ℕ × ℕ
compare_words zero m a b n = (a, b, n)
compare_words (suc fuel) m a b n =
    let rest = compare_words fuel m (a + 8) (b + 8) (n - 8) in
    if ltb 8 n && (read_field 8 m a == read_field 8 m b) then rest else (a, b, n)

pub compare_bytes : ℕ → Memory → ℕ → ℕ → ℕ → ℕ × ℕ
compare_bytes zero m a b n = (0, 0)
compare_bytes (suc rounds) m a b n =
    let rest = compare_bytes rounds m (a + 1) (b + 1) (n - 1) in
    if ltb 0 n then (if m a % 256 == m b % 256 then rest else (m a % 256, m b % 256)) else (0, 0)

pub memcmp : Memory → ℕ → ℕ → ℕ → ℕ × ℕ
unfolding compare_words compare_bytes read_field
memcmp m a b n =
    if n == 0
    then (0, 0)
    else let (a', b', n') = compare_words n m a b n in compare_bytes 8 m a' b' n'
