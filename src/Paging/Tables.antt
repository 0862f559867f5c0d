-- ===== src/Paging/Tables.antt =====
-- The page tables: `pde_init`, `pte_init`, `paging_map_page` and `page_tables_init`. A table is
-- reached through the higher half, and its entries have 8 bytes.
use waddle_os.Base.{
  ℕ, zero, suc, ◌+◌, ◌*◌, ◌/◌, ◌%◌, ◌^◌, ◌<◌, ◌≡◌, refl, inr, Bool, true, false, ◌==◌,
  if◌then◌else◌, Outcome, ok, ◌>>=◌, arith,
}
use waddle_os.Base.Word.{u64, ◌<<<◌, ◌>>>◌}
use waddle_os.Memory.{read_field, write_field}
use waddle_os.Paging.{
  get_bits, set_bits, pml4_ofs, pml3_ofs, pml2_ofs, pml1_ofs, base_pos, base_len, us_pos, rw_pos,
  present_pos, page_size, k_ptov, k_vtop,
}
use waddle_os.Paging.Fields.{get_bits-set_bits, get_bits-frame, get_bits-quotient}
use waddle_os.Paging.Pools.{Pools, palloc_zero, get_page}

abbrev pub bit : Bool → ℕ
bit true = 1
bit false = 0

-- The entry that `pde_init` and `pte_init` build on a cleared one.
unfoldable pub entry_for : ℕ → Bool → ℕ
entry_for phys_addr allow_user_access =
    set_bits
      (set_bits
        (set_bits (set_bits 0 base_pos base_len (phys_addr >>> 12)) us_pos 1
          (bit allow_user_access))
        rw_pos 1 1)
      present_pos 1 1

abbrev pub with_entry : ℕ → ℕ → Pools → Pools
with_entry entry v s = record s { mem = write_field 8 s.mem entry v }

-- `pde_init` of the entry at an address; it returns the virtual address of the next table.
unfoldable pub pde_init : ℕ → Bool → Pools → Outcome (ℕ × Pools)
unfolding entry_for
pde_init entry allow_user_access s =
    let old = read_field 8 s.mem entry in
    if get_bits old present_pos 1 == 0
    then (do
      (v_base, s') ← get_page palloc_zero s
      ok (v_base, with_entry entry (entry_for (k_vtop v_base) allow_user_access) s'))
    else ok (k_ptov (u64 (get_bits old base_pos base_len <<< 12)), s)

-- `pte_init`
unfoldable pub pte_init : ℕ → ℕ → Bool → Pools → Pools
unfolding entry_for
pte_init entry phys_addr allow_user_access s =
    with_entry entry (entry_for phys_addr allow_user_access) s

-- `paging_map_page`
unfoldable pub map_page : (init_pml4 vaddr paddr : ℕ) → Pools → Outcome Pools
unfolding pde_init pte_init
map_page init_pml4 vaddr paddr s = do
  (pml3, s₁) ← pde_init (u64 (init_pml4 + 8 * pml4_ofs vaddr)) false s
  (pml2, s₂) ← pde_init (u64 (pml3 + 8 * pml3_ofs vaddr)) false s₁
  (pml1, s₃) ← pde_init (u64 (pml2 + 8 * pml2_ofs vaddr)) false s₂
  ok (pte_init (u64 (pml1 + 8 * pml1_ofs vaddr)) paddr false s₃)

-- The loop of `page_tables_init`, from page number `page` on.
pub map_all : ℕ → ℕ → ℕ → Pools → Outcome Pools
unfolding map_page
map_all init_pml4 zero page s = ok s
map_all init_pml4 (suc rounds) page s = do
  let phys_addr = u64 (page * page_size)
  mapped ← map_page init_pml4 (k_ptov phys_addr) phys_addr s
  map_all init_pml4 rounds (page + 1) mapped

-- `page_tables_init`; the last result is the value that it loads into CR3.
pub tables_init : ℕ → Pools → Outcome (ℕ × Pools × ℕ)
unfolding map_all
tables_init pool_pages_total s = do
  (init_pml4, s') ← get_page palloc_zero s
  mapped ← map_all init_pml4 pool_pages_total 0 s'
  ok (init_pml4, mapped, k_vtop init_pml4)

bit-small : (b : Bool) → bit b % 2 ^ 1 ≡ bit b
bit-small true = refl
bit-small false = refl

-- The entry that is built for a page below 2^51 has the page's number in its address field, is
-- present and writable, and is open to user code if and only if that was asked for.
pub entry_for-get_bits :
    (phys_addr : ℕ) (user : Bool)
    → phys_addr < 2 ^ 51
    → (get_bits (entry_for phys_addr user) base_pos base_len ≡ phys_addr / 4096)
      × (get_bits (entry_for phys_addr user) present_pos 1 ≡ 1)
      × (get_bits (entry_for phys_addr user) rw_pos 1 ≡ 1)
      × (get_bits (entry_for phys_addr user) us_pos 1 ≡ bit user)
unfolding entry_for
entry_for-get_bits phys_addr user h =
    let e₁ = set_bits 0 base_pos base_len (phys_addr >>> 12) in
    let e₂ = set_bits e₁ us_pos 1 (bit user) in
    let e₃ = set_bits e₂ rw_pos 1 1 in
    (
      rw
          (
            get_bits-frame e₃ present_pos 1 1 base_pos base_len (omega arith) (inr (omega arith)),
            get_bits-frame e₂ rw_pos 1 1 base_pos base_len (omega arith) (inr (omega arith)),
            get_bits-frame e₁ us_pos 1 (bit user) base_pos base_len (omega arith)
                (inr (omega arith)),
            get_bits-set_bits 0 base_pos base_len (phys_addr >>> 12) (omega arith),
          )
          (omega arith),
      get_bits-set_bits e₃ present_pos 1 1 (omega arith),
      rw
          (
            get_bits-frame e₃ present_pos 1 1 rw_pos 1 (omega arith) (inr (omega arith)),
            get_bits-set_bits e₂ rw_pos 1 1 (omega arith),
          )
          refl,
      rw
          (
            get_bits-frame e₃ present_pos 1 1 us_pos 1 (omega arith) (inr (omega arith)),
            get_bits-frame e₂ rw_pos 1 1 us_pos 1 (omega arith) (inr (omega arith)),
            get_bits-set_bits e₁ us_pos 1 (bit user) (omega arith),
          )
          (bit-small user),
    )

-- The bit above its address field stays clear.
pub entry_for-top : (phys_addr : ℕ) (user : Bool) → get_bits (entry_for phys_addr user) 51 1 ≡ 0
unfolding entry_for
entry_for-top phys_addr user =
    let e₁ = set_bits 0 base_pos base_len (phys_addr >>> 12) in
    let e₂ = set_bits e₁ us_pos 1 (bit user) in
    let e₃ = set_bits e₂ rw_pos 1 1 in
    rw
      (
        get_bits-frame e₃ present_pos 1 1 51 1 (omega arith) (inr (omega arith)),
        get_bits-frame e₂ rw_pos 1 1 51 1 (omega arith) (inr (omega arith)),
        get_bits-frame e₁ us_pos 1 (bit user) 51 1 (omega arith) (inr (omega arith)),
        get_bits-frame 0 base_pos base_len (phys_addr >>> 12) 51 1 (omega arith)
            (inr (omega arith)),
        get_bits-quotient 0 51 1,
      )
      refl
