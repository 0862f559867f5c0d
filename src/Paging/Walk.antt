-- ===== src/Paging/Walk.antt =====
-- What the processor makes of the page tables that `paging_map_page` writes.
use waddle_os.Base.{
  ℕ, ◌+◌, ◌*◌, ◌/◌, ◌%◌, ◌^◌, ◌≤◌, ◌<◌, ◌≡◌, refl, ◌≢◌, ◌∙◌, sym, ◌⊎◌, ap, false, ◌==◌,
  if◌then◌else◌, Option, none, some, ok, arith, ne→==,
}
use waddle_os.Base.Word.{u64, ◌<<<◌}
use waddle_os.Memory.{Memory, read_field, write_field}
use waddle_os.Memory.Fields.{read_field-disjoint, read_field-write_field}
use waddle_os.Paging.{get_bits, base_pos, base_len, present_pos, k_ptov}
use waddle_os.Paging.Fields.{get_bits-quotient}
use waddle_os.Paging.Pools.{Pools}
use waddle_os.Paging.Tables.{
  entry_for, with_entry, pde_init, pte_init, map_page, entry_for-get_bits, entry_for-top,
}

-- The processor's view, after the architecture and apart from the macros of paging.h: bit 0 of an
-- entry says that it is present, and the bits 12 to 51 are the number of the page that it leads to.
-- The table there is read through the higher half.
abbrev pub present : Memory → ℕ → ℕ
present m entry = read_field 8 m entry % 2

abbrev pub frame_of : Memory → ℕ → ℕ
frame_of m entry = read_field 8 m entry / 2 ^ 12 % 2 ^ 40

abbrev pub next_table : Memory → ℕ → ℕ
next_table m entry = (frame_of m entry * 4096 + 0xFFFFFFFF80000000) % 2 ^ 64

-- The index of 9 bits at a place of a virtual address.
abbrev pub index_at : ℕ → ℕ → ℕ
index_at pos vaddr = vaddr / 2 ^ pos % 2 ^ 9

-- The entries on the way to a virtual address, by level.
abbrev pub entry4 : ℕ → ℕ → ℕ
entry4 pml4 vaddr = (pml4 + 8 * index_at 39 vaddr) % 2 ^ 64

abbrev pub entry3 : Memory → ℕ → ℕ → ℕ
entry3 m pml4 vaddr = (next_table m (entry4 pml4 vaddr) + 8 * index_at 30 vaddr) % 2 ^ 64

abbrev pub entry2 : Memory → ℕ → ℕ → ℕ
entry2 m pml4 vaddr = (next_table m (entry3 m pml4 vaddr) + 8 * index_at 21 vaddr) % 2 ^ 64

abbrev pub entry1 : Memory → ℕ → ℕ → ℕ
entry1 m pml4 vaddr = (next_table m (entry2 m pml4 vaddr) + 8 * index_at 12 vaddr) % 2 ^ 64

-- The physical address that a virtual one is mapped to.
abbrev pub walk : Memory → ℕ → ℕ → Option ℕ
walk m pml4 vaddr =
    if present m (entry4 pml4 vaddr) == 0
    then none
    else if present m (entry3 m pml4 vaddr) == 0
    then none
    else if present m (entry2 m pml4 vaddr) == 0
    then none
    else if present m (entry1 m pml4 vaddr) == 0
    then none
    else some (frame_of m (entry1 m pml4 vaddr) * 4096 + vaddr % 4096)

-- The three upper levels are there, and lead to tables below 2^51.
pub record HasTables (m : Memory) (pml4 vaddr : ℕ) : Type 0 where
  pub level4 : present m (entry4 pml4 vaddr) ≢ 0
  pub level3 : present m (entry3 m pml4 vaddr) ≢ 0
  pub level2 : present m (entry2 m pml4 vaddr) ≢ 0
  pub low4 : frame_of m (entry4 pml4 vaddr) < 2 ^ 39
  pub low3 : frame_of m (entry3 m pml4 vaddr) < 2 ^ 39
  pub low2 : frame_of m (entry2 m pml4 vaddr) < 2 ^ 39

-- Two entries that do not overlap.
abbrev pub Disjoint : ℕ → ℕ → Type 0
Disjoint e e' = (e + 8 ≤ e') ⊎ (e' + 8 ≤ e)

-- An entry's address is away from the upper entries on the way to a virtual address.
pub record OffPath (m : Memory) (pml4 vaddr entry : ℕ) : Type 0 where
  pub level4 : Disjoint (entry4 pml4 vaddr) entry
  pub level3 : Disjoint (entry3 m pml4 vaddr) entry
  pub level2 : Disjoint (entry2 m pml4 vaddr) entry

pde_init-present :
    (entry : ℕ) (user : _) (s : Pools)
    → present s.mem entry ≢ 0
    → frame_of s.mem entry < 2 ^ 39
    → pde_init entry user s ≡ ok (next_table s.mem entry, s)
unfolding pde_init
pde_init-present entry user s real low =
    let old = read_field 8 s.mem entry in
    let there : get_bits old present_pos 1 ≡ present s.mem entry =
      get_bits-quotient old present_pos 1 ∙ omega arith in
    let base : get_bits old base_pos base_len ≡ frame_of s.mem entry =
      get_bits-quotient old base_pos base_len ∙ omega (arith, low) in
    let table : k_ptov (u64 (frame_of s.mem entry <<< 12)) ≡ next_table s.mem entry = omega arith in
    rw (there, ne→== (present s.mem entry) 0 real, base) (ap (λ a. ok (a, s)) table)

-- What the processor reads in the entry for a page below 2^51.
entry_for-read :
    (paddr : ℕ)
    → paddr < 2 ^ 51
    → (u64 (entry_for paddr false) % 2 ≡ 1)
      × (u64 (entry_for paddr false) / 2 ^ 12 % 2 ^ 40 ≡ paddr / 4096)
entry_for-read paddr small =
    let v = entry_for paddr false in
    let (base, there, _, _) = entry_for-get_bits paddr false small in
    let b : v / 2 ^ 12 % 2 ^ 39 ≡ paddr / 4096 = sym (get_bits-quotient v 12 39) ∙ base in
    let p : v / 2 ^ 0 % 2 ^ 1 ≡ 1 = sym (get_bits-quotient v 0 1) ∙ there in
    let top : v / 2 ^ 51 % 2 ^ 1 ≡ 0 = sym (get_bits-quotient v 51 1) ∙ entry_for-top paddr false in
    (omega arith, omega arith)

map_page-runs :
    (pml4 vaddr paddr : ℕ) (s : Pools)
    → HasTables s.mem pml4 vaddr
    → map_page pml4 vaddr paddr s
      ≡ ok (with_entry (entry1 s.mem pml4 vaddr) (entry_for paddr false) s)
unfolding map_page pte_init
map_page-runs pml4 vaddr paddr s has =
    rw
      (
        pde_init-present (entry4 pml4 vaddr) false s has.level4 has.low4,
        pde_init-present (entry3 s.mem pml4 vaddr) false s has.level3 has.low3,
        pde_init-present (entry2 s.mem pml4 vaddr) false s has.level2 has.low2,
      )
      refl

-- The path to a virtual address when its upper entries read as before.
module _ (m m' : Memory) (pml4 vaddr : ℕ)
    (same4 : read_field 8 m' (entry4 pml4 vaddr) ≡ read_field 8 m (entry4 pml4 vaddr))
    (same3 : read_field 8 m' (entry3 m pml4 vaddr) ≡ read_field 8 m (entry3 m pml4 vaddr))
    (same2 : read_field 8 m' (entry2 m pml4 vaddr) ≡ read_field 8 m (entry2 m pml4 vaddr)) where
  abbrev table_of : ℕ → ℕ
  table_of field = (field / 2 ^ 12 % 2 ^ 40 * 4096 + 0xFFFFFFFF80000000) % 2 ^ 64

  entry3-same : entry3 m' pml4 vaddr ≡ entry3 m pml4 vaddr
  entry3-same = ap (λ f. (table_of f + 8 * index_at 30 vaddr) % 2 ^ 64) same4

  read3-same : read_field 8 m' (entry3 m' pml4 vaddr) ≡ read_field 8 m (entry3 m pml4 vaddr)
  read3-same = ap (read_field 8 m') entry3-same ∙ same3

  entry2-same : entry2 m' pml4 vaddr ≡ entry2 m pml4 vaddr
  entry2-same = ap (λ f. (table_of f + 8 * index_at 21 vaddr) % 2 ^ 64) read3-same

  read2-same : read_field 8 m' (entry2 m' pml4 vaddr) ≡ read_field 8 m (entry2 m pml4 vaddr)
  read2-same = ap (read_field 8 m') entry2-same ∙ same2

  entry1-same : entry1 m' pml4 vaddr ≡ entry1 m pml4 vaddr
  entry1-same = ap (λ f. (table_of f + 8 * index_at 12 vaddr) % 2 ^ 64) read2-same

  -- The walk from the contents of the four entries.
  abbrev walk_fields : ℕ → ℕ → ℕ → ℕ → Option ℕ
  walk_fields f4 f3 f2 f1 =
      if f4 % 2 == 0
      then none
      else if f3 % 2 == 0
      then none
      else if f2 % 2 == 0
      then none
      else if f1 % 2 == 0
      then none
      else some (f1 / 2 ^ 12 % 2 ^ 40 * 4096 + vaddr % 4096)

  walk-field :
      (f1 : ℕ)
      → read_field 8 m' (entry1 m pml4 vaddr) ≡ f1
      → walk m' pml4 vaddr
        ≡ walk_fields
            (read_field 8 m (entry4 pml4 vaddr))
            (read_field 8 m (entry3 m pml4 vaddr))
            (read_field 8 m (entry2 m pml4 vaddr))
            f1
  walk-field f1 e =
      ap
        (λ f.
          walk_fields f (read_field 8 m' (entry3 m' pml4 vaddr))
            (read_field 8 m' (entry2 m' pml4 vaddr)) (read_field 8 m' (entry1 m' pml4 vaddr)))
        same4
      ∙ ap
          (λ f.
            walk_fields (read_field 8 m (entry4 pml4 vaddr)) f
              (read_field 8 m' (entry2 m' pml4 vaddr)) (read_field 8 m' (entry1 m' pml4 vaddr)))
          read3-same
      ∙ ap
          (λ f.
            walk_fields (read_field 8 m (entry4 pml4 vaddr)) (read_field 8 m (entry3 m pml4 vaddr))
              f (read_field 8 m' (entry1 m' pml4 vaddr)))
          read2-same
      ∙ ap
          (walk_fields (read_field 8 m (entry4 pml4 vaddr)) (read_field 8 m (entry3 m pml4 vaddr))
            (read_field 8 m (entry2 m pml4 vaddr)))
          (ap (read_field 8 m') entry1-same ∙ e)

-- A new entry on the path to no other address.
walk-OffPath :
    (m : Memory) (pml4 vaddr entry v : ℕ)
    → OffPath m pml4 vaddr entry
    → Disjoint (entry1 m pml4 vaddr) entry
    → walk (write_field 8 m entry v) pml4 vaddr ≡ walk m pml4 vaddr
walk-OffPath m pml4 vaddr entry v off apart =
    walk-field m (write_field 8 m entry v) pml4 vaddr
      (read_field-disjoint 8 8 m entry (entry4 pml4 vaddr) v off.level4)
      (read_field-disjoint 8 8 m entry (entry3 m pml4 vaddr) v off.level3)
      (read_field-disjoint 8 8 m entry (entry2 m pml4 vaddr) v off.level2)
      (read_field 8 m (entry1 m pml4 vaddr))
      (read_field-disjoint 8 8 m entry (entry1 m pml4 vaddr) v apart)

-- The address's own last entry.
walk-entry_for :
    (m : Memory) (pml4 vaddr paddr : ℕ)
    → HasTables m pml4 vaddr
    → OffPath m pml4 vaddr (entry1 m pml4 vaddr)
    → paddr < 2 ^ 51
    → walk (write_field 8 m (entry1 m pml4 vaddr) (entry_for paddr false)) pml4 vaddr
      ≡ some (paddr / 4096 * 4096 + vaddr % 4096)
walk-entry_for m pml4 vaddr paddr has off small =
    let e = entry1 m pml4 vaddr in
    let v = entry_for paddr false in
    let (there, base) = entry_for-read paddr small in
    walk-field m (write_field 8 m e v) pml4 vaddr
      (read_field-disjoint 8 8 m e (entry4 pml4 vaddr) v off.level4)
      (read_field-disjoint 8 8 m e (entry3 m pml4 vaddr) v off.level3)
      (read_field-disjoint 8 8 m e (entry2 m pml4 vaddr) v off.level2) (u64 v)
      (read_field-write_field 8 m e v)
    ∙ rw
        (
          ne→== (present m (entry4 pml4 vaddr)) 0 has.level4,
          ne→== (present m (entry3 m pml4 vaddr)) 0 has.level3,
          ne→== (present m (entry2 m pml4 vaddr)) 0 has.level2,
          there,
          base,
        )
        refl

-- Where the tables of the three upper levels are there, below 2^51, `paging_map_page` of a physical
-- address below 2^51 ends normally. Then the processor, which goes from the top level down by 9 bits
-- of the virtual address at a time, finds the physical page at the virtual address, if its last entry
-- overlaps none of the three others on the way; and what it finds at every virtual address whose four
-- entries do not overlap the one that was written is what it was before.
pub map_page-walk :
    (pml4 vaddr paddr : ℕ) (s : Pools)
    → HasTables s.mem pml4 vaddr
    → OffPath s.mem pml4 vaddr (entry1 s.mem pml4 vaddr)
    → paddr < 2 ^ 51
    → (s' : Pools) × (map_page pml4 vaddr paddr s ≡ ok s')
      × (walk s'.mem pml4 vaddr ≡ some (paddr / 4096 * 4096 + vaddr % 4096))
      × ((other : ℕ)
          → OffPath s.mem pml4 other (entry1 s.mem pml4 vaddr)
          → Disjoint (entry1 s.mem pml4 other) (entry1 s.mem pml4 vaddr)
          → walk s'.mem pml4 other ≡ walk s.mem pml4 other)
map_page-walk pml4 vaddr paddr s has off small = (
  _,
  map_page-runs pml4 vaddr paddr s has,
  walk-entry_for s.mem pml4 vaddr paddr has off small,
  λ other off' apart.
      walk-OffPath s.mem pml4 other (entry1 s.mem pml4 vaddr) (entry_for paddr false) off' apart,
)
