-- ===== src/Tests/Pages.antt =====
-- Page pools and table entries at concrete inputs.
use waddle_os.Base.{
  if◌then◌else◌, ◌||◌, ◌==◌, some, inl, refl, ℕ, ◌/◌, ◌≡◌, true, [], ◌∷◌, List, ok, arith,
}
use waddle_os.Bitmap.{Bitmap}
use waddle_os.Paging.{get_bits, base_pos, base_len, us_pos, rw_pos, present_pos}
use waddle_os.Paging.{MmapEntry, sort_map}
use waddle_os.Paging.Sorted.{insert_all, Sorted}
use waddle_os.Paging.Sort.{sort_map-insert_all}
use mathlib.Core.List.{Perm}
use waddle_os.Memory.{Memory, read_field}
use waddle_os.Paging.Walk.{
  present, frame_of, entry4, entry3, entry2, entry1, HasTables, OffPath, Disjoint, walk,
  map_page-walk,
}
use waddle_os.Paging.Tables.{map_page, entry_for, bit, entry_for-get_bits}
use waddle_os.Paging.Pools.{Pool, Pools}

-- 64 pages, of which the first four are taken.
abbrev pages : Bitmap
pages = record { buf = 0xF ∷ []; size = 64 }

abbrev pool : Pool
pool = record {
  allocated_bmp = pages;
  pinned_bmp = pages;
  md_base = 0x200000;
  page_base = 0x200000;
}

abbrev pools : Pools
pools = record { mem = λ a. 0; kernel_pool = pool; user_pool = pool }

entry_for-get_bits_example :
    (get_bits (entry_for 0x3000 true) base_pos base_len ≡ 0x3000 / 4096)
    × (get_bits (entry_for 0x3000 true) present_pos 1 ≡ 1)
    × (get_bits (entry_for 0x3000 true) rw_pos 1 ≡ 1)
    × (get_bits (entry_for 0x3000 true) us_pos 1 ≡ bit true)
entry_for-get_bits_example = entry_for-get_bits 0x3000 true (omega arith)

-- Three regions out of order, two of which start at the same address.
abbrev regions : List MmapEntry
regions =
    record { addr = 0x100000; len = 0x1000; type_ = 1 }
    ∷ record { addr = 0; len = 0x9F000; type_ = 1 }
    ∷ record { addr = 0x100000; len = 0; type_ = 2 }
    ∷ []

sort_map-insert_all_example :
    (sort_map regions ≡ insert_all regions [])
    × Sorted (sort_map regions)
    × Perm (sort_map regions) regions
sort_map-insert_all_example = sort_map-insert_all regions

-- Tables at the physical pages 1 to 4 that lead to the virtual page of 0x5000 in the higher half.
abbrev tables : Memory
tables a =
    if (a == 0xFFFFFFFF80001FF8) || ((a == 0xFFFFFFFF80002FF0) || (a == 0xFFFFFFFF80003000))
    then 3
    else if a == 0xFFFFFFFF80001FF9
    then 0x20
    else if a == 0xFFFFFFFF80002FF1
    then 0x30
    else if a == 0xFFFFFFFF80003001
    then 0x40
    else 0

abbrev top : ℕ
top = 0xFFFFFFFF80001000

abbrev page : ℕ
page = 0xFFFFFFFF80005678

tables-levels :
    (present tables (entry4 top page) ≡ 1)
    × (present tables (entry3 tables top page) ≡ 1)
    × (present tables (entry2 tables top page) ≡ 1)
    × (frame_of tables (entry4 top page) ≡ 2)
    × (frame_of tables (entry3 tables top page) ≡ 3)
    × (frame_of tables (entry2 tables top page) ≡ 4)
unfolding get_bits read_field
tables-levels = (refl, refl, refl, refl, refl, refl)

tables-entries :
    (entry3 tables top page ≡ 0xFFFFFFFF80002FF0)
    × (entry2 tables top page ≡ 0xFFFFFFFF80003000)
    × (entry1 tables top page ≡ 0xFFFFFFFF80004028)
unfolding get_bits read_field
tables-entries = (refl, refl, refl)

tables-HasTables : HasTables tables top page
tables-HasTables = record {
  level4 = rw (tables-levels.0) (ground arith);
  level3 = rw (tables-levels.1) (ground arith);
  level2 = rw (tables-levels.2) (ground arith);
  low4 = rw (tables-levels.3) (omega arith);
  low3 = rw (tables-levels.4) (omega arith);
  low2 = rw (tables-levels.5) (omega arith);
}

tables-OffPath : OffPath tables top page (entry1 tables top page)
tables-OffPath = record {
  level4 = rw (tables-entries.2) (inl (omega arith));
  level3 = rw (tables-entries.2, tables-entries.0) (inl (omega arith));
  level2 = rw (tables-entries.2, tables-entries.1) (inl (omega arith));
}

-- The virtual page 0x5000 of the higher half at the physical page 0x9000.
map_page-walk_example :
    let s = record pools { mem = tables } in
    (s' : Pools) × (map_page top page 0x9000 s ≡ ok s')
    × (walk s'.mem top page ≡ some 0x9678)
    × ((other : ℕ)
        → OffPath tables top other (entry1 tables top page)
        → Disjoint (entry1 tables top other) (entry1 tables top page)
        → walk s'.mem top other ≡ walk tables top other)
map_page-walk_example =
    map_page-walk top page 0x9000 (record pools { mem = tables }) tables-HasTables tables-OffPath
      (omega arith)
