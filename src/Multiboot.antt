-- ===== src/Multiboot.antt =====
-- kernel/drivers/multiboot_parser.c: the search of the boot information for a tag. A tag begins
-- with its type and its size, of 4 bytes each.
use waddle_os.Base.{
  ℕ, zero, suc, ◌+◌, ◌*◌, ◌/◌, ◌%◌, ◌^◌, ◌≤◌, ◌<◌, ◌≡◌, refl, ◌≢◌, ◌==◌, if◌then◌else◌, List, [],
  ◌∷◌, length, Outcome, ok, spin, ne→==, eq→==, arith, Bool-cases, inl, inr,
}
use waddle_os.Base.Word.{u64}
use waddle_os.Memory.{Memory, read_field}

-- `type` and `size` of a `struct multiboot_tag`.
abbrev pub tag_type : Memory → ℕ → ℕ
tag_type m tag = read_field 4 m tag

abbrev pub tag_size : Memory → ℕ → ℕ
tag_size m tag = read_field 4 m (tag + 4)

-- The next tag, aligned to 8 bytes.
abbrev pub next_tag : Memory → ℕ → ℕ
next_tag m tag = u64 (tag + tag_size m tag + 7) / 8 * 8

-- The loop of `multiboot_get_tag`, on fuel.
pub find_tag : ℕ → Memory → ℕ → ℕ → Outcome ℕ
find_tag zero m wanted tag = spin
find_tag (suc fuel) m wanted tag =
    let rest = find_tag fuel m wanted (next_tag m tag) in
    if tag_type m tag == 0 then ok 0 else if tag_type m tag == wanted then ok tag else rest

-- `multiboot_get_tag`; `mboot_tags` is the address that the boot code has stored.
pub get_tag : ℕ → Memory → ℕ → ℕ → Outcome ℕ
get_tag fuel m mboot_tags wanted = find_tag fuel m wanted (mboot_tags + 8)

-- The tag behind `tag`, by the layout of the boot information: at the least multiple of 8 that is not
-- below the end of `tag`, all below 2^64.
pub record IsBehind (m : Memory) (tag behind : ℕ) : Type 0 where
  pub aligned : behind % 8 ≡ 0
  pub above : tag + tag_size m tag ≤ behind
  pub least : behind < tag + tag_size m tag + 8
  pub fits : tag + tag_size m tag + 8 ≤ 2 ^ 64

-- The tags from `tag` on stand at the addresses `ts`, with an end tag behind them.
abbrev pub Tags : Memory → ℕ → List ℕ → Type 0
Tags m tag [] = tag_type m tag ≡ 0
Tags m tag (t ∷ ts) =
    (tag ≡ t) × (tag_type m t ≢ 0) × (behind : ℕ) × IsBehind m t behind × Tags m behind ts

next_tag-IsBehind : (m : Memory) (tag behind : ℕ) → IsBehind m tag behind → next_tag m tag ≡ behind
next_tag-IsBehind m tag behind b = omega (arith, b.aligned, b.above, b.least, b.fits)

-- The first tag of a type among `ts`, or NULL.
abbrev pub first_tag : Memory → ℕ → List ℕ → ℕ
first_tag m wanted [] = 0
first_tag m wanted (t ∷ ts) = if tag_type m t == wanted then t else first_tag m wanted ts

find_tag-first_tag :
    (fuel : ℕ) (m : Memory) (wanted tag : ℕ) (ts : List ℕ)
    → Tags m tag ts
    → length ts < fuel
    → find_tag fuel m wanted tag ≡ ok (first_tag m wanted ts)
unfolding find_tag
find_tag-first_tag zero m wanted tag ts tags h = absurd (omega arith)
find_tag-first_tag (suc fuel) m wanted tag [] tags h = rw (eq→== (tag_type m tag) 0 tags) refl
find_tag-first_tag (suc fuel) m wanted tag (t ∷ ts) (e, real, behind, b, tags) h =
    rw (e, ne→== (tag_type m t) 0 real)
      (elim (Bool-cases (tag_type m t == wanted)) [
        | inl here ↦ rw here refl
        | inr further ↦
            rw (further, next_tag-IsBehind m t behind b)
              (find_tag-first_tag fuel m wanted behind ts tags (omega arith))
      ])

-- Where the tags `ts` stand one behind the other, each at the least multiple of 8 not below the end
-- of the one before, with an end tag behind them and all below 2^64, `multiboot_get_tag` returns the
-- first tag of the type it is asked for, or NULL if there is none; one round for each tag and one
-- for the end are enough.
pub get_tag-first_tag :
    (fuel : ℕ) (m : Memory) (mboot_tags wanted : ℕ) (ts : List ℕ)
    → Tags m (mboot_tags + 8) ts
    → length ts < fuel
    → get_tag fuel m mboot_tags wanted ≡ ok (first_tag m wanted ts)
unfolding get_tag
get_tag-first_tag fuel m mboot_tags wanted ts tags h =
    find_tag-first_tag fuel m wanted (mboot_tags + 8) ts tags h
