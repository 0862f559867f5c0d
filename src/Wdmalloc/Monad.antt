-- ===== src/Wdmalloc/Monad.antt =====
-- The state of kernel/mem/wdmalloc.c and the commands that read and write block headers.
use waddle_os.Base.{ℕ, ◌+◌, Bool, true, false, Outcome, and_then, ok, halt, spin}
use waddle_os.Memory.{Memory, read_field, write_field}

-- The memory, and the static variables `freelist_head`, `heap_start` and `heap_size`.
pub record Wd : Type 0 where
  pub mem : Memory
  pub freelist_head : ℕ
  pub heap_start : ℕ
  pub heap_size : ℕ

abbrev pub Cmd : Type 0 → Type 0
Cmd A = Wd → Outcome (A × Wd)

abbrev pub pure : {A : Type 0} → A → Cmd A
pure a w = ok (a, w)

infixl 5 ◌>>=◌ ◌>>◌
abbrev pub ◌>>=◌ : {A B : Type 0} → Cmd A → (A → Cmd B) → Cmd B
◌>>=◌ m f w = and_then (m w) f

abbrev pub ◌>>◌ : {B : Type 0} → Cmd (Unit {0}) → Cmd B → Cmd B
m >> k = m >>= λ _. k

abbrev pub get : Cmd Wd
get w = ok (w, w)

abbrev pub put : Wd → Cmd (Unit {0})
put w' w = ok (tt, w')

abbrev pub spin_here : {A : Type 0} → Cmd A
spin_here w = spin

abbrev pub assert : Bool → Cmd (Unit {0})
assert true w = ok (tt, w)
assert false w = halt

abbrev pub when : Bool → Cmd (Unit {0}) → Cmd (Unit {0})
when true c = c
when false c = pure tt

-- `struct wdmalloc_hdr`, packed: `prev_sz` at 0, `sz` at 2, and the union of the free list's link
-- and the magic number at 4.
abbrev pub prev_sz_at : Memory → ℕ → ℕ
prev_sz_at m p = read_field 2 m p

abbrev pub sz_at : Memory → ℕ → ℕ
sz_at m p = read_field 2 m (p + 2)

abbrev pub lom_at : Memory → ℕ → ℕ
lom_at m p = read_field 8 m (p + 4)

abbrev pub prev_sz : ℕ → Cmd ℕ
prev_sz p w = ok (prev_sz_at w.mem p, w)

abbrev pub sz : ℕ → Cmd ℕ
sz p w = ok (sz_at w.mem p, w)

abbrev pub lom : ℕ → Cmd ℕ
lom p w = ok (lom_at w.mem p, w)

abbrev pub set_prev_sz : ℕ → ℕ → Cmd (Unit {0})
set_prev_sz p v w = ok (tt, record w { mem = write_field 2 w.mem p v })

abbrev pub set_sz : ℕ → ℕ → Cmd (Unit {0})
set_sz p v w = ok (tt, record w { mem = write_field 2 w.mem (p + 2) v })

abbrev pub set_lom : ℕ → ℕ → Cmd (Unit {0})
set_lom p v w = ok (tt, record w { mem = write_field 8 w.mem (p + 4) v })

abbrev pub set_freelist_head : ℕ → Cmd (Unit {0})
set_freelist_head p w = ok (tt, record w { freelist_head = p })
