-- ===== src/Tests/Lists.antt =====
-- The list theorems on a list of two elements.
use waddle_os.Base.{
  ℕ, zero, suc, ◌+◌, ◌<◌, ◌≡◌, refl, ◌≢◌, ◌==◌, if◌then◌else◌, List, [], ◌∷◌, get_or, ok, arith,
}
use waddle_os.LinkedList.Nodes.{Store, Cmd, update}
use waddle_os.LinkedList.Ring.{IsList}
use waddle_os.LinkedList.Link.{IsFresh, Inserted}
use waddle_os.LinkedList.Unlink.{Removed}
use waddle_os.LinkedList.{insert, remove, get, foreach}
use waddle_os.LinkedList.Walk.{get-get_or}
use waddle_os.LinkedList.Insert.{insert-Inserted}
use waddle_os.LinkedList.Remove.{remove-Removed}
use waddle_os.LinkedList.Sequence.{Op, op_insert, op_push_first, op_remove, op_pop}
use waddle_os.LinkedList.Refine.{Represents, exec_all, exec_all-refines}
use waddle_os.LinkedList.Each.{foreach-IsDone}

-- The list at 1 has the elements 10 and 20.
abbrev pair : Store
pair = record {
  heads = λ h. if h == 1 then record { first = 10; len = 2 } else record { first = 0; len = 0 };
  elems = λ q.
      if q == 10
      then record { owner = 1; prev = 20; next = 20 }
      else if q == 20
      then record { owner = 1; prev = 10; next = 10 }
      else record { owner = 0; prev = 0; next = 0 };
}

pair-IsList : IsList pair 1 (10 ∷ 20 ∷ [])
pair-IsList = record {
  real = ground arith;
  len = refl;
  circle = (refl, (refl, refl, (refl, refl)));
  distinct = (refl, (refl, tt));
  nonnull = refl;
  owned = λ a m. ground arith;
}

thirty-IsFresh : IsFresh pair 30 (10 ∷ 20 ∷ [])
thirty-IsFresh = record { real = ground arith; free = refl; apart = refl; room = omega arith }

get-get_or_example : get 1 1 pair ≡ ok (20, pair)
get-get_or_example = get-get_or pair 1 (10 ∷ 20 ∷ []) 1 pair-IsList (omega arith)

insert-Inserted_example :
    (s' : Store) × (insert 1 30 1 pair ≡ ok (tt, s'))
    × Inserted pair s' 1 30 (10 ∷ 20 ∷ []) (10 ∷ 30 ∷ 20 ∷ [])
insert-Inserted_example = insert-Inserted pair 1 30 (10 ∷ []) (20 ∷ []) pair-IsList thirty-IsFresh

remove-Removed_example :
    (s' : Store) × (remove 1 0 pair ≡ ok (tt, s')) × Removed pair s' 1 10 (10 ∷ 20 ∷ []) (20 ∷ [])
remove-Removed_example = remove-Removed pair 1 [] 10 (20 ∷ []) pair-IsList

pair-Represents : Represents pair 1 (10 ∷ 20 ∷ 30 ∷ 40 ∷ []) (10 ∷ 20 ∷ [])
pair-Represents = record { list = pair-IsList; nonnull = refl; free = λ a m out. ground arith }

-- Two insertions, a removal from the middle and a pop lead to 10, 30.
abbrev changes : List Op
changes = op_insert 30 1 ∷ op_push_first 40 ∷ op_remove 0 ∷ op_pop ∷ []

exec_all-refines_example :
    (s' : Store) × (exec_all 1 changes pair ≡ ok (tt, s'))
    × Represents s' 1 (10 ∷ 20 ∷ 30 ∷ 40 ∷ []) (10 ∷ 30 ∷ [])
    × ((index : ℕ) → index < 2 → get 1 index s' ≡ ok (get_or (10 ∷ 30 ∷ []) index 0, s'))
    × ((h : ℕ) → h ≢ 1 → s'.heads h ≡ pair.heads h)
exec_all-refines_example =
    exec_all-refines 1 (10 ∷ 20 ∷ 30 ∷ 40 ∷ []) changes pair (10 ∷ 20 ∷ []) pair-Represents refl

-- A callback that adds what it gets to the length of the list at 2.
abbrev add_up : ℕ → ℕ → Cmd (Unit {0})
add_up elem i s = ok (
  tt,
  record s { heads = update s.heads 2 (record (s.heads 2) { len = (s.heads 2).len + elem + i }) },
)

abbrev IsSum : ℕ → Store → Type 0
IsSum i s = (s.heads 2).len ≡ (if i == 0 then 0 else if i == 1 then 10 else 31)

add_up-IsSum :
    (i : ℕ) (t : Store)
    → i < 2
    → IsList t 1 (10 ∷ 20 ∷ [])
    → IsSum i t
    → (t' : Store) × (add_up (get_or (10 ∷ 20 ∷ []) i 0) i t ≡ ok (tt, t'))
      × IsList t' 1 (10 ∷ 20 ∷ [])
      × IsSum (suc i) t'
add_up-IsSum zero t h is done = (
  _,
  refl,
  record {
    real = is.real;
    len = is.len;
    circle = is.circle;
    distinct = is.distinct;
    nonnull = is.nonnull;
    owned = is.owned;
  },
  omega (arith, done),
)
add_up-IsSum (suc zero) t h is done = (
  _,
  refl,
  record {
    real = is.real;
    len = is.len;
    circle = is.circle;
    distinct = is.distinct;
    nonnull = is.nonnull;
    owned = is.owned;
  },
  omega (arith, done),
)
add_up-IsSum (suc (suc i)) t h is done = absurd (omega arith)

foreach-IsDone_example :
    (s' : Store) × (foreach add_up 3 1 pair ≡ ok (tt, s')) × IsList s' 1 (10 ∷ 20 ∷ []) × IsSum 2 s'
foreach-IsDone_example =
    foreach-IsDone add_up 3 1 (10 ∷ 20 ∷ []) IsSum pair add_up-IsSum (omega arith) pair-IsList refl
