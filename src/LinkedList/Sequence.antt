-- ===== src/LinkedList/Sequence.antt =====
-- Sequences, and what the operations of list.c do to them: the abstract view of a list.
use waddle_os.Base.{
  ℕ, zero, suc, ◌≤◌, ◌<◌, ◌≡◌, refl, ap, Bool, true, not, ◌&&◌, ltb, leb, List, [], ◌∷◌, ◌++◌,
  length, get_or, arith,
}
use waddle_os.LinkedList.Nodes.{int_max}
use waddle_os.LinkedList.Ring.{has, last}

-- The operations of list.c that change a list, with their arguments.
pub data Op : Type 0 where
  op_push op_push_first : (new : ℕ) → Op
  op_pop op_pop_first : Op
  op_insert : (new index : ℕ) → Op
  op_remove : (index : ℕ) → Op

abbrev pub take : ℕ → List ℕ → List ℕ
take zero xs = []
take (suc n) [] = []
take (suc n) (x ∷ xs) = x ∷ take n xs

abbrev pub drop : ℕ → List ℕ → List ℕ
drop zero xs = xs
drop (suc n) [] = []
drop (suc n) (x ∷ xs) = drop n xs

abbrev pub init_of : ℕ → List ℕ → List ℕ
init_of x [] = []
init_of x (y ∷ ys) = x ∷ init_of y ys

abbrev pub but_last : List ℕ → List ℕ
but_last [] = []
but_last (x ∷ xs) = init_of x xs

-- The sequence behind an operation.
abbrev pub after : Op → List ℕ → List ℕ
after (op_push new) xs = xs ++ (new ∷ [])
after (op_push_first new) xs = new ∷ xs
after op_pop xs = but_last xs
after op_pop_first xs = drop 1 xs
after (op_insert new index) xs = take index xs ++ (new ∷ drop index xs)
after (op_remove index) xs = take index xs ++ drop (suc index) xs

-- The operations that a sequence allows, with elements from `pool`: an element that is put in is not
-- in the sequence, which is shorter than the greatest int, and an index is in its range.
abbrev pub allowed : List ℕ → Op → List ℕ → Bool
allowed pool (op_push new) xs = ltb (length xs) int_max && (has new pool && not (has new xs))
allowed pool (op_push_first new) xs = ltb (length xs) int_max && (has new pool && not (has new xs))
allowed pool op_pop xs = ltb 0 (length xs)
allowed pool op_pop_first xs = ltb 0 (length xs)
allowed pool (op_insert new index) xs =
    ltb (length xs) int_max && (leb index (length xs) && (has new pool && not (has new xs)))
allowed pool (op_remove index) xs = ltb index (length xs)

abbrev pub after_all : List Op → List ℕ → List ℕ
after_all [] xs = xs
after_all (op ∷ ops) xs = after_all ops (after op xs)

abbrev pub allowed_all : List ℕ → List Op → List ℕ → Bool
allowed_all pool [] xs = true
allowed_all pool (op ∷ ops) xs = allowed pool op xs && allowed_all pool ops (after op xs)

pub take-drop : (n : ℕ) (xs : List ℕ) → take n xs ++ drop n xs ≡ xs
take-drop zero xs = refl
take-drop (suc n) [] = refl
take-drop (suc n) (x ∷ xs) = ap (λ l. x ∷ l) (take-drop n xs)

pub length-take : (n : ℕ) (xs : List ℕ) → n ≤ length xs → length (take n xs) ≡ n
length-take zero xs h = refl
length-take (suc n) [] h = absurd (omega arith)
length-take (suc n) (x ∷ xs) h = ap suc (length-take n xs (omega arith))

pub take-get_or-drop :
    (n : ℕ) (xs : List ℕ) → n < length xs → take n xs ++ (get_or xs n 0 ∷ drop (suc n) xs) ≡ xs
take-get_or-drop n [] h = absurd (omega arith)
take-get_or-drop zero (x ∷ xs) h = refl
take-get_or-drop (suc n) (x ∷ xs) h = ap (λ l. x ∷ l) (take-get_or-drop n xs (omega arith))

pub init_of-last : (x : ℕ) (xs : List ℕ) → init_of x xs ++ (last x xs ∷ []) ≡ x ∷ xs
init_of-last x [] = refl
init_of-last x (y ∷ ys) = ap (λ l. x ∷ l) (init_of-last y ys)
