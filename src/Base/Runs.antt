-- ===== src/Base/Runs.antt =====
-- How a run of C code ends. `ASSERT` (kernel: lib/utils.h) spins on `hlt` when its condition is
-- false, so the code behind it never runs.
use mathlib.Core.Bool.{Bool, true, false}
use mathlib.Core.Option.{Option, none, some}

-- `halt` is an ASSERT that failed, `fault` a memory access outside the modelled object, and `spin`
-- a loop that has used up its fuel.
pub data Outcome {ℓ} (A : Type ℓ) : Type ℓ where
  ok : A → Outcome A
  halt : Outcome A
  fault : Outcome A
  spin : Outcome A

infixl 5 ◌>>=◌ ◌>>◌
-- A run that has stopped stays as it is.
abbrev pub ◌>>=◌ {ℓ} : {S T : Type ℓ} → Outcome S → (S → Outcome T) → Outcome T
halt >>= next = halt
fault >>= next = fault
spin >>= next = spin
ok result >>= next = next result

abbrev pub ◌>>◌ : {T : Type 0} → Outcome (Unit {0}) → Outcome T → Outcome T
first >> rest = first >>= λ _. rest

abbrev pub assert : Bool → Outcome (Unit {0})
assert true = ok tt
assert false = halt

-- The bind of a command: the result and the state of a run that ended go to the next command.
abbrev pub and_then : {A S B : Type 0} → Outcome (A × S) → (A → S → Outcome B) → Outcome B
and_then (ok (a, s)) f = f a s
and_then halt f = halt
and_then fault f = fault
and_then spin f = spin

-- A read or write through an index outside an array.
abbrev pub in_bounds {ℓ} : {A : Type ℓ} → Option A → Outcome A
in_bounds none = fault
in_bounds (some a) = ok a
