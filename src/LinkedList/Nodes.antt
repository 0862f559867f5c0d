-- ===== src/LinkedList/Nodes.antt =====
-- The memory of the list code, and the commands that read and write it.
use waddle_os.Base.{
  ℕ, ◌+◌, ltb, ◌≡◌, refl, ◌≢◌, ne→==, Bool, true, false, ◌==◌, if◌then◌else◌, Outcome, and_then, ok,
  halt, fault,
}

-- `list_head_t`. `len` is an int that no operation makes negative; `grow_len` bounds it above.
pub record Head : Type 0 where
  pub first : ℕ
  pub len : ℕ

-- `struct list_elem`, whose field `head` is the list that it is in.
pub record Elem : Type 0 where
  pub owner : ℕ
  pub prev : ℕ
  pub next : ℕ

pub record Store : Type 0 where
  pub heads : ℕ → Head
  pub elems : ℕ → Elem

abbrev pub Cmd : Type 0 → Type 0
Cmd A = Store → Outcome (A × Store)

abbrev pub pure : {A : Type 0} → A → Cmd A
pure a s = ok (a, s)

infixl 5 ◌>>=◌ ◌>>◌
abbrev pub ◌>>=◌ : {A B : Type 0} → Cmd A → (A → Cmd B) → Cmd B
◌>>=◌ m f s = and_then (m s) f

abbrev pub ◌>>◌ : {A B : Type 0} → Cmd A → Cmd B → Cmd B
m >> k = m >>= λ _. k

abbrev pub assert : Bool → Cmd (Unit {0})
assert true s = ok (tt, s)
assert false s = halt

abbrev pub update {ℓ} : {A : Type ℓ} → (ℕ → A) → ℕ → A → ℕ → A
update f p v q = if q == p then v else f q

unfoldable pub load : ℕ → Cmd Elem
load p s = if p == 0 then fault else ok (s.elems p, s)

unfoldable pub load_head : ℕ → Cmd Head
load_head h s = if h == 0 then fault else ok (s.heads h, s)

unfoldable pub store : ℕ → (Elem → Elem) → Cmd (Unit {0})
store p f s =
    if p == 0 then fault else ok (tt, record s { elems = update s.elems p (f (s.elems p)) })

unfoldable pub store_head : ℕ → (Head → Head) → Cmd (Unit {0})
store_head h f s =
    if h == 0 then fault else ok (tt, record s { heads = update s.heads h (f (s.heads h)) })

abbrev pub set_next : ℕ → ℕ → Cmd (Unit {0})
set_next p v = store p (λ e. record e { next = v })

abbrev pub set_prev : ℕ → ℕ → Cmd (Unit {0})
set_prev p v = store p (λ e. record e { prev = v })

abbrev pub set_owner : ℕ → ℕ → Cmd (Unit {0})
set_owner p v = store p (λ e. record e { owner = v })

abbrev pub set_first : ℕ → ℕ → Cmd (Unit {0})
set_first h v = store_head h (λ r. record r { first = v })

abbrev pub set_len : ℕ → ℕ → Cmd (Unit {0})
set_len h v = store_head h (λ r. record r { len = v })

abbrev pub int_max : ℕ
int_max = 2147483647

-- `head->len++` on the length `len`. Behind the greatest int the overflow is undefined: a fault.
abbrev pub grow_len : ℕ → ℕ → Cmd (Unit {0})
grow_len h len = if ltb len int_max then set_len h (len + 1) else (λ s. fault)

-- Away from NULL the accesses succeed.
module _ {p : ℕ} (real : p ≢ 0) where
  pub load-ok : (s : Store) → load p s ≡ ok (s.elems p, s)
  unfolding load
  load-ok s = rw (ne→== p 0 real) refl

  pub load_head-ok : (s : Store) → load_head p s ≡ ok (s.heads p, s)
  unfolding load_head
  load_head-ok s = rw (ne→== p 0 real) refl

  pub store-ok :
      (f : Elem → Elem) (s : Store)
      → store p f s ≡ ok (tt, record s { elems = update s.elems p (f (s.elems p)) })
  unfolding store
  store-ok f s = rw (ne→== p 0 real) refl

  pub store_head-ok :
      (f : Head → Head) (s : Store)
      → store_head p f s ≡ ok (tt, record s { heads = update s.heads p (f (s.heads p)) })
  unfolding store_head
  store_head-ok f s = rw (ne→== p 0 real) refl
