-- ===== src/LinkedList.antt =====
-- kernel/sched/list.c: the circular doubly linked list. A pointer is an address, and NULL is 0;
-- the store has the list heads and the elements by address. An access through NULL is a fault.
pub mod Nodes
pub mod Ring
pub mod Link
pub mod Push
pub mod PushFirst
pub mod Unlink
pub mod Pop
pub mod Walk
pub mod Insert
pub mod Remove
pub mod Sequence
pub mod Refine
pub mod Each
use waddle_os.Base.{
  ℕ, zero, suc, ◌+◌, ◌-◌, ◌/◌, Bool, true, false, not, ◌&&◌, ltb, leb, ◌==◌, if◌then◌else◌, spin,
}
use Nodes.{
  Store, Head, Elem, Cmd, pure, ◌>>=◌, ◌>>◌, assert, load, load_head, set_next, set_prev, set_owner,
  set_first, set_len, grow_len,
}

-- `list_init`
pub init : ℕ → Cmd (Unit {0})
init head = do set_first head 0; set_len head 0

-- `_list_insert`
pub link : ℕ → ℕ → ℕ → ℕ → Cmd (Unit {0})
link head prev next new = do
  p ← load prev
  assert (p.next == next)
  n ← load next
  assert (n.prev == prev)
  e ← load new
  assert (e.owner == 0)
  set_next prev new
  set_prev next new
  set_prev new prev
  set_next new next
  set_owner new head
  h ← load_head head
  grow_len head h.len

-- `_list_remove`
pub unlink : ℕ → ℕ → Cmd ℕ
unlink head elem = do
  e ← load elem
  set_next e.prev e.next
  set_prev e.next e.prev
  set_next elem 0
  set_prev elem 0
  set_owner elem 0
  h ← load_head head
  set_len head (h.len - 1)
  pure elem

-- The loop of `list_get`: `n` steps in one direction.
pub walk : Bool → ℕ → ℕ → Cmd ℕ
walk backwards zero curr = pure curr
walk backwards (suc n) curr = do
  e ← load curr
  walk backwards n (if backwards then e.prev else e.next)

-- `list_get`. The counter goes from 0 up to the index, or from the length down to it.
pub get : ℕ → ℕ → Cmd ℕ
get head index = do
  assert (not (head == 0))
  h ← load_head head
  assert (ltb index h.len)
  if ltb (h.len / 2) index then walk true (h.len - index) h.first else walk false index h.first

-- `list_push`
pub push : ℕ → ℕ → Cmd (Unit {0})
push head new = do
  assert (not (head == 0))
  assert (not (new == 0))
  h ← load_head head
  if h.len == 0
      then (do
        set_first head new
        set_next new new
        set_prev new new
        set_owner new head
        grow_len head h.len)
      else (do f ← load h.first; link head f.prev h.first new)

-- `list_push_first`
pub push_first : ℕ → ℕ → Cmd (Unit {0})
push_first head new = do
  assert (not (head == 0))
  assert (not (new == 0))
  push head new
  h ← load_head head
  f ← load h.first
  set_first head f.prev

-- `list_pop`
pub pop : ℕ → Cmd (Unit {0})
pop head = do
  assert (not (head == 0))
  h ← load_head head
  assert (ltb 0 h.len)
  f ← load h.first
  unlink head f.prev
  h' ← load_head head
  if h'.len == 0 then set_first head 0 else pure tt

-- `list_pop_first`
pub pop_first : ℕ → Cmd (Unit {0})
pop_first head = do
  assert (not (head == 0))
  h ← load_head head
  assert (ltb 0 h.len)
  f ← load h.first
  unlink head h.first
  h' ← load_head head
  set_first head (if h'.len == 0 then 0 else f.next)

-- `list_insert`
pub insert : ℕ → ℕ → ℕ → Cmd (Unit {0})
insert head new index = do
  assert (not (head == 0))
  h ← load_head head
  assert (leb index h.len)
  assert (not (new == 0))
  if index == 0
      then push_first head new
      else if index == h.len
      then push head new
      else (do elem ← get head index; e ← load elem; link head e.prev elem new)

-- `list_remove`
pub remove : ℕ → ℕ → Cmd (Unit {0})
remove head index = do
  assert (not (head == 0))
  h ← load_head head
  assert (ltb index h.len)
  if index == 0
      then pop_first head
      else if index == h.len - 1
      then pop head
      else (do elem ← get head index; unlink head elem; pure tt)

-- The loop of `list_foreach`, on fuel; `func` is the callback with its auxiliary argument.
pub foreach_loop : (func : ℕ → ℕ → Cmd (Unit {0})) → ℕ → ℕ → ℕ → ℕ → Cmd (Unit {0})
foreach_loop func head zero i curr = λ s. spin
foreach_loop func head (suc fuel) i curr = do
  h ← load_head head
  if ltb i h.len && not (curr == 0)
      then (do func curr i; e ← load curr; foreach_loop func head fuel (i + 1) e.next)
      else pure tt

-- `list_foreach`
pub foreach : (func : ℕ → ℕ → Cmd (Unit {0})) → ℕ → ℕ → Cmd (Unit {0})
unfolding foreach_loop
foreach func fuel head = do
  assert (not (head == 0))
  h ← load_head head
  foreach_loop func head fuel 0 h.first
