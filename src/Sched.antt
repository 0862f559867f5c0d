-- ===== src/Sched.antt =====
-- kernel/sched/scheduler.c: the task control block at the start of a task's page. Its name is at 0,
-- its id at 16, its state at 20 and its magic number at 24.
use waddle_os.Base.{
  ℕ, ◌+◌, ◌*◌, ◌/◌, ◌%◌, ◌^◌, ◌≤◌, ◌<◌, ◌≡◌, refl, ◌⊎◌, inl, inr, Bool, not, if◌then◌else◌, arith,
  Outcome, ok, halt,
}
use waddle_os.Base.Word.{u32}
use waddle_os.Memory.{Memory, read_field, write_field, memcpy}
use waddle_os.Memory.Fields.{write_field-outside, read_field-disjoint, read_field-write_field}
use waddle_os.Memory.Copy.{Copied, memcpy-Copied}

-- `thread_state_t`
pub data ThreadState : Type 0 where
  running ready blocked dying : ThreadState

abbrev pub state_code : ThreadState → ℕ
state_code running = 0
state_code ready = 1
state_code blocked = 2
state_code dying = 3

abbrev pub task_magic : ℕ
task_magic = 0xF0CACC1A

abbrev pub task_name_size : ℕ
task_name_size = 16

-- The memory that the task blocks lie in, and the static variable `next_tid`, which is kept apart
-- from it: no task block overlaps the kernel's own variable.
pub record Sched : Type 0 where
  pub mem : Memory
  pub next_tid : ℕ

-- `sched_task_init`
pub task_init : (task name : ℕ) → ThreadState → Sched → Sched
task_init task name init_state s =
    let named = memcpy task name task_name_size s.mem in
    let marked = write_field 4 named (task + 24) task_magic in
    let numbered = write_field 2 marked (task + 16) s.next_tid in
    record {
      mem = write_field 4 numbered (task + 20) (state_code init_state);
      next_tid = u32 (s.next_tid + 1);
    }

-- `sched_get_curr_task` on a stack pointer.
pub get_curr_task : ℕ → ℕ
get_curr_task sp = sp / 4096 * 4096

-- `sched_setup_init_task`; `name` is the address of the literal "init".
pub setup_init_task : (active : Bool) (sp name : ℕ) → Sched → Outcome Sched
setup_init_task active sp name s =
    if not active then ok (task_init (get_curr_task sp) name running s) else halt

state_code-lt : (st : ThreadState) → state_code st < 4
state_code-lt running = omega arith
state_code-lt ready = omega arith
state_code-lt blocked = omega arith
state_code-lt dying = omega arith

-- A task that `sched_task_init` has set up has the magic number, the low 16 bits of the next id and
-- the state asked for; its name field is a copy of the 16 bytes at `name`. The next id has grown by
-- one, modulo 2^32, and no byte of the memory outside the block is written. The name must not
-- overlap the block.
pub task_init-fields :
    (task name : ℕ) (st : ThreadState) (s : Sched)
    → (task + 28 ≤ name) ⊎ (name + 16 ≤ task)
    → let s' = task_init task name st s in
      (read_field 4 s'.mem (task + 24) ≡ task_magic)
      × (read_field 2 s'.mem (task + 16) ≡ s.next_tid % 2 ^ 16)
      × (read_field 4 s'.mem (task + 20) ≡ state_code st)
      × ((i : ℕ) → i < 16 → s'.mem (task + i) ≡ s.mem (name + i))
      × (s'.next_tid ≡ (s.next_tid + 1) % 2 ^ 32)
      × ((a : ℕ) → (a < task) ⊎ (task + 28 ≤ a) → s'.mem a ≡ s.mem a)
unfolding task_init
task_init-fields task name st s apart =
    let named = memcpy task name 16 s.mem in
    let marked = write_field 4 named (task + 24) task_magic in
    let numbered = write_field 2 marked (task + 16) s.next_tid in
    let code = state_code st in
    let copied : Copied s.mem named task name 16 =
      memcpy-Copied task name 16 s.mem (ground arith) in
    let code_small : code < 4 = state_code-lt st in
    (
      rw
          (
            read_field-disjoint 4 4 numbered (task + 20) (task + 24) code (inr (omega arith)),
            read_field-disjoint 4 2 marked (task + 16) (task + 24) s.next_tid (inr (omega arith)),
            read_field-write_field 4 named (task + 24) task_magic,
          )
          refl,
      rw
          (
            read_field-disjoint 2 4 numbered (task + 20) (task + 16) code (inl (omega arith)),
            read_field-write_field 2 marked (task + 16) s.next_tid,
          )
          refl,
      rw (read_field-write_field 4 numbered (task + 20) code) (omega arith),
      λ i h. ground (
        arith,
        write_field-outside 4 numbered (task + 20) code (task + i),
        write_field-outside 2 marked (task + 16) s.next_tid (task + i),
        write_field-outside 4 named (task + 24) task_magic (task + i),
        copied.inside i (task + i) (name + i) h refl refl,
      ),
      refl,
      λ a h. ground (
        arith,
        write_field-outside 4 numbered (task + 20) code a,
        write_field-outside 2 marked (task + 16) s.next_tid a,
        write_field-outside 4 named (task + 24) task_magic a,
        copied.outside a,
      ),
    )
