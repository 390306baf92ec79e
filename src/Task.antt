-- ===== src/Task.antt =====
-- Tasks and threads: src/kernel/bin/task.c, task.h, tcb.c, tcb.h, and the thread ids of
-- src/kernel/include/tid.h.
-- A `struct task *` or `struct tcb *` argument that a function updates is passed as its record and
-- returned. `none` is an access outside a bit set.
pub mod Ids
pub mod Tid
pub mod Threads
mod Examples
use mathlib.Core.Option
use opsys.Base.{
  ℕ, ◌+◌, ◌-◌, ◌*◌, ◌/◌, ◌%◌, ◌^◌, ◌≡◌, Bool, true, false, Option, none, some, ◌==◌, ltb,
  if◌then◌else◌, bit_or, bit_and, Result, ok, err, eagain, einval, List, [], ◌∷◌, replicate, length,
}
use opsys.Bitset.{bitset_set, bitset_unset, bitset_isset, bitset_find_unset}

infixl 5 ◌>>=◌
abbrev ◌>>=◌ : {A B : Type 0} → Option A → (A → Option B) → Option B
none >>= k = none
some a >>= k = k a

-- `as` is the address of the task's `struct vmem`; the bit set `threadid` has 8 bytes.
pub record Task : Type 0 where
  pub space : ℕ
  pub id : ℕ
  pub nthreads : ℕ
  pub threadid : List ℕ

abbrev pub max_task : ℕ
max_task = 1024

-- `g_taskid` before the first task.
abbrev pub initial_taskid : List ℕ
initial_taskid = replicate (max_task / 8) 0

-- The new `g_taskid` and the task, or the error.
unfoldable pub task_init : List ℕ → ℕ → Option (Result Task × List ℕ)
task_init g_taskid space = do
  found ← bitset_find_unset g_taskid (max_task / 8)
  elim found [
    | err e ↦ some (err e, g_taskid)
    | ok taskid ↦
        Option.map
          (λ ids. (
            ok (record { space = space; id = taskid; nthreads = 0; threadid = replicate 8 0 }),
            ids,
          ))
          (bitset_set g_taskid taskid)
  ]

unfoldable pub task_uninit : List ℕ → Task → Option (List ℕ)
task_uninit g_taskid task = bitset_unset g_taskid task.id

abbrev pub task_max_nthreads : Task → ℕ
task_max_nthreads task = 8 * 8

-- `nthreads` is an `unsigned char`.
unfoldable pub task_ref : Task → Result ℕ × Task
task_ref task =
    if ltb task.nthreads (task_max_nthreads task)
    then (ok ((task.nthreads + 1) % 256), record task { nthreads = (task.nthreads + 1) % 256 })
    else (err eagain, task)

unfoldable pub task_unref : Task → Result ℕ × Task
task_unref task =
    if task.nthreads == 0
    then (err einval, task)
    else (ok (task.nthreads - 1), record task { nthreads = task.nthreads - 1 })

pub data ThreadState : Type 0 where
  zombie ready send recv waiting : ThreadState

-- The fields of `struct tcb` that tcb.c computes with; the list nodes are in the modules of
-- their lists. `regs` is what `tcb_regs_init` makes.
pub record Tcb (Regs : Type 0) : Type 0 where
  pub state : ThreadState
  pub stack : ℕ
  pub id : ℕ
  pub prio : ℕ
  pub regs : Regs

-- `lookup_frame` is `vmem_lookup_frame` of the page directory in the task's address space, and
-- `regs_init` is `tcb_regs_init` at the stack and the address of that page frame.
module _ {Regs : Type 0} (lookup_frame : ℕ → Result ℕ) (regs_init : ℕ → ℕ → Result Regs) where
  -- The error path behind `err_vmem_lookup_pageframe`.
  unfoldable pub tcb_undo : Task → ℕ → Option Task
  tcb_undo task id =
      Option.map (λ ids. (task_unref (record task { threadid = ids })).1)
        (bitset_unset task.threadid id)

  unfoldable pub tcb_fields : Task → ℕ → ℕ → Result (Tcb Regs)
  tcb_fields task id stack = elim (lookup_frame task.space) [
    | err e ↦ err e
    | ok pfindex ↦ elim (regs_init stack (pfindex * 4096 % 2 ^ 32)) [
      | err e ↦ err e
      | ok regs ↦ ok (record { state = zombie; stack = stack; id = id; prio = 0; regs = regs })
    ]
  ]

  -- `tcb_init_with_id` from the result of `task_ref` on.
  unfoldable pub tcb_init_from : Result ℕ × Task → ℕ → ℕ → Option (Result (Tcb Regs) × Task)
  tcb_init_from (err e, task) id stack = some (err e, task)
  tcb_init_from (ok _, task) id stack = do
    taken ← bitset_isset task.threadid id
    if taken then some (err einval, (task_unref task).1) else (do
      ids ← bitset_set task.threadid id
      let marked = record task { threadid = ids }
      elim (tcb_fields marked id stack) [
        | ok tcb ↦ some (ok tcb, marked)
        | err e ↦ Option.map (λ undone. (err e, undone)) (tcb_undo marked id)
      ])

  unfoldable pub tcb_init_with_id : Task → ℕ → ℕ → Option (Result (Tcb Regs) × Task)
  tcb_init_with_id task id stack = tcb_init_from (task_ref task) id stack

  unfoldable pub tcb_init : Task → ℕ → Option (Result (Tcb Regs) × Task)
  tcb_init task stack = do
    found ← bitset_find_unset task.threadid 8
    elim found [ err e ↦ some (err e, task) | ok id ↦ tcb_init_with_id task id stack ]

-- `tcb_uninit` on the thread's task.
unfoldable pub tcb_uninit : Task → Task
tcb_uninit task = (task_unref task).1

abbrev pub tcb_set_state : {Regs : Type 0} → Tcb Regs → ThreadState → Tcb Regs
tcb_set_state tcb state = record tcb { state = state }

abbrev pub tcb_get_state : {Regs : Type 0} → Tcb Regs → ThreadState
tcb_get_state tcb = tcb.state

abbrev pub is_ready : ThreadState → Bool
is_ready ready = true
is_ready _ = false

unfoldable pub tcb_is_runnable : {Regs : Type 0} → Tcb Regs → Bool
tcb_is_runnable tcb = is_ready tcb.state
