-- ===== src/Task/Examples.antt =====
-- The theorems on tasks and threads at a task with two threads.
use opsys.Base.{ℕ, ◌≡◌, refl, ◌⊎◌, some, Result, ok, ◌∷◌, replicate, arith, get_or-replicate}
use opsys.Bitset.{
  bitset_set, bitset_isset, bitset_find_unset, find_in_bytes, find_in_byte, bit_mask, test_mask,
  or_mask,
}
use opsys.Bitset.Laws.{IsBytes}
use opsys.Bitset.Find.{FirstUnset}
use opsys.Task.{
  Task, Tcb, zombie, task_init, task_ref, tcb_init, tcb_init_with_id, tcb_init_from, tcb_fields,
  initial_taskid,
}
use opsys.Task.Threads.{IsTask, Created, Declined, tcb_init_lem}

abbrev pair : Task
pair = record { space = 4096; id = 3; nthreads = 2; threadid = 3 ∷ replicate 7 0 }

abbrev trio : Task
trio = record { space = 4096; id = 3; nthreads = 3; threadid = 7 ∷ replicate 7 0 }

pair-IsTask : IsTask pair
pair-IsTask = record { eight = refl; bytes = grind arith; count = omega arith }

-- An address space whose directory is in frame 9, and registers that are their stack.
abbrev frame_nine : ℕ → Result ℕ
frame_nine space = ok 9

abbrev stack_regs : ℕ → ℕ → Result ℕ
stack_regs stack directory = ok stack

abbrev third : Tcb ℕ
third = record { state = zombie; stack = 64; id = 2; prio = 0; regs = 64 }

makes_third : tcb_init frame_nine stack_regs pair 64 ≡ some (ok third, trio)
unfolding tcb_init tcb_init_with_id tcb_init_from tcb_fields task_ref bitset_set bitset_isset
    bitset_find_unset find_in_bytes find_in_byte bit_mask test_mask or_mask
makes_third = refl

tcb_init_example :
    ((id : ℕ) × FirstUnset pair.threadid 0 64 id
      × Created frame_nine stack_regs pair id 64 1 (tcb_init frame_nine stack_regs pair 64))
    ⊎ Declined frame_nine stack_regs pair (tcb_init frame_nine stack_regs pair 64)
tcb_init_example = tcb_init_lem frame_nine stack_regs pair 64 1 pair-IsTask

fresh-IsBytes : IsBytes initial_taskid
fresh-IsBytes i h = omega (arith, get_or-replicate {A = ℕ} 128 i 0)

abbrev zeroth : Task
zeroth = record { space = 4096; id = 0; nthreads = 0; threadid = replicate 8 0 }

abbrev first : Task
first = record { space = 8192; id = 1; nthreads = 0; threadid = replicate 8 0 }

starts_zeroth : task_init initial_taskid 4096 ≡ some (ok zeroth, 1 ∷ replicate 127 0)
unfolding task_init bitset_set bitset_isset bitset_find_unset find_in_bytes find_in_byte bit_mask
    test_mask or_mask
starts_zeroth = refl

starts_first : task_init (1 ∷ replicate 127 0) 8192 ≡ some (ok first, 3 ∷ replicate 127 0)
unfolding task_init bitset_set bitset_isset bitset_find_unset find_in_bytes find_in_byte bit_mask
    test_mask or_mask
starts_first = refl
