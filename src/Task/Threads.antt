-- ===== src/Task/Threads.antt =====
-- Creating a thread marks its id and counts it, or leaves the task as it was.
use opsys.Base.{
  ℕ, ◌+◌, ◌*◌, ◌/◌, ◌%◌, ◌^◌, ◌≤◌, ◌<◌, ◌≡◌, refl, true, false, Option, some, ltb, Result, ok, err,
  Errno, eagain, einval, List, length, ◌⊎◌, inl, inr, Bool-cases, arith,
}
use opsys.Bitset.{bitset_set, bitset_isset}
use opsys.Bitset.Laws.{IsBytes, Holds, bitset_set-Holds, bitset_unset-bitset_set}
use opsys.Bitset.Find.{isset-cases, FirstUnset, bitset_find_unset-Found}
use opsys.Task.{
  Task, Tcb, zombie, task_ref, task_unref, tcb_undo, tcb_fields, tcb_init_from, tcb_init_with_id,
  tcb_init, tcb_uninit,
}

-- The thread ids fill 8 bytes and no more threads are counted than there are ids.
pub record IsTask (task : Task) : Type 0 where
  pub eight : length task.threadid ≡ 8
  pub bytes : IsBytes task.threadid
  pub count : task.nthreads ≤ 64

-- `task'` has one thread more, with this id, which was free before; at another index `c` the bit
-- set reads as before.
pub record Joined (task task' : Task) (id c : ℕ) : Type 0 where
  pub was_free : bitset_isset task.threadid id ≡ some false
  pub counted : task'.nthreads ≡ task.nthreads + 1
  pub marks : Holds task.threadid task'.threadid id true c
  pub same_id : task'.id ≡ task.id
  pub same_space : task'.space ≡ task.space

task_ref-room :
    (task : Task)
    → ltb task.nthreads 64 ≡ true
    → task_ref task ≡ (ok (task.nthreads + 1), record task { nthreads = task.nthreads + 1 })
unfolding task_ref
task_ref-room task room = ground arith

task_ref-full : (task : Task) → ltb task.nthreads 64 ≡ false → task_ref task ≡ (err eagain, task)
unfolding task_ref
task_ref-full task full = rw full

-- Counting up and down again gives the task back.
task_unref-counted :
    (task : Task)
    → task_unref (record task { nthreads = task.nthreads + 1 }) ≡ (ok task.nthreads, task)
unfolding task_unref
task_unref-counted task = ground arith

module _ {Regs : Type 0} (lookup_frame : ℕ → Result ℕ) (regs_init : ℕ → ℕ → Result Regs) where
  -- The two outcomes of a thread's initialisation.
  pub record Created (task : Task) (id stack c : ℕ) (r : Option (Result (Tcb Regs) × Task))
      : Type 0 where
    pub tcb : Tcb Regs
    pub task' : Task
    pub returns : r ≡ some (ok tcb, task')
    pub new_id : tcb.id ≡ id
    pub new_state : tcb.state ≡ zombie
    pub new_stack : tcb.stack ≡ stack
    pub joined : Joined task task' id c

  pub record Declined (task : Task) (r : Option (Result (Tcb Regs) × Task)) : Type 0 where
    pub error : Errno
    pub returns : r ≡ some (err error, task)

  Result-cases : {A : Type 0} (r : Result A) → ((a : A) × (r ≡ ok a)) ⊎ ((e : Errno) × (r ≡ err e))
  Result-cases (ok a) = inl (a, refl)
  Result-cases (err e) = inr (e, refl)

  fields-cases :
      (task : Task) (id stack : ℕ)
      → ((tcb : Tcb Regs) × (tcb_fields lookup_frame regs_init task id stack ≡ ok tcb)
          × (tcb.id ≡ id)
          × (tcb.state ≡ zombie)
          × (tcb.stack ≡ stack))
        ⊎ ((e : Errno) × (tcb_fields lookup_frame regs_init task id stack ≡ err e))
  unfolding tcb_fields
  fields-cases task id stack = elim (Result-cases (lookup_frame task.space)) [
    | inr (e, bad) ↦ inr (e, rw (bad, tcb_fields))
    | inl (pf, good) ↦ elim (Result-cases (regs_init stack (pf * 4096 % 2 ^ 32))) [
      | inr (e, bad) ↦ inr (e, rw (good, tcb_fields, bad))
      | inl (regs, fine) ↦ inl (
        record { state = zombie; stack = stack; id = id; prio = 0; regs = regs },
        rw (good, tcb_fields, fine),
        refl,
        refl,
        refl,
      )
    ]
  ]

  -- From the free id on.
  marked_lem :
      (task : Task) (id stack c : ℕ) (ids : List ℕ)
      → IsTask task
      → id / 8 < length task.threadid
      → task_ref task ≡ (ok (task.nthreads + 1), record task { nthreads = task.nthreads + 1 })
      → bitset_isset task.threadid id ≡ some false
      → bitset_set task.threadid id ≡ some ids
      → Holds task.threadid ids id true c
      → Created task id stack c (tcb_init_with_id lookup_frame regs_init task id stack)
        ⊎ Declined task (tcb_init_with_id lookup_frame regs_init task id stack)
  unfolding tcb_init_with_id tcb_init_from tcb_undo tcb_fields
  marked_lem task id stack c ids w fits enter free set_id marks =
      let joined : Task = record task { nthreads = task.nthreads + 1; threadid = ids } in
      elim (fields-cases joined id stack) [
        | inl (tcb, made, i, z, k) ↦ inl (record {
          tcb = tcb;
          task' = joined;
          returns = rw (enter, free, set_id) (rw made refl);
          new_id = i;
          new_state = z;
          new_stack = k;
          joined = record {
            was_free = free;
            counted = refl;
            marks = marks;
            same_id = refl;
            same_space = refl;
          };
        })
        | inr (e, bad) ↦
            let undo = bitset_unset-bitset_set task.threadid ids id fits w.bytes free set_id in
            inr (record {
              error = e;
              returns =
                  rw (enter, free, set_id) (rw bad (rw undo (rw (task_unref-counted task) refl)));
            })
      ]

  with_id_lem :
      (task : Task) (id stack c : ℕ)
      → IsTask task
      → id < 64
      → Created task id stack c (tcb_init_with_id lookup_frame regs_init task id stack)
        ⊎ Declined task (tcb_init_with_id lookup_frame regs_init task id stack)
  unfolding tcb_init_with_id tcb_init_from
  with_id_lem task id stack c w small = elim (Bool-cases (ltb task.nthreads 64)) [
    | inr full ↦ inr (record { error = eagain; returns = rw (task_ref-full task full) })
    | inl room ↦
        let fits : id / 8 < length task.threadid = omega (arith, w.eight) in
        let enter = task_ref-room task room in
        elim (isset-cases task.threadid id fits) [
          | inl taken ↦
              inr (record { error = einval; returns = rw (enter, taken, task_unref-counted task) })
          | inr free ↦
              let marks = bitset_set-Holds task.threadid id c fits w.bytes in
              marked_lem task id stack c marks.0 w fits enter free marks.1 marks.2
        ]
  ]

  -- For a well-formed task, and whatever the page-frame lookup and the register setup return,
  -- `tcb_init` accesses nothing outside the bit set. Either it makes a thread of state ZOMBIE
  -- with the given stack and the lowest free id of the task, marks this id, changes no other bit
  -- and counts the thread; or it returns an error and leaves the task as it was.
  pub tcb_init_lem :
      (task : Task) (stack c : ℕ)
      → IsTask task
      → ((id : ℕ) × FirstUnset task.threadid 0 64 id
          × Created task id stack c (tcb_init lookup_frame regs_init task stack))
        ⊎ Declined task (tcb_init lookup_frame regs_init task stack)
  unfolding tcb_init
  tcb_init_lem task stack c w =
      elim (bitset_find_unset-Found task.threadid 8 (omega (arith, w.eight))) [
        | inr (none_left, all) ↦ inr (record { error = eagain; returns = rw (none_left, tcb_init) })
        | inl (id, found, f) ↦ elim (with_id_lem task id stack c w f.below) [
          | inl made ↦ inl (id, f, rw (found, tcb_init) made)
          | inr no_room ↦ inr (rw (found, tcb_init) no_room)
        ]
      ]

  -- After `tcb_uninit` of the thread that `tcb_init` made in a well-formed task, the count of
  -- threads is as before the creation, but the thread's id is still marked as used.
  pub tcb_uninit-leak :
      (task task' : Task) (stack : ℕ) (tcb : Tcb Regs)
      → IsTask task
      → tcb_init lookup_frame regs_init task stack ≡ some (ok tcb, task')
      → ((tcb_uninit task').nthreads ≡ task.nthreads)
        × (bitset_isset task.threadid tcb.id ≡ some false)
        × (bitset_isset (tcb_uninit task').threadid tcb.id ≡ some true)
  unfolding tcb_uninit task_unref
  tcb_uninit-leak task task' stack tcb w e = elim (tcb_init_lem task stack tcb.id w) [
    | inr no_room ↦ absurd (cc (no_room.returns))
    | inl (id, f, made) ↦ ground (
      arith, made.new_id, made.joined.was_free, made.joined.counted, made.joined.marks.isset,
      made.returns,
    )
  ]
