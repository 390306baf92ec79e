-- ===== src/Task/Ids.antt =====
-- Task ids are handed out once, and can be given back.
use mathlib.Core.Option.{some-injective}
use mathlib.Core.Path.{subst}
use opsys.Base.{
  ℕ, ◌/◌, ◌<◌, ◌≡◌, refl, ◌≢◌, sym, ap, ◌∙◌, true, Option, some, Result, ok, err, eagain, List,
  length, replicate, ◌⊎◌, inl, inr, arith,
}
use opsys.Bitset.{bitset_isset}
use opsys.Bitset.Laws.{IsBytes, Holds, bitset_set-Holds, bitset_unset-bitset_set}
use opsys.Bitset.Find.{AllSet, FirstUnset, bitset_find_unset-Found}
use opsys.Task.{Task, task_init, task_uninit}

-- `ids'` is `ids` with the lowest free id taken by the new task.
pub record Started (ids : List ℕ) (space c : ℕ) (r : Option (Result Task × List ℕ)) : Type 0 where
  pub task : Task
  pub ids' : List ℕ
  pub returns : r ≡ some (ok task, ids')
  pub fresh : FirstUnset ids 0 1024 task.id
  pub marks : Holds ids ids' task.id true c
  pub own_space : task.space ≡ space
  pub no_threads : task.nthreads ≡ 0
  pub released : task_uninit ids' task ≡ some ids

pub record Exhausted (ids : List ℕ) (r : Option (Result Task × List ℕ)) : Type 0 where
  pub returns : r ≡ some (err eagain, ids)
  pub all_used : AllSet ids 0 1024

-- On 128 bytes of task ids `task_init` accesses nothing outside them. Either it makes a task
-- with no thread in the given address space, whose id is the lowest free one, and marks this id
-- and no other; `task_uninit` then gives the id back and restores the bit set exactly. Or it
-- returns `-EAGAIN`, changes nothing, and all 1024 ids are in use.
pub task_init_lem :
    (ids : List ℕ) (space c : ℕ)
    → length ids ≡ 128
    → IsBytes ids
    → Started ids space c (task_init ids space) ⊎ Exhausted ids (task_init ids space)
unfolding task_init task_uninit
task_init_lem ids space c size bytes = elim (bitset_find_unset-Found ids 128 (omega arith)) [
  | inr (none_left, all) ↦ inr (record { returns = rw none_left; all_used = all })
  | inl (id, found, f) ↦
      let fits : id / 8 < length ids = omega (arith, f.below) in
      let marks = bitset_set-Holds ids id c fits bytes in
      inl (record {
        task = record { space = space; id = id; nthreads = 0; threadid = replicate 8 0 };
        ids' = marks.0;
        returns = rw found (rw marks.1 refl);
        fresh = f;
        marks = marks.2;
        own_space = refl;
        no_threads = refl;
        released = bitset_unset-bitset_set ids marks.0 id fits bytes f.unset marks.1;
      })
]

-- On 128 bytes of task ids, two tasks that are initialised one after the other have different
-- ids.
pub task_init_distinct :
    (ids ids' ids'' : List ℕ) (space space' : ℕ) (task task' : Task)
    → length ids ≡ 128
    → IsBytes ids
    → task_init ids space ≡ some (ok task, ids')
    → task_init ids' space' ≡ some (ok task', ids'')
    → task.id ≢ task'.id
task_init_distinct ids ids' ids'' space space' task task' size bytes e e' same =
    elim (task_init_lem ids space task.id size bytes) [
      | inr ex ↦ absurd (cc (ex.returns))
      | inl s ↦
          let same_ids : ids' ≡ s.ids' =
            ap (λ (t : Result Task × List ℕ). t.1) (some-injective _ _ (sym e ∙ s.returns)) in
          let used : bitset_isset ids' task.id ≡ some true =
            ground (arith, s.returns, s.marks.isset) in
          elim (task_init_lem ids' space' 0 (ground (arith, s.returns, s.marks.same_length))
            (subst IsBytes (sym same_ids) s.marks.bytes)) [
              | inr ex ↦ absurd (cc (ex.returns))
              | inl t ↦ ground (arith, t.returns, t.fresh.unset, used)
            ]
    ]
