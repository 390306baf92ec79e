-- ===== src/Sched.antt =====
-- The scheduler: src/kernel/bin/sched.c and sched.h.
-- A thread is the address of the list node `sched` in its control block; 0 is NULL. `g_thread` is
-- the address of the array of list heads, one of 8 bytes for each priority. The record also holds
-- the fields of all control blocks that the scheduler uses. An assertion that fails is `halt`.
pub mod Queues
pub mod Select
pub mod Switch
pub mod Init
mod Examples
use opsys.Base.{
  ℕ, zero, suc, ◌+◌, ◌*◌, ◌≡◌, Bool, true, false, ◌&&◌, not, Option, none, some, Result, ok, err,
  ◌==◌, ltb, if◌then◌else◌,
}
use opsys.LinkedList.{Links, put, init_head, list_begin, list_end, list_next, enqueue_back, dequeue}
use opsys.Task.{ThreadState, is_ready}
use opsys.Timer.{Timer, alarm_init, timer_add_alarm}

pub record Sched : Type 0 where
  pub links : Links
  pub g_thread : ℕ
  pub current : ℕ → ℕ
  pub state : ℕ → ThreadState
  pub prio : ℕ → ℕ
  pub id : ℕ → ℕ
  pub taskid : ℕ → ℕ
  pub timer : Timer
  pub g_alarm : ℕ

-- A result; an assertion that failed; a loop that has not ended within its fuel.
pub data Run {ℓ} (A : Type ℓ) : Type ℓ where
  done : A → Run A
  halt : Run A
  out_of_fuel : Run A

abbrev pub sched_freq : ℕ
sched_freq = 20

abbrev pub sched_ncpus : ℕ
sched_ncpus = 1

abbrev pub sched_nprios : ℕ
sched_nprios = 256

-- 1000 / SCHED_FREQ.
abbrev pub sched_timeout : ℕ
sched_timeout = 50

-- The address `g_thread + prio`.
abbrev pub head_of : ℕ → ℕ → ℕ
head_of g_thread prio = g_thread + 8 * prio

unfoldable pub sched_add_thread : ℕ → ℕ → Sched → Sched
sched_add_thread tcb prio s = record s {
  links = enqueue_back (head_of s.g_thread prio) tcb s.links;
  prio = put s.prio tcb prio;
}

-- The loop of `sched_init` over the first `left` list heads.
unfoldable pub init_heads : ℕ → ℕ → Links → Links
init_heads zero g_thread l = l
init_heads (suc left) g_thread l = init_head (head_of g_thread left) (init_heads left g_thread l)

-- `timer_add_alarm` and `sched_add_thread` return no error, so that the error path is never
-- taken. The fuel is that of `timer_add_alarm`.
unfoldable pub sched_init : ℕ → ℕ → Sched → Run Sched
sched_init fuel idle s =
    if idle == 0
    then halt
    else elim (timer_add_alarm fuel s.g_alarm sched_timeout (alarm_init s.g_alarm s.timer)) [
      | none ↦ out_of_fuel
      | some timer ↦ done (
          sched_add_thread idle 0 (record s {
            current = put s.current 0 idle;
            links = init_heads sched_nprios s.g_thread s.links;
            timer = timer;
          }))
    ]

unfoldable pub sched_get_current_thread : ℕ → Sched → Run ℕ
sched_get_current_thread cpu s = if ltb cpu sched_ncpus then done (s.current cpu) else halt

-- The inner loop of the two searches, from `item` on: the first thread that passes the test.
unfoldable pub find_in : (ℕ → Bool) → ℕ → Links → ℕ → ℕ → Run (Option ℕ)
find_in test zero l head item = out_of_fuel
find_in test (suc fuel) l head item =
    let rest = find_in test fuel l head (list_next l item) in
    if item == list_end head then done none else (if test item then done (some item) else rest)

abbrev pub find_at : (ℕ → Bool) → ℕ → Sched → ℕ → Run (Option ℕ)
find_at test fuel s prio =
    find_in test fuel s.links (head_of s.g_thread prio)
      (list_begin s.links (head_of s.g_thread prio))

-- The outer loop of `sched_search_thread`, with `left` priorities from `prio` on to go.
unfoldable pub search_from : (ℕ → Bool) → ℕ → ℕ → ℕ → Sched → Run ℕ
search_from test fuel zero prio s = done 0
search_from test fuel (suc left) prio s =
    let rest = search_from test fuel left (prio + 1) s in
    elim (find_at test fuel s prio) [
      | out_of_fuel ↦ out_of_fuel
      | halt ↦ halt
      | done found ↦ elim found [ none ↦ rest | some tcb ↦ done tcb ]
    ]

unfoldable pub sched_search_thread : ℕ → ℕ → ℕ → Sched → Run ℕ
sched_search_thread fuel taskid tcbid s =
    search_from (λ tcb. (s.id tcb == tcbid) && (s.taskid tcb == taskid)) fuel sched_nprios 0 s

unfoldable pub move_thread_to_back : ℕ → Sched → Sched
move_thread_to_back tcb s = record s {
  links = enqueue_back (head_of s.g_thread (s.prio tcb)) tcb (dequeue tcb s.links);
}

-- The outer loop of `sched_select_thread`, from priority `prio` - 1 down. Its end is an assertion
-- that is never to be reached.
unfoldable pub select_below : ℕ → ℕ → Sched → Run ℕ
select_below fuel zero s = halt
select_below fuel (suc prio) s =
    let rest = select_below fuel prio s in
    elim (find_at (λ tcb. is_ready (s.state tcb)) fuel s prio) [
      | out_of_fuel ↦ out_of_fuel
      | halt ↦ halt
      | done found ↦ elim found [ none ↦ rest | some tcb ↦ done tcb ]
    ]

unfoldable pub sched_select_thread : ℕ → Sched → Run ℕ
sched_select_thread fuel s = select_below fuel sched_nprios s

-- `tcb_switch self next s` is what that call returns, and the state in which it returns: this is
-- when `self` runs again, so that other threads may have changed it.
module _ (tcb_switch : ℕ → ℕ → Sched → Result (Unit {0}) × Sched) where
  -- From the call of `tcb_switch` on.
  unfoldable pub switched : ℕ → ℕ → Result (Unit {0}) × Sched → Result (Unit {0}) × Sched
  switched cpu self (ok _, s) = (ok tt, s)
  switched cpu self (err e, s) = (err e, record s { current = put s.current cpu self })

  unfoldable pub sched_switch_to : ℕ → ℕ → Sched → Run (Result (Unit {0}) × Sched)
  sched_switch_to cpu next s =
      if ltb cpu sched_ncpus && (not (next == 0) && is_ready (s.state next))
      then (let moved = move_thread_to_back next s in
          let self = moved.current cpu in
          if next == self
          then done (ok tt, moved)
          else done (
              switched cpu self
                (tcb_switch self next (record moved { current = put moved.current cpu next }))))
      else halt

  unfoldable pub sched_switch : ℕ → ℕ → Sched → Run (Result (Unit {0}) × Sched)
  sched_switch fuel cpu s = elim (sched_select_thread fuel s) [
    | out_of_fuel ↦ out_of_fuel
    | halt ↦ halt
    | done next ↦ sched_switch_to cpu next s
  ]

  -- The callback of the alarm: its result is the time until the next call.
  unfoldable pub alarm_handler : ℕ → ℕ → Sched → Run (ℕ × Sched)
  alarm_handler fuel cpu s = elim (sched_switch fuel cpu s) [
    | out_of_fuel ↦ out_of_fuel
    | halt ↦ halt
    | done (res, s') ↦ done (sched_timeout, s')
  ]
