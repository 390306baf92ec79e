-- ===== src/Timer.antt =====
-- Alarms and the timer: src/kernel/bin/timer.c, timer.h and drivers/timer/timer.h.
-- An alarm is the address of its list node, which is its first member; 0 is NULL. The record holds
-- `g_timer` and the time stamps of all alarms, the calls of alarm callbacks in order, and the last
-- call of the timer driver. The interrupt flag, which `timer_add_alarm` and `timer_remove_alarm`
-- clear and restore, is not part of it. A callback neither adds nor removes alarms.
pub mod Handle
pub mod Update
mod Examples
use opsys.Base.{
  ℕ, zero, suc, ◌+◌, ◌-◌, ◌%◌, ◌^◌, ◌≡◌, Bool, true, false, Option, none, some, ◌==◌, leb, ltb,
  if◌then◌else◌, List, [], ◌∷◌, ◌++◌,
}
use opsys.LinkedList.{
  Links, put, init_item, init_head, is_empty, list_begin, list_end, list_next, enqueue_sorted,
  dequeue,
}

-- `timer_drv_set_timeout` and `timer_drv_clear_timeout`.
pub data Driver : Type 0 where
  unset : Driver
  timeout : ℕ → Driver
  cleared : Driver

pub record Timer : Type 0 where
  pub links : Links
  pub head : ℕ
  pub timestamp_ns : ℕ
  pub stamp : ℕ → ℕ
  pub fired : List ℕ
  pub driver : Driver

-- `unsigned long` arithmetic.
abbrev pub add_ns : ℕ → ℕ → ℕ
add_ns a b = (a + b) % 2 ^ 32

abbrev pub sub_ns : ℕ → ℕ → ℕ
sub_ns a b = (a + 2 ^ 32 - b) % 2 ^ 32

unfoldable pub init_timer : ℕ → Timer → Timer
init_timer head t = record t { head = head; timestamp_ns = 0; links = init_head head t.links }

unfoldable pub alarm_init : ℕ → Timer → Timer
alarm_init alarm t = record t { links = init_item alarm t.links; stamp = put t.stamp alarm 0 }

unfoldable pub alarm_has_expired : Timer → ℕ → ℕ → Bool
alarm_has_expired t alarm timestamp_ns = leb (t.stamp alarm) timestamp_ns

-- `cmp_timestamp(newitem, item) > 0`: the difference is taken as `unsigned long`, and then held
-- in a `long long`, so it is never negative.
unfoldable pub cmp_timestamp : (ℕ → ℕ) → ℕ → ℕ → Bool
cmp_timestamp stamp newitem item = ltb 0 (sub_ns (stamp newitem) (stamp item))

-- `list_enqueue_sorted` on the list of alarms, with fuel for its loop.
unfoldable pub enqueue_alarm : ℕ → ℕ → Timer → Option Timer
enqueue_alarm fuel alarm t =
    elim (enqueue_sorted (cmp_timestamp t.stamp) fuel t.head alarm t.links) [
      | none ↦ none
      | some links ↦ some (record t { links = links })
    ]

-- What becomes of an expired alarm after its callback returned `reltime`.
unfoldable pub rearm : ℕ → ℕ → ℕ → ℕ → Timer → Option Timer
rearm fuel now alarm reltime t =
    if reltime == 0
    then some t
    else enqueue_alarm fuel alarm (record t { stamp = put t.stamp alarm (add_ns now reltime) })

-- The loop of `handle_timeout`, from `item` on; `func` is what the callbacks return.
unfoldable pub handle_loop : (ℕ → ℕ) → ℕ → ℕ → ℕ → Timer → Option (ℕ × Timer)
handle_loop func zero now item t = none
handle_loop func (suc fuel) now item t =
    if item == list_end t.head
    then some (item, t)
    else (if alarm_has_expired t item now
        then (let next = list_next t.links item in
            let called : Timer = record t {
              links = dequeue item t.links;
              fired = t.fired ++ item ∷ [];
            } in
            elim (rearm fuel now item (func item) called) [
              | none ↦ none
              | some t' ↦ handle_loop func fuel now next t'
            ])
        else some (item, t))

-- The driver call at the end of `handle_timeout`.
unfoldable pub program : ℕ → ℕ × Timer → Timer
program now (item, t) =
    if item == list_end t.head
    then record t { driver = cleared }
    else record t { driver = timeout (sub_ns (t.stamp item) now) }

unfoldable pub handle_timeout : (ℕ → ℕ) → ℕ → ℕ → Timer → Option Timer
handle_timeout func fuel now t = elim (handle_loop func fuel now (list_begin t.links t.head) t) [
  | none ↦ none
  | some stopped ↦ some (program now stopped)
]

unfoldable pub timer_add_alarm : ℕ → ℕ → ℕ → Timer → Option Timer
timer_add_alarm fuel alarm reltime_ns t =
    let programmed : Timer =
      (if is_empty t.links t.head then record t { driver = timeout reltime_ns } else t) in
    enqueue_alarm fuel alarm (record programmed {
      stamp = put programmed.stamp alarm (add_ns programmed.timestamp_ns reltime_ns);
    })

unfoldable pub timer_remove_alarm : ℕ → Timer → Timer
timer_remove_alarm alarm t =
    let removed : Timer = record t { links = dequeue alarm t.links } in
    if is_empty removed.links removed.head then record removed { driver = cleared } else removed
