-- ===== src/Timer/Update.antt =====
-- Adding, removing and re-arming alarms, and an expired alarm that is passed over.
use opsys.Base.{
  ℕ, suc, ◌≤◌, ◌<◌, ◌≡◌, refl, ◌≢◌, true, false, Option, some, if◌then◌else◌, List, [], ◌∷◌, ◌++◌,
  length, arith, inl, inr, Bool-cases, ◌↔◌,
}
use opsys.LinkedList.{Links, put, dequeue, is_empty, enqueue_sorted}
use opsys.LinkedList.Chain.{IsRing, has}
use opsys.LinkedList.Dequeue.{dequeue-remove, observers_lem}
use opsys.LinkedList.Sorted.{insert, enqueue_sorted-insert}
use opsys.Timer.{
  timeout, cleared, Timer, add_ns, cmp_timestamp, enqueue_alarm, handle_timeout, timer_add_alarm,
  timer_remove_alarm,
}
use opsys.Timer.Handle.{Fired, handle_timeout-Fired}

-- The new alarm is in the list, in front of the first alarm with another time stamp.
pub record Added (t : Timer) (alarm reltime : ℕ) (xs : List ℕ) (r : Option Timer) : Type 0 where
  pub t' : Timer
  pub returns : r ≡ some t'
  pub stamps : t'.stamp ≡ put t.stamp alarm (add_ns t.timestamp_ns reltime)
  pub alarms : IsRing t'.links t.head (insert (cmp_timestamp t'.stamp) alarm xs)
  pub programmed : t'.driver ≡ (if is_empty t.links t.head then timeout reltime else t.driver)
  pub no_calls : t'.fired ≡ t.fired
  pub same_head : t'.head ≡ t.head

enqueue_alarm-some :
    (alarm fuel : ℕ) (t : Timer) {links : Links}
    → enqueue_sorted (cmp_timestamp t.stamp) fuel t.head alarm t.links ≡ some links
    → enqueue_alarm fuel alarm t ≡ some (record t { links = links })
unfolding enqueue_alarm
enqueue_alarm-some alarm fuel t e = rw (e, enqueue_alarm) refl

-- An alarm that is in no list, added to a ring of alarms with more fuel than it has: the call
-- ends, sets the time stamp from the timer's and the relative time, inserts the alarm at its place
-- by `cmp_timestamp`, and programs the driver exactly if the list was empty.
pub timer_add_alarm-Added :
    (t : Timer) (fuel alarm reltime : ℕ) (xs : List ℕ)
    → IsRing t.links t.head xs
    → length xs < fuel
    → has alarm (t.head ∷ xs) ≡ false
    → alarm ≢ 0
    → Added t alarm reltime xs (timer_add_alarm fuel alarm reltime t)
unfolding timer_add_alarm
timer_add_alarm-Added t fuel alarm reltime xs r f out pos =
    let stamp = put t.stamp alarm (add_ns t.timestamp_ns reltime) in
    let placed = enqueue_sorted-insert (cmp_timestamp stamp) alarm fuel xs r f out pos in
    elim (Bool-cases (is_empty t.links t.head)) [
      | inl none_yet ↦ record {
        t' = record t { links = placed.0; stamp = stamp; driver = timeout reltime };
        returns = rw none_yet (enqueue_alarm-some alarm fuel _ placed.1);
        stamps = refl;
        alarms = placed.2;
        programmed = rw none_yet;
        no_calls = refl;
        same_head = refl;
      }
      | inr more ↦ record {
        t' = record t { links = placed.0; stamp = stamp };
        returns = rw more (enqueue_alarm-some alarm fuel _ placed.1);
        stamps = refl;
        alarms = placed.2;
        programmed = rw more;
        no_calls = refl;
        same_head = refl;
      }
    ]

-- `timer_remove_alarm` takes the alarm out of the ring and keeps the others in order, and clears
-- the driver's timeout exactly if no alarm is left; no callback runs.
pub timer_remove_alarm_lem :
    (t : Timer) (x : ℕ) (xs ys : List ℕ)
    → IsRing t.links t.head (xs ++ x ∷ ys)
    → IsRing (timer_remove_alarm x t).links t.head (xs ++ ys)
      × ((timer_remove_alarm x t).driver
          ≡ (if is_empty (dequeue x t.links) t.head then cleared else t.driver))
      × ((is_empty (dequeue x t.links) t.head ≡ true) ↔ (xs ++ ys ≡ []))
      × ((timer_remove_alarm x t).fired ≡ t.fired)
unfolding timer_remove_alarm
timer_remove_alarm_lem t x xs ys r =
    let removed = dequeue-remove x xs ys r in
    elim (Bool-cases (is_empty (dequeue x t.links) t.head)) [
      | inl gone ↦ (rw gone removed.0, rw gone, (observers_lem (xs ++ ys) removed.0).0, rw gone)
      | inr more ↦ (rw more removed.0, rw more, (observers_lem (xs ++ ys) removed.0).0, rw more)
    ]

-- A list with one alarm, to which another is added for a later time: `timer_add_alarm` puts the
-- new one in front. So at a time at which only the old alarm has expired, `handle_timeout` calls
-- no callback, leaves both alarms in the list and programs the driver for the new one.
pub handle_timeout-passed_over :
    (func : ℕ → ℕ) (t : Timer) (fuel now a b reltime : ℕ)
    → IsRing t.links t.head (a ∷ [])
    → has b (t.head ∷ a ∷ []) ≡ false
    → b ≢ 0
    → t.stamp a ≤ now
    → now < add_ns t.timestamp_ns reltime
    → (t' : Timer) × (timer_add_alarm (suc (suc fuel)) b reltime t ≡ some t')
      × (t'.stamp a ≤ now)
      × Fired t' now [] (b ∷ a ∷ []) (handle_timeout func (suc fuel) now t')
unfolding cmp_timestamp put insert
handle_timeout-passed_over func t fuel now a b reltime r out pos due later =
    let added =
      timer_add_alarm-Added t (suc (suc fuel)) b reltime (a ∷ []) r (omega arith) out pos in
    let stamps = added.stamps in
    let old : added.t'.stamp a ≡ t.stamp a = rw stamps (ground arith) in
    let new : added.t'.stamp b ≡ add_ns t.timestamp_ns reltime = rw stamps (ground arith) in
    let above : cmp_timestamp added.t'.stamp b a ≡ true = ground arith in
    let ring : IsRing added.t'.links added.t'.head (b ∷ a ∷ []) =
      rw added.same_head (rw above at added.alarms) in
    (
      added.t',
      added.returns,
      ground arith,
      handle_timeout-Fired func now (suc fuel) added.t' [] (b ∷ a ∷ []) ring tt (ground arith)
          (omega arith),
    )
