-- ===== src/Timer/Handle.antt =====
-- `handle_timeout` calls the expired alarms at the front of the list.
use opsys.Base.{
  ℕ, zero, suc, ◌≤◌, ◌<◌, ◌≡◌, refl, sym, ap, ◌∙◌, true, false, Option, some, ◌==◌, List, [], ◌∷◌,
  ◌++◌, length, arith, eq→==, leb,
}
use mathlib.Core.List.{append_assoc, append-nil}
use opsys.LinkedList.{dequeue}
use opsys.LinkedList.Chain.{IsRing, first_of, Chain-first}
use opsys.LinkedList.Dequeue.{dequeue-remove}
use opsys.Timer.{
  Driver, timeout, cleared, Timer, sub_ns, alarm_has_expired, rearm, handle_loop, program,
  handle_timeout,
}

-- The alarm fires and its callback asks for no further call.
abbrev pub OneShots : (ℕ → ℕ) → (ℕ → ℕ) → ℕ → List ℕ → Type 0
OneShots func stamp now [] = Unit {0}
OneShots func stamp now (x ∷ xs) = (stamp x ≤ now) × (func x ≡ 0) × OneShots func stamp now xs

-- The list is empty or its first alarm is in the future.
abbrev pub Waits : (ℕ → ℕ) → ℕ → List ℕ → Type 0
Waits stamp now [] = Unit {0}
Waits stamp now (y ∷ ys) = now < stamp y

-- How the driver is left for the first waiting alarm.
abbrev pub wakeup : (ℕ → ℕ) → ℕ → List ℕ → Driver
wakeup stamp now [] = cleared
wakeup stamp now (y ∷ ys) = timeout (sub_ns (stamp y) now)

pub record Fired (t : Timer) (now : ℕ) (xs ys : List ℕ) (r : Option Timer) : Type 0 where
  pub t' : Timer
  pub returns : r ≡ some t'
  pub alarms : IsRing t'.links t.head ys
  pub calls : t'.fired ≡ t.fired ++ xs
  pub stamps : t'.stamp ≡ t.stamp
  pub driver : t'.driver ≡ wakeup t.stamp now ys

-- What the loop leaves when it has run the alarms `xs`.
record Stopped (t : Timer) (xs ys : List ℕ) (r : Option (ℕ × Timer)) : Type 0 where
  t' : Timer
  returns : r ≡ some (first_of ys t.head, t')
  alarms : IsRing t'.links t.head ys
  calls : t'.fired ≡ t.fired ++ xs
  stamps : t'.stamp ≡ t.stamp
  same_head : t'.head ≡ t.head

program-fields :
    (now item : ℕ) (t : Timer)
    → ((program now (item, t)).links ≡ t.links)
      × ((program now (item, t)).fired ≡ t.fired)
      × ((program now (item, t)).stamp ≡ t.stamp)
unfolding program
program-fields now item t = ground arith

program-driver :
    (now h : ℕ) (t : Timer) (ys : List ℕ)
    → t.head ≡ h
    → IsRing t.links h ys
    → (program now (first_of ys h, t)).driver ≡ wakeup t.stamp now ys
unfolding program
program-driver now h t [] e r = ground arith
program-driver now h t (y ∷ ys) e r = ground (arith, r.distinct)

module _ (func : ℕ → ℕ) (now : ℕ) where
  stop_lem :
      (fuel : ℕ) (t : Timer) (ys : List ℕ)
      → IsRing t.links t.head ys
      → Waits t.stamp now ys
      → handle_loop func (suc fuel) now (first_of ys t.head) t ≡ some (first_of ys t.head, t)
  unfolding handle_loop alarm_has_expired
  stop_lem fuel t [] r w = rw (eq→== t.head t.head refl)
  stop_lem fuel t (y ∷ ys) r w = ground (arith, r.distinct)

  loop_lem :
      (fuel : ℕ) (t : Timer) (xs ys : List ℕ)
      → IsRing t.links t.head (xs ++ ys)
      → OneShots func t.stamp now xs
      → Waits t.stamp now ys
      → length xs < fuel
      → Stopped t xs ys (handle_loop func fuel now (first_of (xs ++ ys) t.head) t)
  unfolding handle_loop alarm_has_expired rearm
  loop_lem zero t xs ys r one w f = absurd (omega arith)
  loop_lem (suc fuel) t [] ys r one w f = record {
    t' = t;
    returns = stop_lem fuel t ys r w;
    alarms = r;
    calls = sym (append-nil t.fired);
    stamps = refl;
    same_head = refl;
  }
  loop_lem (suc fuel) t (x ∷ xs) ys r one w f =
      let called : Timer = record t { links = dequeue x t.links; fired = t.fired ++ x ∷ [] } in
      let removed = dequeue-remove x [] (xs ++ ys) r in
      let rest = loop_lem fuel called xs ys removed.0 one.2 w (omega arith) in
      let next : t.links.next x ≡ first_of (xs ++ ys) t.head =
        Chain-first t.links x (xs ++ ys) t.head r.chain.2 in
      let inner : (x == t.head) ≡ false = ground (arith, r.distinct) in
      let expired : leb (t.stamp x) now ≡ true = ground (arith, one.0) in
      let once : (func x == 0) ≡ true = ground (arith, one.1) in
      record {
        t' = rest.t';
        returns = rw (inner, expired, once, next) rest.returns;
        alarms = rest.alarms;
        calls = rest.calls ∙ append_assoc t.fired (x ∷ []) xs;
        stamps = rest.stamps;
        same_head = rest.same_head;
      }

  -- On a list of alarms that begins with the expired alarms `xs`, whose callbacks all return 0,
  -- and goes on with `ys`, of which the first is not expired: with more fuel than there are
  -- alarms in `xs`, `handle_timeout` ends, has called exactly `xs` in order and taken them out
  -- of the list, and has programmed the driver for the first of `ys`, or cleared its timeout.
  pub handle_timeout-Fired :
      (fuel : ℕ) (t : Timer) (xs ys : List ℕ)
      → IsRing t.links t.head (xs ++ ys)
      → OneShots func t.stamp now xs
      → Waits t.stamp now ys
      → length xs < fuel
      → Fired t now xs ys (handle_timeout func fuel now t)
  unfolding handle_timeout
  handle_timeout-Fired fuel t xs ys r one w f =
      let s = loop_lem fuel t xs ys r one w f in
      let begin : t.links.next t.head ≡ first_of (xs ++ ys) t.head =
        Chain-first t.links t.head (xs ++ ys) t.head r.chain in
      let kept = program-fields now (first_of ys t.head) s.t' in
      record {
        t' = program now (first_of ys t.head, s.t');
        returns = rw (begin, handle_timeout) (rw (s.returns, handle_timeout) refl);
        alarms = rw kept.0 s.alarms;
        calls = kept.1 ∙ s.calls;
        stamps = kept.2 ∙ s.stamps;
        driver =
            program-driver now t.head s.t' ys s.same_head s.alarms
            ∙ ap (λ f. wakeup f now ys) s.stamps;
      }
