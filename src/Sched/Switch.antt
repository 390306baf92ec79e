-- ===== src/Sched/Switch.antt =====
-- Switching to the next thread, and the start of the scheduler.
use opsys.Base.{
  ℕ, suc, ◌<◌, ◌≡◌, refl, ◌≢◌, sym, true, false, List, [], ◌∷◌, ◌++◌, ◌==◌, eq-cases, ◌⊎◌, inl, inr,
  arith, ne→==, eq→==, length, Result, ok, err, Errno, ltb,
}
use opsys.LinkedList.{put}
use opsys.LinkedList.Chain.{has, has-append}
use opsys.Task.{is_ready}
use opsys.Sched.{
  Sched, Run, done, sched_select_thread, move_thread_to_back, switched, sched_switch_to,
  sched_switch,
}
use opsys.Sched.Queues.{IsQueues, upd, move_thread_to_back_lem}
use opsys.Sched.Select.{FirstPass, NoneIn, ready_in, sched_select_thread_lem}

-- How a switch from the current thread to `next` ends, with the queues in the state `moved`.
pub data Ends (tcb_switch : ℕ → ℕ → Sched → Result (Unit {0}) × Sched) (cpu : ℕ) (moved : Sched)
    (next : ℕ) (r : Run (Result (Unit {0}) × Sched)) : Type 0 where
  same : next ≡ moved.current cpu → r ≡ done (ok tt, moved) → Ends tcb_switch cpu moved next r
  switches :
      next ≢ moved.current cpu
      → (s' : Sched)
      → tcb_switch (moved.current cpu) next (record moved { current = put moved.current cpu next })
        ≡ (ok tt, s')
      → r ≡ done (ok tt, s')
      → Ends tcb_switch cpu moved next r
  fails :
      next ≢ moved.current cpu
      → (e : Errno) (s' : Sched)
      → tcb_switch (moved.current cpu) next (record moved { current = put moved.current cpu next })
        ≡ (err e, s')
      → r ≡ done (err e, record s' { current = put s'.current cpu (moved.current cpu) })
      → Ends tcb_switch cpu moved next r

pub record Rotated (tcb_switch : ℕ → ℕ → Sched → Result (Unit {0}) × Sched) (s : Sched)
    (q : ℕ → List ℕ) (cpu : ℕ) (r : Run (Result (Unit {0}) × Sched)) : Type 0 where
  pub next : ℕ
  pub prio : ℕ
  pub low : prio < 256
  pub first : FirstPass (ready_in s) (q prio) next
  pub higher : NoneIn (ready_in s) q (suc prio) 256
  pub queues :
      IsQueues
        (move_thread_to_back next s)
        (upd q prio ((first.before ++ first.behind) ++ next ∷ []))
  pub ends : Ends tcb_switch cpu (move_thread_to_back next s) next r

module _ (tcb_switch : ℕ → ℕ → Sched → Result (Unit {0}) × Sched) where
  result-cases :
      (x : Result (Unit {0}) × Sched)
      → ((s' : Sched) × (x ≡ (ok tt, s'))) ⊎ ((e : Errno) × (s' : Sched) × (x ≡ (err e, s')))
  result-cases (ok tt, s') = inl (s', refl)
  result-cases (err e, s') = inr (e, s', refl)

  sched_switch_to_lem :
      (cpu next : ℕ) (s : Sched)
      → cpu < 1
      → next ≢ 0
      → is_ready (s.state next) ≡ true
      → Ends tcb_switch cpu
          (move_thread_to_back next s)
          next
          (sched_switch_to tcb_switch cpu next s)
  unfolding sched_switch_to switched
  sched_switch_to_lem cpu next s one pos ready =
      let moved = move_thread_to_back next s in
      let self = moved.current cpu in
      let call = tcb_switch self next (record moved { current = put moved.current cpu next }) in
      let cpu_fits : ltb cpu 1 ≡ true = ground arith in
      let there : (next == 0) ≡ false = ne→== next 0 pos in
      elim (eq-cases next self) [
        | inl e ↦ same e (rw (cpu_fits, there, ready, eq→== next self e) refl)
        | inr ne ↦ elim (result-cases call) [
          | inl (s', e) ↦ switches ne s' e (rw (cpu_fits, there, ready, ne→== next self ne, e) refl)
          | inr (e', s', e) ↦
              fails ne e' s' e (rw (cpu_fits, there, ready, ne→== next self ne, e) refl)
        ]
      ]

  sched_switch-selected :
      (fuel cpu next : ℕ) (s : Sched)
      → sched_select_thread fuel s ≡ done next
      → sched_switch tcb_switch fuel cpu s ≡ sched_switch_to tcb_switch cpu next s
  unfolding sched_switch
  sched_switch-selected fuel cpu next s e = rw (e, sched_switch) refl

  -- With a ready thread in some queue, on the one CPU and with more fuel than threads in any
  -- queue: `sched_switch` reaches no failing assertion. It picks the first ready thread of the
  -- highest priority that has one and moves it to the end of its queue, with the queues intact.
  -- If this is the current thread, nothing else happens; else it becomes the current thread
  -- before `tcb_switch` runs, and the former one is current again if `tcb_switch` fails.
  pub sched_switch_lem :
      (s : Sched) (q : ℕ → List ℕ) (fuel cpu p a : ℕ)
      → IsQueues s q
      → ((p' : ℕ) → p' < 256 → length (q p') < fuel)
      → cpu < 1
      → p < 256
      → has a (q p) ≡ true
      → is_ready (s.state a) ≡ true
      → Rotated tcb_switch s q cpu (sched_switch tcb_switch fuel cpu s)
  sched_switch_lem s q fuel cpu p a queues enough one low member ready =
      elim (sched_select_thread_lem s q fuel queues enough) [
        | inr (halts, nobody) ↦ absurd (ground (arith, nobody p (omega arith) low a member, ready))
        | inl (c, higher) ↦
            let first = c.first in
            let ring = queues.rings c.prio c.below in
            let null_out : has 0 (first.before ++ c.thread ∷ first.behind) ≡ false =
              rw (sym first.splits) (ground (arith, ring.not_null)) in
            let pos : c.thread ≢ 0 =
              ground (arith, null_out, has-append 0 first.before (c.thread ∷ first.behind)) in
            record {
              next = c.thread;
              prio = c.prio;
              low = c.below;
              first = first;
              higher = higher;
              queues =
                  move_thread_to_back_lem s q queues c.prio c.below c.thread first.before
                    first.behind first.splits;
              ends =
                  rw (sched_switch-selected fuel cpu c.thread s c.returns)
                    (sched_switch_to_lem cpu c.thread s one pos first.passes);
            }
      ]
