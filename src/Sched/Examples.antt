-- ===== src/Sched/Examples.antt =====
-- The theorems on sched.c for list heads from address 1000 and the ready threads 2 and 3.
use opsys.Base.{
  ℕ, suc, ◌<◌, ◌≡◌, refl, ◌≢◌, true, false, List, [], ◌∷◌, arith, length, Result, err, eq-cases,
  inl, inr, einval, ◌⊎◌,
}
use opsys.LinkedList.{Links, init_head}
use opsys.LinkedList.Chain.{has}
use opsys.Task.{ready}
use opsys.Timer.{Timer, unset}
use opsys.Sched.{
  Sched, halt, head_of, init_heads, sched_add_thread, sched_select_thread, sched_switch,
}
use opsys.Sched.Queues.{IsQueues, upd, sched_add_thread_lem}
use opsys.Sched.Select.{Chosen, NoneIn, ready_in, sched_select_thread_lem}
use opsys.Sched.Switch.{Rotated, sched_switch_lem}
use opsys.Sched.Init.{init_heads-IsQueues}

abbrev unlinked : Links
unlinked = record { next = λ a. 0; prev = λ a. 0 }

abbrev idle_timer : Timer
idle_timer = record {
  links = init_head 7 unlinked;
  head = 7;
  timestamp_ns = 0;
  stamp = λ a. 0;
  fired = [];
  driver = unset;
}

abbrev blank : Sched
blank = record {
  links = unlinked;
  g_thread = 1000;
  current = λ cpu. 2;
  state = λ t. ready;
  prio = λ t. 0;
  id = λ t. t;
  taskid = λ t. 1;
  timer = idle_timer;
  g_alarm = 8;
}

abbrev start : Sched
start = record blank { links = init_heads 256 1000 unlinked }

abbrev one_queue : ℕ → List ℕ
one_queue = upd (λ p. []) 4 (2 ∷ [])

abbrev two_queue : ℕ → List ℕ
two_queue = upd one_queue 4 (2 ∷ 3 ∷ [])

-- The thread 2, and then the thread 3, of priority 4.
abbrev one : Sched
one = sched_add_thread 2 4 start

abbrev two : Sched
two = sched_add_thread 3 4 one

one-IsQueues : IsQueues one one_queue
one-IsQueues =
    sched_add_thread_lem start (λ p. []) (init_heads-IsQueues blank (omega arith)) 4 (omega arith) 2
      (λ p low. ground arith) (omega arith)

fresh_three : (p : ℕ) → p < 256 → has 3 (head_of one.g_thread p ∷ one_queue p) ≡ false
unfolding sched_add_thread upd
fresh_three p low = elim (eq-cases p 4) [ inl e ↦ rw e refl | inr ne ↦ ground (arith, ne) ]

two-IsQueues : IsQueues two two_queue
unfolding upd
two-IsQueues =
    sched_add_thread_lem one one_queue one-IsQueues 4 (omega arith) 3 fresh_three (omega arith)

two_queue-at : two_queue 4 ≡ 2 ∷ 3 ∷ []
unfolding upd
two_queue-at = refl

enough : (p : ℕ) → p < 256 → length (two_queue p) < 3
unfolding upd
enough p low = elim (eq-cases p 4) [ inl e ↦ rw e (omega arith) | inr ne ↦ ground (arith, ne) ]

sched_select_thread_example :
    ((c : Chosen (ready_in two) two_queue 0 256 (sched_select_thread 3 two)) × NoneIn
        (ready_in two)
        two_queue
        (suc c.prio)
        256)
    ⊎ ((sched_select_thread 3 two ≡ halt) × NoneIn (ready_in two) two_queue 0 256)
sched_select_thread_example = sched_select_thread_lem two two_queue 3 two-IsQueues enough

two_ready : ready_in two 2 ≡ true
unfolding sched_add_thread
two_ready = refl

-- A switch that always fails.
abbrev broken : ℕ → ℕ → Sched → Result (Unit {0}) × Sched
broken self next s = (err einval, s)

sched_switch_example : Rotated broken two two_queue 0 (sched_switch broken 3 0 two)
unfolding upd
sched_switch_example =
    sched_switch_lem broken two two_queue 3 0 4 2 two-IsQueues enough (omega arith) (omega arith)
      refl two_ready

idle_no_head : (p : ℕ) → p < 256 → 2 ≢ head_of 1000 p
idle_no_head p low = omega arith
