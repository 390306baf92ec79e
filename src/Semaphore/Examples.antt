-- ===== src/Semaphore/Examples.antt =====
-- The theorems on semaphore.c at a semaphore with no waiters.
use opsys.Base.{◌≡◌, refl, Option, some, none, [], ◌∷◌, arith, ap, sym, ◌∙◌}
use opsys.LinkedList.{Links, init_head}
use opsys.LinkedList.Chain.{IsRing}
use opsys.LinkedList.Enqueue.{enqueue_back-append}
use opsys.LinkedList.Dequeue.{init_head-IsRing}
use opsys.Task.{ready}
use opsys.Semaphore.{Semaphore, waits, semaphore_enter, semaphore_leave}
use opsys.Semaphore.Waiters.{semaphore_leave_lem}
use opsys.Semaphore.Handover.{HandedOver, semaphore_enter-leave}

abbrev blank : Links
blank = record { next = λ a. 0; prev = λ a. 0 }

abbrev empty : Semaphore
empty = record {
  lock = 0;
  slots = 0;
  waiters = 100;
  links = init_head 100 blank;
  state = λ x. ready;
}

empty-IsRing : IsRing empty.links 100 []
empty-IsRing = init_head-IsRing blank 100 (omega arith)

-- Another thread, with the number 8, leaves the semaphore in between.
abbrev or_same : Semaphore → Option Semaphore → Semaphore
or_same s none = s
or_same s (some t) = t

abbrev leaving : Semaphore → Semaphore
leaving s = or_same s (semaphore_leave 2 8 s)

abbrev blocked : Semaphore
blocked = waits 40 (record empty { lock = 7 })

left_once : some (leaving blocked) ≡ semaphore_leave 2 8 blocked
left_once =
    let joined = (enqueue_back-append 40 [] empty-IsRing refl (omega arith)).0 in
    let l = semaphore_leave_lem 2 8 (40 ∷ []) blocked refl joined (omega arith) in
    ap (λ o. some (or_same blocked o)) l ∙ sym l

semaphore_enter-leave_example : HandedOver empty [] 40 (semaphore_enter leaving 2 7 40 empty)
semaphore_enter-leave_example =
    semaphore_enter-leave leaving 0 2 7 8 40 [] empty refl refl empty-IsRing tt refl (omega arith)
      (omega arith) left_once
