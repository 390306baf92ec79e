-- ===== src/Irq/Examples.antt =====
-- The theorems on irq.c at line 1 with the handlers 2 and 3, of which the second handles it.
use opsys.Base.{ℕ, refl, true, ◌⊎◌, ◌==◌, [], ◌∷◌, arith, if◌then◌else◌, ok}
use opsys.LinkedList.{Links, init_head, enqueue_back}
use opsys.LinkedList.Chain.{IsRing}
use opsys.LinkedList.Enqueue.{enqueue_back-append}
use opsys.LinkedList.Dequeue.{init_head-IsRing}
use opsys.Irq.{Irq, IrqStatus, irq_handled, irq_not_handled, Handler, handle_irq}
use opsys.Irq.Handle.{Asked, asked, handle_irq-Asked}
use opsys.Irq.Install.{Refused, Appended, install_irq_handler_lem}

abbrev blank : Links
blank = record { next = λ a. 0; prev = λ a. 0 }

abbrev two_handlers : Links
two_handlers = enqueue_back 1008 3 (enqueue_back 1008 2 (init_head 1008 blank))

two_handlers-IsRing : IsRing two_handlers 1008 (2 ∷ 3 ∷ [])
two_handlers-IsRing =
    let none_yet = init_head-IsRing blank 1008 (omega arith) in
    let one = enqueue_back-append 2 [] none_yet refl (omega arith) in
    (enqueue_back-append 3 (2 ∷ []) one.0 refl (omega arith)).0

abbrev busy : Irq
busy = record {
  links = two_handlers;
  irqh = 1000;
  func = λ a. 0;
  enable_irq = 7;
  disable_irq = 8;
  ints = true;
  pic = [];
  called = [];
}

abbrev answer : ℕ → IrqStatus
answer irqh = if irqh == 3 then irq_handled else irq_not_handled

abbrev reply : Handler
reply func irqno irqh s = (answer irqh, s)

handle_irq-Asked_example : Asked busy (asked answer (2 ∷ 3 ∷ [])) (handle_irq reply 3 1 busy)
handle_irq-Asked_example =
    handle_irq-Asked reply 1 1008 answer 3 busy (2 ∷ 3 ∷ []) refl two_handlers-IsRing
      (λ s y m. refl, (λ s y m. refl, tt)) (λ s. (refl, refl), (λ s. (refl, refl), tt))
      (omega arith)

install_irq_handler_example :
    Refused (λ func irqno. ok tt) busy 1 4 (2 ∷ 3 ∷ [])
    ⊎ Appended (λ func irqno. ok tt) busy 1 4 (2 ∷ 3 ∷ [])
install_irq_handler_example =
    install_irq_handler_lem (λ func irqno. ok tt) busy 1 4 (2 ∷ 3 ∷ []) two_handlers-IsRing refl
      (omega arith)
