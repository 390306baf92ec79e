-- ===== src/Semaphore/Handover.antt =====
-- A thread that waits in `semaphore_enter` of src/kernel/bin/semaphore.c gets the slot that another
-- thread gives back.
use mathlib.Core.List.{append-nil}
use opsys.Base.{
  ℕ, suc, ◌+◌, ◌-◌, ◌%◌, ◌^◌, ◌<◌, ◌≡◌, refl, ◌≢◌, ap, ◌∙◌, false, Option, none, some, List, [],
  ◌∷◌, ◌++◌, length, arith, eq→==, ne→==, length-append,
}
use opsys.LinkedList.{dequeue}
use opsys.LinkedList.Chain.{IsRing, has}
use opsys.LinkedList.Enqueue.{enqueue_back-append}
use opsys.LinkedList.Dequeue.{dequeue-remove}
use opsys.Task.{ThreadState, ready, waiting}
use opsys.Semaphore.{Semaphore, set_state, is_waiting, waits, semaphore_enter, semaphore_leave}
use opsys.Semaphore.Waiters.{locked_free, woken, semaphore_leave_lem}

module _ (switch : Semaphore → Semaphore) (uid self : ℕ) where
  pub enter_free :
      (fuel : ℕ) (s : Semaphore)
      → s.lock ≡ 0
      → s.slots ≢ 0
      → semaphore_enter switch (suc fuel) uid self s
        ≡ some (record s { lock = 0; slots = s.slots - 1 })
  unfolding semaphore_enter
  enter_free fuel s e ne =
      rw (locked_free fuel uid s e, semaphore_enter) (rw (ne→== s.slots 0 ne) refl)

  enter_wait :
      (fuel : ℕ) (s b : Semaphore)
      → s.lock ≡ 0
      → s.slots ≡ 0
      → switch (waits self (record s { lock = uid })) ≡ b
      → b.lock ≡ 0
      → semaphore_enter switch (suc fuel) uid self s
        ≡ semaphore_enter switch fuel uid self (record b { lock = 0; links = dequeue self b.links })
  unfolding semaphore_enter
  enter_wait fuel s b e none_left back free =
      rw (locked_free fuel uid s e, semaphore_enter)
        (rw (eq→== s.slots 0 none_left)
          (rw (back, semaphore_enter) (rw (locked_free fuel uid b free, semaphore_enter) refl)))

-- None of these threads waits any longer.
abbrev pub AllAwake : List ℕ → (ℕ → ThreadState) → Type 0
AllAwake [] state = Unit {0}
AllAwake (x ∷ xs) state = (is_waiting (state x) ≡ false) × AllAwake xs state

set_state_other :
    (state : ℕ → ThreadState) (a : ℕ) (new : ThreadState) (x : ℕ)
    → x ≢ a
    → set_state state a new x ≡ state x
unfolding set_state
set_state_other state a new x ne = rw (ne→== x a ne)

set_state_self :
    (state : ℕ → ThreadState) (a : ℕ) (new : ThreadState) → set_state state a new a ≡ new
unfolding set_state
set_state_self state a new = rw (eq→== a a refl)

-- Behind threads that are awake, the last waiter is the one to be woken.
woken-last :
    (xs : List ℕ) (self : ℕ) (state : ℕ → ThreadState)
    → AllAwake xs state
    → has self xs ≡ false
    → woken (xs ++ self ∷ []) (set_state state self waiting)
      ≡ set_state (set_state state self waiting) self ready
unfolding woken
woken-last [] self state awake out = rw (set_state_self state self waiting) refl
woken-last (x ∷ xs) self state awake out =
    let ne : x ≢ self = ground arith in
    rw (set_state_other state self waiting x ne, awake.0)
      (woken-last xs self state awake.1 (ground arith))

-- The waiter is back with the slot: none is left, the lock is free, the list of waiters is the old
-- one, and of the states only its own changed, to ready.
pub record HandedOver (s : Semaphore) (xs : List ℕ) (self : ℕ) (r : Option Semaphore) : Type 0 where
  pub s' : Semaphore
  pub returns : r ≡ some s'
  pub free : s'.lock ≡ 0
  pub slots : s'.slots ≡ 0
  pub ring : IsRing s'.links s'.waiters xs
  pub ready_now : s'.state self ≡ ready
  pub others : (x : ℕ) → x ≢ self → s'.state x ≡ s.state x

abbrev some_value : {A : Type 0} → A → Option A → A
some_value a none = a
some_value a (some b) = b

-- No lost wake-up: a thread that finds no slot, on a semaphore with a free lock whose other
-- waiters are all awake, joins the waiters and switches to other threads. If these call
-- `semaphore_leave` once before the thread runs again, `semaphore_enter` ends within two rounds:
-- the thread is ready and has the slot, and the list of waiters and the lock are as before.
pub semaphore_enter-leave :
    (switch : Semaphore → Semaphore) (fuel n uid other self : ℕ) (xs : List ℕ) (s : Semaphore)
    → s.lock ≡ 0
    → s.slots ≡ 0
    → IsRing s.links s.waiters xs
    → AllAwake xs s.state
    → has self (s.waiters ∷ xs) ≡ false
    → self ≢ 0
    → length xs + 1 < n
    → some (switch (waits self (record s { lock = uid })))
      ≡ semaphore_leave n other (waits self (record s { lock = uid }))
    → HandedOver s xs self (semaphore_enter switch (suc (suc fuel)) uid self s)
semaphore_enter-leave switch fuel n uid other self xs s free none_left ring awake out pos long
      left =
    let w = waits self (record s { lock = uid }) in
    let joined = (enqueue_back-append self xs ring out pos).0 in
    let leave =
      semaphore_leave_lem n other (xs ++ self ∷ []) w refl joined
        (omega (arith, length-append xs (self ∷ []), long)) in
    let state' = woken (xs ++ self ∷ []) w.state in
    let b : Semaphore = record w { lock = 0; slots = (w.slots + 1) % 2 ^ 32; state = state' } in
    let back : switch w ≡ b = ap (some_value w) (left ∙ leave) in
    let again : Semaphore = record b { lock = 0; links = dequeue self b.links } in
    let one : again.slots ≡ 1 = omega (arith, none_left) in
    let states = woken-last xs self s.state awake (ground arith) in
    record {
      s' = record again { lock = 0; slots = again.slots - 1 };
      returns =
          enter_wait switch uid self (suc fuel) s b free none_left back refl
          ∙ enter_free switch uid self fuel again refl (omega (arith, one));
      free = refl;
      slots = omega (arith, one);
      ring = rw (append-nil xs) at (dequeue-remove self xs [] joined).0;
      ready_now = rw states (set_state_self (set_state s.state self waiting) self ready);
      others = λ x ne. rw states (
          set_state_other (set_state s.state self waiting) self ready x ne
          ∙ set_state_other s.state self waiting x ne);
    }
