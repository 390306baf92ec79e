-- ===== src/Semaphore/Waiters.antt =====
-- `semaphore_leave` and `semaphore_try_enter` of src/kernel/bin/semaphore.c.
use mathlib.Core.Option
use opsys.Base.{
  ℕ, zero, suc, ◌+◌, ◌-◌, ◌%◌, ◌^◌, ◌<◌, ◌≡◌, refl, ◌≢◌, ap, ◌∙◌, false, Bool-cases, inl, inr, none,
  some, ◌==◌, List, [], ◌∷◌, length, arith, eq→==, ne→==, if◌then◌else◌, Result, ok, err, ebusy,
  ==→eq,
}
use opsys.LinkedList.{Links}
use opsys.LinkedList.Chain.{IsRing, Chain, has}
use opsys.Task.{ThreadState, ready}
use opsys.Semaphore.{
  Semaphore, spinlock_lock, spinlock_try_lock, locked, set_state, is_waiting, wake, semaphore_leave,
  semaphore_try_enter,
}

pub lock_free : (fuel uid : ℕ) → spinlock_lock (suc fuel) 0 uid ≡ some uid
unfolding spinlock_lock spinlock_try_lock
lock_free fuel uid = refl

pub lock_held : (fuel l uid : ℕ) → l ≢ 0 → spinlock_lock fuel l uid ≡ none
unfolding spinlock_lock
lock_held zero l uid ne = refl
lock_held (suc fuel) l uid ne = rw (ne→== l 0 ne) (lock_held fuel l uid ne)

pub locked_free :
    (fuel uid : ℕ) (s : Semaphore)
    → s.lock ≡ 0
    → locked (suc fuel) uid s ≡ some (record s { lock = uid })
unfolding locked
locked_free fuel uid s e =
    ap (Option.map (λ l. record s { lock = l }))
      (ap (λ l. spinlock_lock (suc fuel) l uid) e ∙ lock_free fuel uid)

pub locked_held : (fuel uid : ℕ) (s : Semaphore) → s.lock ≢ 0 → locked fuel uid s ≡ none
unfolding locked
locked_held fuel uid s ne =
    ap (Option.map (λ l. record s { lock = l })) (lock_held fuel s.lock uid ne)

-- The first waiting thread becomes ready.
unfoldable pub woken : List ℕ → (ℕ → ThreadState) → ℕ → ThreadState
woken [] state = state
woken (x ∷ xs) state = if is_waiting (state x) then set_state state x ready else woken xs state

module _ (l : Links) (head : ℕ) (state : ℕ → ThreadState) where
  wake_lem :
      (fuel a : ℕ) (xs : List ℕ)
      → Chain l a xs head
      → has head xs ≡ false
      → length xs < fuel
      → wake fuel head l (l.next a) state ≡ some (woken xs state)
  unfolding wake woken
  wake_lem zero a xs c d f = absurd (omega arith)
  wake_lem (suc fuel) a [] c d f = rw (c.0, eq→== head head refl)
  wake_lem (suc fuel) a (x ∷ xs) c d f =
      let ne : x ≢ head = ground arith in
      let rest = wake_lem fuel x xs c.2 (ground arith) (omega arith) in
      elim (Bool-cases (is_waiting (state x))) [
        | inl w ↦ rw (c.0, ne→== x head ne, w)
        | inr w ↦ rw (c.0, ne→== x head ne, w) rest
      ]

-- With its lock free and more fuel than there are waiters, `semaphore_leave` ends: it adds one
-- slot, makes the first of the waiters that is still waiting ready, if there is one, leaves the
-- list of waiters alone and releases the lock.
pub semaphore_leave_lem :
    (fuel uid : ℕ) (xs : List ℕ) (s : Semaphore)
    → s.lock ≡ 0
    → IsRing s.links s.waiters xs
    → length xs < fuel
    → semaphore_leave fuel uid s
      ≡ some (record s { lock = 0; slots = (s.slots + 1) % 2 ^ 32; state = woken xs s.state })
unfolding semaphore_leave
semaphore_leave_lem zero uid xs s e ring f = absurd (omega arith)
semaphore_leave_lem (suc fuel) uid xs s e ring f =
    let w =
      wake_lem s.links s.waiters s.state (suc fuel) s.waiters xs ring.chain ring.distinct.0 f in
    rw (locked_free fuel uid s e, semaphore_leave) (rw w refl)

leave_stuck : (fuel uid : ℕ) (s : Semaphore) → s.lock ≢ 0 → semaphore_leave fuel uid s ≡ none
unfolding semaphore_leave
leave_stuck fuel uid s ne = rw (locked_held fuel uid s ne, semaphore_leave) refl

-- `semaphore_try_enter` on a free lock takes a slot, or returns -EBUSY if there is none. In either
-- case it keeps the lock, for a caller whose number is not 0, so that `semaphore_leave` does not
-- end after it, however much fuel it has.
pub semaphore_try_enter-stuck :
    (fuel uid : ℕ) (s : Semaphore)
    → s.lock ≡ 0
    → uid ≢ 0
    → (res : Result (Unit {0})) × (s' : Semaphore) × (semaphore_try_enter (suc fuel) uid s
        ≡ some (res, s'))
      × (s'.slots ≡ s.slots - 1)
      × ((n other : ℕ) → semaphore_leave n other s' ≡ none)
unfolding semaphore_try_enter
semaphore_try_enter-stuck fuel uid s e ne = elim (Bool-cases (s.slots == 0)) [
  | inl none_left ↦ (
    err ebusy,
    record s { lock = uid },
    rw (locked_free fuel uid s e, semaphore_try_enter) (rw none_left refl),
    omega (arith, ==→eq s.slots 0 none_left),
    λ n other. leave_stuck n other (record s { lock = uid }) ne,
  )
  | inr some_left ↦ (
    ok tt,
    record s { lock = uid; slots = s.slots - 1 },
    rw (locked_free fuel uid s e, semaphore_try_enter) (rw some_left refl),
    refl,
    λ n other. leave_stuck n other (record s { lock = uid; slots = s.slots - 1 }) ne,
  )
]
