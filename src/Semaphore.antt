-- ===== src/Semaphore.antt =====
-- Spin locks and semaphores with their waiters: src/kernel/bin/spinlock.c, semaphore.c and their
-- headers. The calling thread is the address `self` of its wait node, and `uid`, the number that it
-- writes into a lock. A loop that does not end runs out of fuel, which is `none`.
pub mod Waiters
pub mod Handover
mod Examples
use mathlib.Core.Option
use opsys.Base.{
  ℕ, zero, suc, ◌+◌, ◌-◌, ◌%◌, ◌^◌, ◌≡◌, Bool, true, false, Option, none, some, ◌==◌, if◌then◌else◌,
  Result, ok, err, ebusy,
}
use opsys.LinkedList.{Links, init_head, list_begin, list_end, list_next, enqueue_back, dequeue}
use opsys.Task.{ThreadState, zombie, ready, send, recv, waiting}

infixl 5 ◌>>=◌
abbrev pub ◌>>=◌ : {A B : Type 0} → Option A → (A → Option B) → Option B
none >>= k = none
some a >>= k = k a

-- A semaphore, with the links and the states of the threads; `waiters` is the address of the list
-- head.
pub record Semaphore : Type 0 where
  pub lock : ℕ
  pub slots : ℕ
  pub waiters : ℕ
  pub links : Links
  pub state : ℕ → ThreadState

abbrev pub spinlock_init : ℕ → Result (Unit {0}) × ℕ
spinlock_init spinlock = (ok tt, 0)

abbrev pub spinlock_uninit : ℕ → ℕ
spinlock_uninit spinlock = spinlock

-- `atomic_xchg` writes the lock in either case.
unfoldable pub spinlock_try_lock : ℕ → ℕ → Result (Unit {0}) × ℕ
spinlock_try_lock spinlock uid = (if spinlock == 0 then ok tt else err ebusy, uid)

unfoldable pub spinlock_lock : ℕ → ℕ → ℕ → Option ℕ
spinlock_lock zero spinlock uid = none
spinlock_lock (suc fuel) spinlock uid =
    let again = spinlock_lock fuel spinlock uid in
    let tried = spinlock_try_lock spinlock uid in
    let failed = spinlock_lock fuel tried.1 uid in
    if spinlock == 0 then (elim tried.0 [ ok _ ↦ some tried.1 | err e ↦ failed ]) else again

abbrev pub spinlock_unlock : ℕ → ℕ
spinlock_unlock spinlock = 0

unfoldable pub semaphore_init : ℕ → Semaphore → Result (Unit {0}) × Semaphore
semaphore_init slots s =
    let r = spinlock_init s.lock in
    elim r.0 [
      | err e ↦ (err e, record s { lock = r.1 })
      | ok _ ↦ (ok tt, record s { lock = r.1; slots = slots; links = init_head s.waiters s.links })
    ]

unfoldable pub semaphore_uninit : Semaphore → Semaphore
semaphore_uninit s = record s { lock = spinlock_uninit s.lock }

unfoldable pub locked : ℕ → ℕ → Semaphore → Option Semaphore
locked fuel uid s = Option.map (λ l. record s { lock = l }) (spinlock_lock fuel s.lock uid)

abbrev pub unlocked : Semaphore → Semaphore
unlocked s = record s { lock = spinlock_unlock s.lock }

-- The lock is not released.
unfoldable pub semaphore_try_enter : ℕ → ℕ → Semaphore → Option (Result (Unit {0}) × Semaphore)
semaphore_try_enter fuel uid s =
    Option.map
      (λ (t : Semaphore).
        if t.slots == 0 then (err ebusy, t) else (ok tt, record t { slots = t.slots - 1 }))
      (locked fuel uid s)

unfoldable pub set_state : (ℕ → ThreadState) → ℕ → ThreadState → ℕ → ThreadState
set_state state tcb new x = if x == tcb then new else state x

-- No slot is free: the thread goes to the back of the waiters and waits.
abbrev pub waits : ℕ → Semaphore → Semaphore
waits self t = unlocked (record t {
  links = enqueue_back t.waiters self t.links;
  state = set_state t.state self waiting;
})

-- `switch` is `sched_switch`: it returns in the state that other threads have left. The fuel
-- bounds the rounds of the loop, and each wait for the lock.
unfoldable pub semaphore_enter : (Semaphore → Semaphore) → ℕ → ℕ → ℕ → Semaphore → Option Semaphore
semaphore_enter switch zero uid self s = none
semaphore_enter switch (suc fuel) uid self s = do
  t ← locked (suc fuel) uid s
  if t.slots == 0
      then (do
        back ← locked (suc fuel) uid (switch (waits self t))
        semaphore_enter switch fuel uid self
            (unlocked (record back { links = dequeue self back.links })))
      else some (unlocked (record t { slots = t.slots - 1 }))

abbrev pub is_waiting : ThreadState → Bool
is_waiting zombie = false
is_waiting ready = false
is_waiting send = false
is_waiting recv = false
is_waiting waiting = true

-- The loop over the waiters.
unfoldable pub wake : ℕ → ℕ → Links → ℕ → (ℕ → ThreadState) → Option (ℕ → ThreadState)
wake zero head l item state = none
wake (suc fuel) head l item state =
    let rest = wake fuel head l (list_next l item) state in
    if item == list_end head
    then some state
    else (if is_waiting (state item) then some (set_state state item ready) else rest)

unfoldable pub semaphore_leave : ℕ → ℕ → Semaphore → Option Semaphore
semaphore_leave fuel uid s = do
  t ← locked fuel uid s
  state ← wake fuel t.waiters t.links (list_begin t.links t.waiters) t.state
  some (unlocked (record t { slots = (t.slots + 1) % 2 ^ 32; state = state }))
