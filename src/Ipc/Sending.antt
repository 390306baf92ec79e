-- ===== src/Ipc/Sending.antt =====
-- `ipc_send_and_wait` of src/kernel/bin/ipc.c.
use opsys.Base.{
  ℕ, ◌≡◌, refl, ◌≢◌, sym, ◌∙◌, ◌⊎◌, inl, inr, true, false, Bool-cases, ◌==◌, eq→==, ne→==,
  if◌then◌else◌, List, [], ◌∷◌, ◌++◌, Result, ok, err, ebusy,
}
use opsys.LinkedList.{enqueue_back}
use opsys.LinkedList.Chain.{IsRing, has}
use opsys.LinkedList.Enqueue.{enqueue_back-append}
use opsys.Task.{ThreadState, ready, recv}
use opsys.Semaphore.{set_state}
use opsys.IpcMsg.{ipc_timeout_now, ipc_msg_flags_get_timeout}
use opsys.Ipc.{Ipc, is_recv, ipc_send_and_wait}

-- The sender will not wait, and the receiver is not receiving: nothing happens.
pub record Busy (msg rcv : ℕ) (s : Ipc) (r : Result (Unit {0}) × Ipc) : Type 0 where
  pub now : (ipc_msg_flags_get_timeout (s.msg msg) == ipc_timeout_now) ≡ true
  pub not_receiving : is_recv (s.state rcv) ≡ false
  pub result : r ≡ (err ebusy, s)

-- The state in which the sender switches to other threads: its message is the last of the queue,
-- it waits for the reply, and the receiver does not wait. The message was not to be refused: the
-- receiver did wait for messages, or the timeout is not NOW.
pub record Sent (msg rcv : ℕ) (xs : List ℕ) (s before : Ipc) : Type 0 where
  pub not_refused :
      (is_recv (s.state rcv) ≡ true)
      ⊎ ((ipc_msg_flags_get_timeout (s.msg msg) == ipc_timeout_now) ≡ false)
  pub ring : IsRing before.links (s.ipcin rcv) (xs ++ msg ∷ [])
  pub sender : before.state (s.msg msg).snd ≡ recv
  pub woken : is_recv (before.state rcv) ≡ false
  pub others : (x : ℕ) → x ≢ rcv → x ≢ (s.msg msg).snd → before.state x ≡ s.state x

set_state_self :
    (state : ℕ → ThreadState) (a : ℕ) (new : ThreadState) → set_state state a new a ≡ new
unfolding set_state
set_state_self state a new = rw (eq→== a a refl)

set_state_other :
    (state : ℕ → ThreadState) (a : ℕ) (new : ThreadState) (x : ℕ)
    → x ≢ a
    → set_state state a new x ≡ state x
unfolding set_state
set_state_other state a new x ne = rw (ne→== x a ne)

-- The states after the sender waits and the receiver is woken.
abbrev states : Ipc → ℕ → ℕ → ℕ → ThreadState
states s snd rcv =
    let waits = set_state s.state snd recv in
    if is_recv (s.state rcv) then set_state waits rcv ready else waits

module _ (switch : Ipc → Ipc) (msg rcv : ℕ) (s : Ipc) where
  refused_step :
      (ipc_msg_flags_get_timeout (s.msg msg) == ipc_timeout_now) ≡ true
      → is_recv (s.state rcv) ≡ false
      → ipc_send_and_wait switch msg rcv s ≡ (err ebusy, s)
  unfolding ipc_send_and_wait
  refused_step now idle = rw (now, idle) refl

  abbrev before : Ipc
  before = record s {
    links = enqueue_back (s.ipcin rcv) msg s.links;
    state = states s (s.msg msg).snd rcv;
  }

  sent_step :
      (is_recv (s.state rcv) ≡ true)
        ⊎ ((is_recv (s.state rcv) ≡ false)
            × ((ipc_msg_flags_get_timeout (s.msg msg) == ipc_timeout_now) ≡ false))
      → rcv ≢ (s.msg msg).snd
      → ipc_send_and_wait switch msg rcv s ≡ (ok tt, switch before)
  unfolding ipc_send_and_wait
  sent_step (inl receiving) ne =
      let same = set_state_other s.state (s.msg msg).snd recv rcv ne in
      elim (Bool-cases (ipc_msg_flags_get_timeout (s.msg msg) == ipc_timeout_now)) [
        | inl now ↦ rw (now, receiving) (rw (same, receiving) refl)
        | inr later ↦ rw later (rw (same, receiving) refl)
      ]
  sent_step (inr (idle, later)) ne =
      let same = set_state_other s.state (s.msg msg).snd recv rcv ne in
      rw later (rw (same, idle) refl)

  before-Sent :
      (xs : List ℕ)
      → IsRing s.links (s.ipcin rcv) xs
      → has msg (s.ipcin rcv ∷ xs) ≡ false
      → msg ≢ 0
      → rcv ≢ (s.msg msg).snd
      → (is_recv (s.state rcv) ≡ true)
        ⊎ ((ipc_msg_flags_get_timeout (s.msg msg) == ipc_timeout_now) ≡ false)
      → Sent msg rcv xs s before
  before-Sent xs ring out pos ne allowed =
      let snd = (s.msg msg).snd in
      let waits = set_state s.state snd recv in
      let queued = (enqueue_back-append msg xs ring out pos).0 in
      elim (Bool-cases (is_recv (s.state rcv))) [
        | inl receiving ↦ record {
          not_refused = allowed;
          ring = queued;
          sender = rw receiving (
              set_state_other waits rcv ready snd (λ e. ne (sym e))
              ∙ set_state_self s.state snd recv);
          woken = rw receiving (rw (set_state_self waits rcv ready) refl);
          others = λ x a b.
              rw receiving
                (set_state_other waits rcv ready x a ∙ set_state_other s.state snd recv x b);
        }
        | inr idle ↦ record {
          not_refused = allowed;
          ring = queued;
          sender = rw idle (set_state_self s.state snd recv);
          woken = rw idle (rw (set_state_other s.state snd recv rcv ne, idle) refl);
          others = λ x a b. rw idle (set_state_other s.state snd recv x b);
        }
      ]

  -- A message that is not at address 0 and not yet in the receiver's queue, to another thread, is
  -- refused with -EBUSY and changes nothing exactly if it has the timeout NOW and the receiver does
  -- not wait for messages; otherwise it is queued as the last one, the sender waits for the reply,
  -- the receiver no longer waits for messages, and the call switches to other threads.
  pub ipc_send_and_wait_lem :
      (xs : List ℕ)
      → IsRing s.links (s.ipcin rcv) xs
      → has msg (s.ipcin rcv ∷ xs) ≡ false
      → msg ≢ 0
      → rcv ≢ (s.msg msg).snd
      → Busy msg rcv s (ipc_send_and_wait switch msg rcv s)
        ⊎ ((b : Ipc) × (ipc_send_and_wait switch msg rcv s ≡ (ok tt, switch b))
            × Sent msg rcv xs s b)
  ipc_send_and_wait_lem xs ring out pos ne =
      let sent = before-Sent xs ring out pos ne in
      elim (Bool-cases (is_recv (s.state rcv))) [
        | inl receiving ↦ inr (before, sent_step (inl receiving) ne, sent (inl receiving))
        | inr idle ↦ elim (Bool-cases (ipc_msg_flags_get_timeout (s.msg msg) == ipc_timeout_now)) [
          | inl now ↦
              inl (record { now = now; not_receiving = idle; result = refused_step now idle })
          | inr later ↦ inr (before, sent_step (inr (idle, later)) ne, sent (inr later))
        ]
      ]
