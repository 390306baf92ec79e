-- ===== src/Ipc.antt =====
-- Sending and receiving messages: src/kernel/bin/ipc.c and ipc.h. A message is the address of its
-- list node, its first member. The spin locks of the threads are taken and given back by each
-- operation, and are left out.
pub mod Queue
pub mod Sending
mod Examples
use opsys.Base.{
  ℕ, ◌+◌, ◌-◌, ◌^◌, ◌≡◌, Bool, true, false, ◌&&◌, not, ◌==◌, ltb, if◌then◌else◌, List, [], ◌∷◌,
  ◌++◌, Result, ok, err, bit_and, bit_or, ebusy, einval, eagain, enosys,
}
use opsys.LinkedList.{Links, first, is_empty, enqueue_back, dequeue, set_next, set_prev}
use opsys.Task.{ThreadState, zombie, ready, send, recv, waiting}
use opsys.Semaphore.{set_state}
use opsys.IpcMsg.{IpcMsg, ipc_msg_flags_reserved, ipc_timeout_now, ipc_msg_flags_get_timeout}

-- A call of `vmem_map_pages_at`, with the threads whose address spaces it gets. Its result is
-- ignored.
pub record MapCall : Type 0 where
  pub dst : ℕ
  pub dst_pgindex : ℕ
  pub src : ℕ
  pub src_pgindex : ℕ
  pub pgcount : ℕ
  pub flags : ℕ

-- `ipcin tcb` is the address of the head of the thread's queue, `msg` the fields of the messages,
-- `maps` the calls of `vmem_map_pages_at` so far.
pub record Ipc : Type 0 where
  pub links : Links
  pub ipcin : ℕ → ℕ
  pub state : ℕ → ThreadState
  pub msg : ℕ → IpcMsg
  pub maps : List MapCall

abbrev pub is_recv : ThreadState → Bool
is_recv zombie = false
is_recv ready = false
is_recv send = false
is_recv recv = true
is_recv waiting = false

unfoldable pub set_msg : (ℕ → IpcMsg) → ℕ → IpcMsg → ℕ → IpcMsg
set_msg f a v x = if x == a then v else f x

abbrev pub with_state : ℕ → ThreadState → Ipc → Ipc
with_state tcb state s = record s { state = set_state s.state tcb state }

unfoldable pub ipc_send : ℕ → ℕ → Ipc → Result (Unit {0}) × Ipc
ipc_send msg rcv s = (err enosys, s)

-- `switch` is `sched_switch`: it returns in the state that other threads have left.
unfoldable pub ipc_send_and_wait : (Ipc → Ipc) → ℕ → ℕ → Ipc → Result (Unit {0}) × Ipc
ipc_send_and_wait switch msg rcv s =
    if ipc_msg_flags_get_timeout (s.msg msg) == ipc_timeout_now && not (is_recv (s.state rcv))
    then (err ebusy, s)
    else (let s1 = record s { links = enqueue_back (s.ipcin rcv) msg s.links } in
        let s2 = with_state (s1.msg msg).snd recv s1 in
        let s3 = if is_recv (s2.state rcv) then with_state rcv ready s2 else s2 in
        (ok tt, switch s3))

unfoldable pub ipc_reply : ℕ → ℕ → Ipc → Result (Unit {0}) × Ipc
ipc_reply msg rcv s =
    if is_recv (s.state rcv) then (ok tt, with_state rcv ready s) else (err ebusy, s)

-- `IPC_MSG_FLAGS_MMAP`, the bit of a message in mmap mode.
abbrev pub ipc_msg_flags_mmap : ℕ
ipc_msg_flags_mmap = 2 ^ 17

abbrev pub is_mmap : ℕ → Bool
is_mmap flags = not (bit_and flags ipc_msg_flags_mmap == 0)

-- `memcpy(msg, msgin, sizeof(*msg))`, which copies the list node too.
abbrev pub copy_msg : ℕ → ℕ → Ipc → Ipc
copy_msg msg msgin s = record s {
  links = set_next msg (s.links.next msgin) (set_prev msg (s.links.prev msgin) s.links);
  msg = set_msg s.msg msg (s.msg msgin);
}

-- The part of `ipc_recv` behind the queue, for the message `msgin` that was taken off it.
unfoldable pub deliver : ℕ → ℕ → ℕ → Ipc → Result (Unit {0}) × Ipc
deliver msg rcv msgin s =
    let m = s.msg msg in
    let i = s.msg msgin in
    if is_mmap (bit_and m.flags i.flags)
    then (if ltb m.msg1 i.msg1 then (err eagain, s) else (
      ok tt,
      record s {
        maps =
            s.maps
            ++ record {
              dst = rcv;
              dst_pgindex = m.msg0;
              src = i.snd;
              src_pgindex = i.msg0;
              pgcount = i.msg1;
              flags = 3;
            }
              ∷ [];
        msg = set_msg s.msg msg (record m {
          snd = i.snd;
          flags = bit_and i.flags (2 ^ 32 - 1 - ipc_msg_flags_reserved);
          msg1 = i.msg1;
        });
      },
    ))
    else (if is_mmap (bit_or m.flags i.flags)
        then (err einval, s)
        else (ok tt, copy_msg msg msgin s))

unfoldable pub ipc_recv : (Ipc → Ipc) → ℕ → ℕ → Ipc → Result (Unit {0}) × Ipc
ipc_recv switch msg rcv s0 =
    let s = if is_empty s0.links (s0.ipcin rcv) then switch (with_state rcv recv s0) else s0 in
    if is_empty s.links (s.ipcin rcv)
    then (err eagain, s)
    else (let msgin = first s.links (s.ipcin rcv) in
        let t = record s { links = dequeue msgin s.links } in
        if msgin == 0 then (err eagain, t) else deliver msg rcv msgin t)

unfoldable pub ipc_reply_and_recv : ℕ → ℕ → Ipc → Result (Unit {0}) × Ipc
ipc_reply_and_recv msg rcv s = (err enosys, s)
