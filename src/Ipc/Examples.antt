-- ===== src/Ipc/Examples.antt =====
-- The theorems on ipc.c at a queue of one message.
use opsys.Base.{◌≡◌, refl, [], ◌∷◌, arith, ◌⊎◌, ok}
use opsys.LinkedList.{Links, init_head, enqueue_back, dequeue}
use opsys.LinkedList.Chain.{IsRing}
use opsys.LinkedList.Enqueue.{enqueue_back-append}
use opsys.LinkedList.Dequeue.{init_head-IsRing}
use opsys.Task.{ready}
use opsys.IpcMsg.{IpcMsg}
use opsys.Ipc.{Ipc, ipc_recv, ipc_send_and_wait}
use opsys.Ipc.Sending.{Busy, Sent, ipc_send_and_wait_lem}
use opsys.Ipc.Queue.{Delivered, ipc_recv_lem}

abbrev blank : Links
blank = record { next = λ a. 0; prev = λ a. 0 }

abbrev hello : IpcMsg
hello = record { snd = 3; flags = 0; msg0 = 17; msg1 = 18 }

-- The thread 2 has the message 50 in its queue.
abbrev one_message : Ipc
one_message = record {
  links = enqueue_back 100 50 (init_head 100 blank);
  ipcin = λ tcb. 100;
  state = λ tcb. ready;
  msg = λ a. hello;
  maps = [];
}

one_message-IsRing : IsRing one_message.links 100 (50 ∷ [])
one_message-IsRing =
    (enqueue_back-append 50 [] (init_head-IsRing blank 100 (omega arith)) refl (omega arith)).0

ipc_recv_example :
    IsRing (dequeue 50 one_message.links) 100 []
    × Delivered hello hello 60 2 50
        (record one_message { links = dequeue 50 one_message.links })
        (ipc_recv (λ s. s) 60 2 one_message)
ipc_recv_example = ipc_recv_lem (λ s. s) 60 2 50 [] one_message one_message-IsRing

ipc_send_and_wait_example :
    Busy 60 2 one_message (ipc_send_and_wait (λ s. s) 60 2 one_message)
    ⊎ ((b : Ipc) × (ipc_send_and_wait (λ s. s) 60 2 one_message ≡ (ok tt, b))
        × Sent 60 2 (50 ∷ []) one_message b)
ipc_send_and_wait_example =
    ipc_send_and_wait_lem (λ s. s) 60 2 one_message (50 ∷ []) one_message-IsRing refl (omega arith)
      (omega arith)
