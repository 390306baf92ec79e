-- ===== src/IpcMsg/Flags.antt =====
-- The fields of the flag word.
use opsys.Base.{
  ℕ, ◌-◌, ◌/◌, ◌%◌, ◌^◌, ◌≡◌, ◌∙◌, not, ◌==◌, bit_and, bit_and_ones, bit_and_halve, arith,
}
use opsys.LinkedList.{Links}
use opsys.IpcMsg.{
  IpcMsg, ipc_msg_flags_timeout, ipc_msg_init, ipc_msg_flags_get_timeout,
  ipc_msg_flags_has_timeout_value, ipc_msg_flags_reserved,
}

ipc_msg_flags_timeout_lem : (x : ℕ) → ipc_msg_flags_timeout x ≡ x / 2 % 2 ^ 31
unfolding ipc_msg_flags_timeout
ipc_msg_flags_timeout_lem x = omega (arith, bit_and_halve x (2 ^ 32 - 2), bit_and_ones 31 (x / 2))

-- The word keeps its 29 low bits.
flags_kept : (x : ℕ) → bit_and x (2 ^ 32 - 1 - ipc_msg_flags_reserved) ≡ x % 2 ^ 29
flags_kept x = bit_and_ones 29 x

-- Of the flags that `ipc_msg_init` gets, the message keeps the 29 low bits; its timeout is the
-- number in these bits without the lowest, and it has a timeout value exactly if that is not 0.
pub ipc_msg_init_lem :
    (rcv_q snd flags msg0 msg1 : ℕ) (l : Links)
    → ((ipc_msg_init rcv_q snd flags msg0 msg1 l).0.flags ≡ flags % 2 ^ 29)
      × (ipc_msg_flags_get_timeout (ipc_msg_init rcv_q snd flags msg0 msg1 l).0
          ≡ flags % 2 ^ 29 / 2)
      × (ipc_msg_flags_has_timeout_value (ipc_msg_init rcv_q snd flags msg0 msg1 l).0
          ≡ not (flags % 2 ^ 29 / 2 == 0))
unfolding ipc_msg_init ipc_msg_flags_get_timeout ipc_msg_flags_has_timeout_value
ipc_msg_init_lem rcv_q snd flags msg0 msg1 l =
    let kept = flags_kept flags in
    let timeout : ipc_msg_flags_timeout (bit_and flags (2 ^ 32 - 1 - ipc_msg_flags_reserved))
        ≡ flags % 2 ^ 29 / 2 =
      ipc_msg_flags_timeout_lem _ ∙ omega (arith, kept) in
    (kept, timeout, ground (arith, timeout))

-- In no message is the timeout that for `IPC_TIMEOUT_NEVER`: each timeout but 0 counts as a value.
pub has_timeout_value-never :
    (msg : IpcMsg) → ipc_msg_flags_has_timeout_value msg ≡ not (ipc_msg_flags_get_timeout msg == 0)
unfolding ipc_msg_flags_has_timeout_value ipc_msg_flags_get_timeout
has_timeout_value-never msg = ground (arith, ipc_msg_flags_timeout_lem msg.flags)
