-- ===== src/IpcMsg.antt =====
-- IPC messages: src/kernel/bin/ipcmsg.c, ipcmsg.h and src/kernel/include/ipc_consts.h.
-- The list node of a message, its first member, is a node of the store of links. Words have 32
-- bits.
pub mod Flags
mod Examples
use opsys.Base.{ℕ, ◌-◌, ◌/◌, ◌^◌, Bool, ◌&&◌, not, ◌==◌, bit_and}
use opsys.LinkedList.{Links, init_item}

pub record IpcMsg : Type 0 where
  pub snd : ℕ
  pub flags : ℕ
  pub msg0 : ℕ
  pub msg1 : ℕ

-- The three highest bits, 0xe0000000.
abbrev pub ipc_msg_flags_reserved : ℕ
ipc_msg_flags_reserved = 2 ^ 32 - 2 ^ 29

abbrev pub ipc_msg_flag_is_errno : ℕ
ipc_msg_flag_is_errno = 2 ^ 16

-- The two special time values, as `unsigned long`.
abbrev pub ipc_timeout_now : ℕ
ipc_timeout_now = 0

abbrev pub ipc_timeout_never : ℕ
ipc_timeout_never = 2 ^ 32 - 1

-- `IPC_MSG_FLAGS_TIMEOUT`; the mask is 0xfffffffe.
unfoldable pub ipc_msg_flags_timeout : ℕ → ℕ
ipc_msg_flags_timeout x = bit_and x (2 ^ 32 - 2) / 2

unfoldable pub ipc_msg_init : ℕ → ℕ → ℕ → ℕ → ℕ → Links → IpcMsg × Links
ipc_msg_init rcv_q snd flags msg0 msg1 l = (
  record {
    snd = snd;
    flags = bit_and flags (2 ^ 32 - 1 - ipc_msg_flags_reserved);
    msg0 = msg0;
    msg1 = msg1;
  },
  init_item rcv_q l,
)

unfoldable pub ipc_msg_flags_get_timeout : IpcMsg → ℕ
ipc_msg_flags_get_timeout msg = ipc_msg_flags_timeout msg.flags

unfoldable pub ipc_msg_flags_has_timeout_value : IpcMsg → Bool
ipc_msg_flags_has_timeout_value msg =
    let timeout = ipc_msg_flags_get_timeout msg in
    not (timeout == ipc_timeout_now) && not (timeout == ipc_timeout_never)

unfoldable pub ipc_msg_flags_is_errno : IpcMsg → Bool
ipc_msg_flags_is_errno msg = not (bit_and msg.flags ipc_msg_flag_is_errno == 0)
