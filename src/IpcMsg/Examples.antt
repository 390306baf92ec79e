-- ===== src/IpcMsg/Examples.antt =====
-- The theorems on ipcmsg.c at a message with all flags set.
use opsys.Base.{◌-◌, ◌^◌}
use opsys.LinkedList.{Links}
use opsys.IpcMsg.{IpcMsg}

abbrev unlinked : Links
unlinked = record { next = λ a. 0; prev = λ a. 0 }

abbrev full : IpcMsg
full = record { snd = 5; flags = 2 ^ 32 - 1; msg0 = 1; msg1 = 2 }
