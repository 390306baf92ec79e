-- ===== src/Task/Tid.antt =====
-- The thread ids of src/kernel/include/tid.h: the task id over the eight bits of the thread id.
use opsys.Base.{
  ℕ, ◌+◌, ◌*◌, ◌/◌, ◌%◌, ◌^◌, ◌<◌, ◌≡◌, arith, bit_or, bit_and, bit_or_shifted, bit_and_255,
}

-- `unsigned int` and `unsigned long` are 32 bits wide.
unfoldable pub threadid_create : ℕ → ℕ → ℕ
threadid_create taskid tcbid = bit_or (taskid * 2 ^ 8 % 2 ^ 32) (bit_and tcbid 0xff)

unfoldable pub threadid_get_taskid : ℕ → ℕ
threadid_get_taskid tid = tid / 2 ^ 8

unfoldable pub threadid_get_tcbid : ℕ → ℕ
threadid_get_tcbid tid = bit_and tid 0xff

create_eq :
    (taskid tcbid : ℕ) → threadid_create taskid tcbid ≡ taskid % 2 ^ 24 * 2 ^ 8 + tcbid % 256
unfolding threadid_create
create_eq taskid tcbid =
    let shifted : taskid * 2 ^ 8 % 2 ^ 32 ≡ taskid % 2 ^ 24 * 2 ^ 8 = omega arith in
    rw (shifted, bit_and_255) (bit_or_shifted 8 (taskid % 2 ^ 24) (tcbid % 256) (omega arith))

-- A task id below 2 ^ 24 and a thread id below 256 are both recovered from the combined id.
pub threadid_roundtrip :
    (taskid tcbid : ℕ)
    → taskid < 2 ^ 24
    → tcbid < 256
    → (threadid_get_taskid (threadid_create taskid tcbid) ≡ taskid)
      × (threadid_get_tcbid (threadid_create taskid tcbid) ≡ tcbid)
unfolding threadid_get_taskid threadid_get_tcbid
threadid_roundtrip taskid tcbid h k = (
  omega (arith, create_eq taskid tcbid),
  omega (arith, create_eq taskid tcbid, bit_and_255 (threadid_create taskid tcbid)),
)
