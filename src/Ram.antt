-- ===== src/Ram.antt =====
-- Numbers of several bytes in the memory of opsys.Libc, the lowest byte first, as an i386 processor
-- loads and stores them. Addresses do not wrap around.
pub mod Access
use opsys.Base.{ℕ, ◌+◌, ◌*◌, ◌/◌, ◌%◌, ◌^◌}
use opsys.Libc.{Mem}
use opsys.LinkedList.{put}

unfoldable pub load8 : Mem → ℕ → ℕ
load8 mem a = mem a % 2 ^ 8

unfoldable pub load16 : Mem → ℕ → ℕ
load16 mem a = load8 mem a + 2 ^ 8 * load8 mem (a + 1)

unfoldable pub load32 : Mem → ℕ → ℕ
load32 mem a = load16 mem a + 2 ^ 16 * load16 mem (a + 2)

unfoldable pub store8 : Mem → ℕ → ℕ → Mem
store8 mem a v = put mem a (v % 2 ^ 8)

unfoldable pub store32 : Mem → ℕ → ℕ → Mem
store32 mem a v =
    store8 (store8 (store8 (store8 mem a v) (a + 1) (v / 2 ^ 8)) (a + 2) (v / 2 ^ 16)) (a + 3)
      (v / 2 ^ 24)
