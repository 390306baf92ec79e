-- ===== src/Libc.antt =====
-- Memory and strings: src/libc0/lib/string.c.
-- The memory is a function from addresses to bytes. Addresses do not wrap around.
pub mod Memory
pub mod Strings
mod Examples
use Prim.Native.Nat.{compare, Ordering}
use opsys.Base.{ℕ, zero, suc, ◌+◌, ◌%◌, Bool, Option, none, some, ◌==◌, if◌then◌else◌}
use opsys.LinkedList.{put}

abbrev pub Mem : Type 0
Mem = ℕ → ℕ

-- The loop of `memcmp`: `c1` and `c2` are the two pointers that it reads, `s1` and `s2` those that
-- it advances. `res` is -1, 0 or 1 as `lt`, `eq` or `gt`.
unfoldable pub memcmp_loop : Mem → ℕ → ℕ → ℕ → ℕ → ℕ → Ordering → Ordering
memcmp_loop mem s1 s2 c1 c2 zero res = res
memcmp_loop mem s1 s2 c1 c2 (suc n) Ordering.eq =
    memcmp_loop mem (s1 + 1) (s2 + 1) c1 c2 n (compare (mem c1) (mem c2))
memcmp_loop mem s1 s2 c1 c2 (suc n) Ordering.lt = Ordering.lt
memcmp_loop mem s1 s2 c1 c2 (suc n) Ordering.gt = Ordering.gt

unfoldable pub memcmp : Mem → ℕ → ℕ → ℕ → Ordering
memcmp mem s1 s2 n = memcmp_loop mem s1 s2 s1 s2 n Ordering.eq

unfoldable pub memcpy : ℕ → ℕ → ℕ → Mem → Mem
memcpy cdest csrc zero mem = mem
memcpy cdest csrc (suc n) mem = memcpy (cdest + 1) (csrc + 1) n (put mem cdest (mem csrc))

unfoldable pub memset : ℕ → ℕ → ℕ → Mem → Mem
memset s c zero mem = mem
memset s c (suc n) mem = memset (s + 1) c n (put mem s (c % 256))

-- The loop of `strlen` on fuel.
unfoldable pub strlen_from : Mem → ℕ → ℕ → ℕ → Option ℕ
strlen_from mem zero str len = none
strlen_from mem (suc fuel) str len =
    let rest = strlen_from mem fuel (str + 1) (len + 1) in if mem str == 0 then some len else rest

unfoldable pub strlen : Mem → ℕ → ℕ → Option ℕ
strlen mem fuel str = strlen_from mem fuel str 0
