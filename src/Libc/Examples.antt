-- ===== src/Libc/Examples.antt =====
-- The theorems on string.c in a memory with the string "ab" at address 10.
use opsys.Base.{ℕ, suc, zero, ◌+◌, ◌<◌, ◌≡◌, refl, ◌≢◌, arith}
use opsys.LinkedList.{put}
use opsys.Libc.{Mem}

abbrev text : Mem
text = put (put (λ a. 0) 10 97) 11 98

characters : (i : ℕ) → i < 2 → text (10 + i) ≢ 0
unfolding put
characters zero h = omega arith
characters (suc zero) h = omega arith
characters (suc (suc i)) h = absurd (omega arith)

ended : text 12 ≡ 0
unfolding put
ended = refl
