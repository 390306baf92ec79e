-- ===== src/Ram/Access.antt =====
-- Loads after stores.
use opsys.Base.{ℕ, ◌+◌, ◌/◌, ◌%◌, ◌^◌, ◌<◌, ◌≡◌, ap, ◌≢◌, ◌⊎◌, arith, ◌∙◌}
use opsys.Libc.{Mem}
use opsys.LinkedList.{put}
use opsys.Ram.{load8, load16, load32, store8, store32}

pub load8-store8 : (mem : Mem) (a v : ℕ) → load8 (store8 mem a v) a ≡ v % 2 ^ 8
unfolding load8 store8 put
load8-store8 mem a v = ground arith

pub load8-store8_ne : (mem : Mem) (a b v : ℕ) → a ≢ b → load8 (store8 mem a v) b ≡ load8 mem b
unfolding load8 store8 put
load8-store8_ne mem a b v ne = ground arith

-- A byte of a stored word, and a byte outside of it.
pub load8-store32_ne :
    (mem : Mem) (a b v : ℕ) → (b < a) ⊎ (a + 3 < b) → load8 (store32 mem a v) b ≡ load8 mem b
unfolding store32
load8-store32_ne mem a b v apart =
    load8-store8_ne _ (a + 3) b _ (λ e. omega (arith, apart, e))
    ∙ load8-store8_ne _ (a + 2) b _ (λ e. omega (arith, apart, e))
    ∙ load8-store8_ne _ (a + 1) b _ (λ e. omega (arith, apart, e))
    ∙ load8-store8_ne mem a b v (λ e. omega (arith, apart, e))

module _ (mem : Mem) (a v : ℕ) where
  byte0 : load8 (store32 mem a v) a ≡ v % 2 ^ 8
  unfolding store32
  byte0 =
      load8-store8_ne _ (a + 3) a _ (λ e. omega (arith, e))
      ∙ load8-store8_ne _ (a + 2) a _ (λ e. omega (arith, e))
      ∙ load8-store8_ne _ (a + 1) a _ (λ e. omega (arith, e))
      ∙ load8-store8 mem a v

  byte1 : load8 (store32 mem a v) (a + 1) ≡ v / 2 ^ 8 % 2 ^ 8
  unfolding store32
  byte1 =
      load8-store8_ne _ (a + 3) (a + 1) _ (λ e. omega (arith, e))
      ∙ load8-store8_ne _ (a + 2) (a + 1) _ (λ e. omega (arith, e))
      ∙ load8-store8 _ (a + 1) (v / 2 ^ 8)

  byte2 : load8 (store32 mem a v) (a + 2) ≡ v / 2 ^ 16 % 2 ^ 8
  unfolding store32
  byte2 =
      load8-store8_ne _ (a + 3) (a + 2) _ (λ e. omega (arith, e))
      ∙ load8-store8 _ (a + 2) (v / 2 ^ 16)

  byte3 : load8 (store32 mem a v) (a + 2 + 1) ≡ v / 2 ^ 24 % 2 ^ 8
  unfolding store32
  byte3 = ap (λ b. load8 (store32 mem a v) b) (omega arith) ∙ load8-store8 _ (a + 3) (v / 2 ^ 24)

  pub load32-store32 : v < 2 ^ 32 → load32 (store32 mem a v) a ≡ v
  unfolding load32 load16
  load32-store32 small = omega (arith, byte0, byte1, byte2, byte3, small)

pub load32-store32_apart :
    (mem : Mem) (a b v : ℕ) → (b + 3 < a) ⊎ (a + 3 < b) → load32 (store32 mem a v) b ≡ load32 mem b
unfolding load32 load16
load32-store32_apart mem a b v apart = omega (
  arith,
  load8-store32_ne mem a b v (ground (arith, apart)),
  load8-store32_ne mem a (b + 1) v (ground (arith, apart)),
  load8-store32_ne mem a (b + 2) v (ground (arith, apart)),
  load8-store32_ne mem a (b + 2 + 1) v (ground (arith, apart)),
)
