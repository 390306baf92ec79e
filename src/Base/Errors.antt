-- ===== src/Base/Errors.antt =====
-- The error codes of src/libc0/include/errno.h that the modelled code returns, and the results
-- of functions that return "a value, or a negative error code".
use Prim.Native.Nat.{ℕ}

pub data Errno : Type 0 where
  eagain ebusy efault einval eio enodev enoexec enomem enosys eoverflow : Errno

-- The number of the code in errno.h.
abbrev pub errno : Errno → ℕ
errno eagain = 6
errno ebusy = 9
errno efault = 20
errno einval = 27
errno eio = 28
errno enodev = 43
errno enoexec = 45
errno enomem = 48
errno enosys = 54
errno eoverflow = 64

-- `err e` is the negative return value `-e`.
pub data Result {ℓ} (A : Type ℓ) : Type ℓ where
  ok : A → Result A
  err : Errno → Result A

infixl 5 ◌>>=◌ ◌>>◌
abbrev pub ◌>>=◌ {ℓ κ} : {A : Type ℓ} {B : Type κ} → Result A → (A → Result B) → Result B
ok a >>= f = f a
err e >>= f = err e

abbrev pub ◌>>◌ {ℓ κ} : {A : Type ℓ} {B : Type κ} → Result A → Result B → Result B
m >> k = m >>= λ _. k
