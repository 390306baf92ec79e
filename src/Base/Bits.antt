-- ===== src/Base/Bits.antt =====
-- `&` with a mask of low ones and `|` of disjoint fields as arithmetic, and finite tables.
use Prim.Native.Nat.{
  ℕ, zero, suc, ◌+◌, ◌-◌, ◌*◌, ◌/◌, ◌%◌, ◌^◌, ◌≤◌, ◌<◌, min, max, bit_and, bit_or, digits,
  bit_and-bitwise, bit_or-bitwise,
}
use mathlib.Core.Path.{◌≡◌, refl, ap, sym, ◌∙◌}
use mathlib.Core.Bool.{Bool, true, ◌&&◌}
use native.Mathlib.Nat.{
  pow-suc, mod-lt, div-add-mod, add-mul-mod_self_left, mod-eq_of_lt, mul_assoc,
}
use native.Mathlib.Omega.{arith}

-- Whether a test passes at every number below a bound.
unfoldable pub all_below : ℕ → (ℕ → Bool) → Bool
all_below zero test = true
all_below (suc bound) test = all_below bound test && test bound

pub all_below_sound :
    (bound : ℕ) (test : ℕ → Bool) (k : ℕ) → all_below bound test ≡ true → k < bound → test k ≡ true
unfolding all_below
all_below_sound zero test k passed small = absurd (omega arith)
all_below_sound (suc bound) test k passed small = ground (arith, all_below_sound bound test k)

-- More fuel than the first number has digits changes nothing.
module _ (out : ℕ → ℕ) (op : ℕ → ℕ → ℕ) where
  spare_fuel : (j k x y : ℕ) → x ≤ j → x ≤ k → digits out op j x y ≡ digits out op k x y
  spare_fuel zero zero x y hj hk = refl
  spare_fuel zero (suc k) zero y hj hk = refl
  spare_fuel zero (suc k) (suc x) y hj hk = absurd (omega arith)
  spare_fuel (suc j) zero zero y hj hk = refl
  spare_fuel (suc j) zero (suc x) y hj hk = absurd (omega arith)
  spare_fuel (suc j) (suc k) zero y hj hk = refl
  spare_fuel (suc j) (suc k) (suc x) y hj hk =
      omega (arith, spare_fuel j k (suc x / 2) (y / 2) (omega arith) (omega arith))

and_nothing : (y : ℕ) → bit_and 0 y ≡ 0
and_nothing y = bit_and-bitwise 0 y

or_nothing : (y : ℕ) → bit_or 0 y ≡ y
or_nothing y = bit_or-bitwise 0 y

-- The lowest digit apart from the others.
pub bit_and_halve : (x y : ℕ) → bit_and x y ≡ 2 * bit_and (x / 2) (y / 2) + min (x % 2) (y % 2)
bit_and_halve zero y = omega (arith, and_nothing y, and_nothing (y / 2))
bit_and_halve (suc x) y = omega (
  arith,
  spare_fuel (λ _. 0) min x (suc x / 2) (suc x / 2) (y / 2) (omega arith) (omega arith),
  bit_and-bitwise (suc x / 2) (y / 2),
  bit_and-bitwise (suc x) y,
)

pub bit_or_halve : (x y : ℕ) → bit_or x y ≡ 2 * bit_or (x / 2) (y / 2) + max (x % 2) (y % 2)
bit_or_halve zero y = omega (arith, or_nothing y, or_nothing (y / 2))
bit_or_halve (suc x) y = omega (
  arith,
  spare_fuel (λ b. b) max x (suc x / 2) (suc x / 2) (y / 2) (omega arith) (omega arith),
  bit_or-bitwise (suc x / 2) (y / 2),
  bit_or-bitwise (suc x) y,
)

and_zero_below : (n x : ℕ) → x ≤ n → bit_and x 0 ≡ 0
and_zero_below n zero h = and_nothing 0
and_zero_below zero (suc x) h = absurd (omega arith)
and_zero_below (suc n) (suc x) h =
    omega (arith, bit_and_halve (suc x) 0, and_zero_below n (suc x / 2) (omega arith))

or_zero_below : (n x : ℕ) → x ≤ n → bit_or x 0 ≡ x
or_zero_below n zero h = or_nothing 0
or_zero_below zero (suc x) h = absurd (omega arith)
or_zero_below (suc n) (suc x) h =
    omega (arith, bit_or_halve (suc x) 0, or_zero_below n (suc x / 2) (omega arith))

pub bit_and_zero : (x : ℕ) → bit_and x 0 ≡ 0
bit_and_zero x = and_zero_below x x (omega arith)

pub bit_or_zero : (x : ℕ) → bit_or x 0 ≡ x
bit_or_zero x = or_zero_below x x (omega arith)

-- A mask of `k` ones at numeral width, one step at a time.
pub bit_and_1 : (x : ℕ) → bit_and x 1 ≡ x % 2
bit_and_1 x = omega (arith, bit_and_halve x 1, bit_and_zero (x / 2))

pub bit_and_3 : (x : ℕ) → bit_and x 3 ≡ x % 4
bit_and_3 x = omega (arith, bit_and_halve x 3, bit_and_1 (x / 2))

pub bit_and_7 : (x : ℕ) → bit_and x 7 ≡ x % 8
bit_and_7 x = omega (arith, bit_and_halve x 7, bit_and_3 (x / 2))

pub bit_and_15 : (x : ℕ) → bit_and x 15 ≡ x % 16
bit_and_15 x = omega (arith, bit_and_halve x 15, bit_and_7 (x / 2))

pub bit_and_31 : (x : ℕ) → bit_and x 31 ≡ x % 32
bit_and_31 x = omega (arith, bit_and_halve x 31, bit_and_15 (x / 2))

pub bit_and_63 : (x : ℕ) → bit_and x 63 ≡ x % 64
bit_and_63 x = omega (arith, bit_and_halve x 63, bit_and_31 (x / 2))

pub bit_and_127 : (x : ℕ) → bit_and x 127 ≡ x % 128
bit_and_127 x = omega (arith, bit_and_halve x 127, bit_and_63 (x / 2))

pub bit_and_255 : (x : ℕ) → bit_and x 255 ≡ x % 256
bit_and_255 x = omega (arith, bit_and_halve x 255, bit_and_127 (x / 2))

or_above_below : (n x y : ℕ) → x ≤ n → y ≤ bit_or x y
or_above_below n zero y h = omega (arith, or_nothing y)
or_above_below zero (suc x) y h = absurd (omega arith)
or_above_below (suc n) (suc x) y h =
    omega (arith, bit_or_halve (suc x) y, or_above_below n (suc x / 2) (y / 2) (omega arith))

-- `|` only adds bits.
pub bit_or_above : (x y : ℕ) → y ≤ bit_or x y
bit_or_above x y = or_above_below x x y (omega arith)

or_fits_below : (n x y : ℕ) → x < 2 ^ n → y < 2 ^ n → bit_or x y < 2 ^ n
or_fits_below zero x y h k =
    let first : x ≡ 0 = omega arith in rw first (omega (arith, or_nothing y))
or_fits_below (suc n) x y h k =
    let double = pow-suc 2 n in
    omega (
      arith,
      double,
      bit_or_halve x y,
      or_fits_below n (x / 2) (y / 2) (omega (arith, double)) (omega (arith, double)),
    )

pub bit_or_fits : (n x y : ℕ) → x < 2 ^ n → y < 2 ^ n → bit_or x y < 2 ^ n
bit_or_fits n x y h k = or_fits_below n x y h k

bit_and_double : (x m : ℕ) → bit_and x (2 * m) ≡ 2 * bit_and (x / 2) m
bit_and_double x m =
    let half : 2 * m / 2 ≡ m = omega arith in
    let step : bit_and x (2 * m) ≡ 2 * bit_and (x / 2) m + min (x % 2) (2 * m % 2) =
      rw half at (bit_and_halve x (2 * m)) in
    omega (arith, step)

-- `x & 0xff00`, the second byte.
pub bit_and_high_byte : (x : ℕ) → bit_and x 0xff00 ≡ 256 * (x / 256 % 256)
bit_and_high_byte x = omega (
  arith,
  bit_and_double (x) 0x7f80,
  bit_and_double (x / 2) 0x3fc0,
  bit_and_double (x / 2 / 2) 0x1fe0,
  bit_and_double (x / 2 / 2 / 2) 0xff0,
  bit_and_double (x / 2 / 2 / 2 / 2) 0x7f8,
  bit_and_double (x / 2 / 2 / 2 / 2 / 2) 0x3fc,
  bit_and_double (x / 2 / 2 / 2 / 2 / 2 / 2) 0x1fe,
  bit_and_double (x / 2 / 2 / 2 / 2 / 2 / 2 / 2) 0xff,
  bit_and_255 (x / 2 / 2 / 2 / 2 / 2 / 2 / 2 / 2),
)

doubled : (q k : ℕ) → q * 2 ^ suc k ≡ 2 * (q * 2 ^ k)
doubled q k = omega (arith, ap (λ (t : ℕ). q * t) (pow-suc 2 k))

-- A field shifted left by `k`, or'ed with a value of at most `k` bits, is their sum.
pub bit_or_shifted : (k q r : ℕ) → r < 2 ^ k → bit_or (q * 2 ^ k) r ≡ q * 2 ^ k + r
bit_or_shifted zero q r h = ground (arith, bit_or_zero q)
bit_or_shifted (suc k) q r h = ground (
  arith,
  doubled q k,
  pow-suc 2 k,
  bit_or_halve (q * 2 ^ suc k) r,
  bit_or_shifted k q (r / 2) (omega arith),
)

mod_twice : (x p : ℕ) → 0 < p → x % (2 * p) ≡ 2 * (x / 2 % p) + x % 2
mod_twice x p pos =
    let r = x / 2 % p in
    let small : r < p = mod-lt (x / 2) pos in
    let split : p * (x / 2 / p) + r ≡ x / 2 = div-add-mod (x / 2) p in
    let whole : (2 * r + x % 2) + 2 * p * (x / 2 / p) ≡ x =
      omega (arith, split, mul_assoc 2 p (x / 2 / p)) in
    ap (λ y. y % (2 * p)) (sym whole)
    ∙ add-mul-mod_self_left (2 * r + x % 2) (2 * p) (x / 2 / p)
    ∙ mod-eq_of_lt (omega arith)

power_pos : (n : ℕ) → 0 < 2 ^ n
power_pos zero = omega arith
power_pos (suc n) = omega (arith, pow-suc 2 n, power_pos n)

-- `&` with the mask of `n` ones.
pub bit_and_ones : (n x : ℕ) → bit_and x (2 ^ n - 1) ≡ x % 2 ^ n
bit_and_ones zero x = omega (arith, bit_and_zero x)
bit_and_ones (suc n) x =
    let pos : 0 < 2 ^ n = power_pos n in
    let double : 2 ^ suc n ≡ 2 * 2 ^ n = omega (arith, pow-suc 2 n) in
    let half : (2 * 2 ^ n - 1) / 2 ≡ 2 ^ n - 1 = omega arith in
    rw double (
      bit_and_halve x (2 * 2 ^ n - 1)
      ∙ rw half (omega (arith, bit_and_ones n (x / 2), mod_twice x (2 ^ n) pos)))

-- A mask bounds the masked value.
pub bit_and_below : (n x mask : ℕ) → mask < 2 ^ n → bit_and x mask < 2 ^ n
bit_and_below zero x mask h =
    let none : mask ≡ 0 = omega arith in rw none (omega (arith, bit_and_zero x))
bit_and_below (suc n) x mask h =
    let double = pow-suc 2 n in
    omega (
      arith,
      bit_and_halve x mask,
      double,
      bit_and_below n (x / 2) (mask / 2) (omega (arith, double)),
    )
