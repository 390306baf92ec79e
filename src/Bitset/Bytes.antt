-- ===== src/Bitset/Bytes.antt =====
-- The three masks on one byte.
use opsys.Base.{
  ℕ, ◌%◌, ◌^◌, ◌<◌, ◌≡◌, refl, Bool, true, false, not, ◌&&◌, ◌||◌, ◌==◌, arith, all_below,
  all_below_sound, bit_and_7, ==→eq,
}
use opsys.Bitset.{bit_mask, or_mask, and_not_mask, test_mask}

abbrev same : Bool → Bool → Bool
same true b = b
same false b = not b

same→eq : (a b : Bool) → same a b ≡ true → a ≡ b
same→eq true true h = refl
same→eq true false h = cc
same→eq false true h = cc
same→eq false false h = refl

abbrev for_all_bits : (ℕ → ℕ → ℕ → Bool) → Bool
for_all_bits f = all_below 256 (λ x. all_below 8 (λ b. all_below 8 (λ c. f x b c)))

for_all_bits_sound :
    (f : ℕ → ℕ → ℕ → Bool)
    → for_all_bits f ≡ true
    → (x b c : ℕ) → x < 256
    → b < 8
    → c < 8
    → f x b c ≡ true
for_all_bits_sound f h x b c hx hb hc =
    all_below_sound 8 (λ c. f x b c) c
      (all_below_sound 8 (λ b. all_below 8 (λ c. f x b c)) b
        (all_below_sound 256 (λ x. all_below 8 (λ b. all_below 8 (λ c. f x b c))) x h hx) hb)
      hc

set_table :
    for_all_bits
      (λ x b c. same (test_mask (or_mask x (2 ^ b)) (2 ^ c)) (b == c || test_mask x (2 ^ c)))
    ≡ true
unfolding all_below test_mask or_mask
set_table = refl

unset_table :
    for_all_bits (λ x b c.
      same (test_mask (and_not_mask x (2 ^ b)) (2 ^ c)) (not (b == c) && test_mask x (2 ^ c)))
    ≡ true
unfolding all_below test_mask and_not_mask
unset_table = refl

undo_table :
    for_all_bits (λ x b c. test_mask x (2 ^ b) || and_not_mask (or_mask x (2 ^ b)) (2 ^ b) == x)
    ≡ true
unfolding all_below test_mask and_not_mask or_mask
undo_table = refl

bit_mask_lem : (bit : ℕ) → bit_mask bit ≡ 2 ^ (bit % 8)
unfolding bit_mask
bit_mask_lem bit = rw bit_and_7

module _ (x a c : ℕ) (byte : x < 256) where
  pub test-or_mask :
      test_mask (or_mask x (bit_mask a)) (bit_mask c) ≡ (a % 8 == c % 8 || test_mask x (bit_mask c))
  test-or_mask =
      rw (bit_mask_lem a, bit_mask_lem c)
        (same→eq _ _ (
          for_all_bits_sound
            (λ x b c. same (test_mask (or_mask x (2 ^ b)) (2 ^ c)) (b == c || test_mask x (2 ^ c)))
            set_table x (a % 8) (c % 8) byte (omega arith) (omega arith)))

  pub test-and_not_mask :
      test_mask (and_not_mask x (bit_mask a)) (bit_mask c)
      ≡ (not (a % 8 == c % 8) && test_mask x (bit_mask c))
  test-and_not_mask =
      rw (bit_mask_lem a, bit_mask_lem c)
        (same→eq _ _ (
          for_all_bits_sound
            (λ x b c.
              same (test_mask (and_not_mask x (2 ^ b)) (2 ^ c))
                (not (b == c) && test_mask x (2 ^ c)))
            unset_table x (a % 8) (c % 8) byte (omega arith) (omega arith)))

-- Clearing a bit that was set just before gives the byte back, if the bit was clear.
pub and_not_mask-or_mask :
    (x a : ℕ)
    → x < 256
    → test_mask x (bit_mask a) ≡ false
    → and_not_mask (or_mask x (bit_mask a)) (bit_mask a) ≡ x
and_not_mask-or_mask x a byte clear =
    let entry =
      for_all_bits_sound
        (λ x b c. test_mask x (2 ^ b) || and_not_mask (or_mask x (2 ^ b)) (2 ^ b) == x) undo_table x
        (a % 8) 0 byte (omega arith) (omega arith) in
    let clear' = rw bit_mask_lem at clear in rw bit_mask_lem (==→eq _ x (rw clear' at entry))
