-- ===== src/Bitset.antt =====
-- The bit sets of src/kernel/bin/bitset.c: arrays of 8-bit bytes, bit `b` in byte `b / 8`.
-- `none` is an access outside the array.
pub mod Bytes
pub mod Laws
pub mod Find
mod Examples
use mathlib.Core.Option
use opsys.Base.{
  ℕ, zero, suc, ◌+◌, ◌-◌, ◌/◌, ◌%◌, ◌^◌, ◌≡◌, Bool, true, false, not, Option, none, some, ◌==◌,
  if◌then◌else◌, bit_and, bit_or, Result, ok, err, eagain, List, get_elem?, set, ◌⊎◌, inl, inr,
}

-- `1 << (bit & 0x07)`.
unfoldable pub bit_mask : ℕ → ℕ
bit_mask bit = 2 ^ bit_and bit 0x07

-- `bitset[bit >> 3] |= mask` and `bitset[bit >> 3] &= ~mask`, on an `unsigned char`.
unfoldable pub or_mask : ℕ → ℕ → ℕ
or_mask byte mask = bit_or byte mask % 256

unfoldable pub and_not_mask : ℕ → ℕ → ℕ
and_not_mask byte mask = bit_and byte (2 ^ 32 - 1 - mask) % 256

unfoldable pub test_mask : ℕ → ℕ → Bool
test_mask byte mask = not (bit_and byte mask == 0)

unfoldable pub bitset_set : List ℕ → ℕ → Option (List ℕ)
bitset_set bitset bit =
    Option.map (λ byte. set bitset (bit / 8) (or_mask byte (bit_mask bit)))
      (get_elem? bitset (bit / 8))

unfoldable pub bitset_unset : List ℕ → ℕ → Option (List ℕ)
bitset_unset bitset bit =
    Option.map (λ byte. set bitset (bit / 8) (and_not_mask byte (bit_mask bit)))
      (get_elem? bitset (bit / 8))

-- `setto[!set]`, the table holding `bitset_set` at 0 and `bitset_unset` at 1.
unfoldable pub bitset_setto : List ℕ → ℕ → ℕ → Option (List ℕ)
bitset_setto bitset bit value =
    if value == 0 then bitset_unset bitset bit else bitset_set bitset bit

unfoldable pub bitset_isset : List ℕ → ℕ → Option Bool
bitset_isset bitset bit =
    Option.map (λ byte. test_mask byte (bit_mask bit)) (get_elem? bitset (bit / 8))

-- The inner loop with `rounds` left: the bit that it returns, or the bit that it has reached.
unfoldable pub find_in_byte : List ℕ → ℕ → ℕ → Option (ℕ ⊎ ℕ)
find_in_byte bitset zero bit = some (inr bit)
find_in_byte bitset (suc rounds) bit =
    let rest = find_in_byte bitset rounds (bit + 1) in
    elim (bitset_isset bitset bit) [ none ↦ none | some true ↦ rest | some false ↦ some (inl bit) ]

unfoldable pub find_in_bytes : List ℕ → ℕ → ℕ → Option (Result ℕ)
find_in_bytes bitset zero bit = some (err eagain)
find_in_bytes bitset (suc left) bit = elim (find_in_byte bitset 8 bit) [
  | none ↦ none
  | some (inl found) ↦ some (ok found)
  | some (inr next) ↦ find_in_bytes bitset left next
]

unfoldable pub bitset_find_unset : List ℕ → ℕ → Option (Result ℕ)
bitset_find_unset bitset len = find_in_bytes bitset len 0
