-- ===== src/Bitset/Examples.antt =====
-- The theorems on bitset.c at two bytes whose first nine bits are set.
use opsys.Base.{ℕ, ◌≡◌, refl, some, List, [], ◌∷◌, arith, ok}
use opsys.Bitset.{bitset_isset, bitset_find_unset, find_in_bytes, find_in_byte, bit_mask, test_mask}
use opsys.Bitset.Laws.{IsBytes}

abbrev nine : List ℕ
nine = 0xff ∷ 0x01 ∷ []

nine-IsBytes : IsBytes nine
nine-IsBytes = grind arith

finds_nine : bitset_find_unset nine 2 ≡ some (ok 9)
unfolding bitset_find_unset find_in_bytes find_in_byte bitset_isset test_mask bit_mask
finds_nine = refl
