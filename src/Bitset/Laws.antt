-- ===== src/Bitset/Laws.antt =====
-- Setting and clearing one bit of a bit set.
use mathlib.Core.Option.{some-injective}
use opsys.Base.{
  ℕ, zero, suc, [], ◌∷◌, sym, ◌/◌, ◌%◌, ◌≤◌, ◌<◌, ◌≡◌, refl, ap, Bool, true, false, not, ◌==◌,
  arith, none, some, List, length, length-set, get_or, set, get_elem?, get_elem?-eq-get_or,
  get_elem?-none, get_or-set_self, get_or-set_ne, if◌then◌else◌, Bool-cases, ltb, ltb→lt,
  ltb-false→le, inl, inr, ne→==, ◌∙◌,
}
use opsys.Bitset.{
  bit_mask, or_mask, and_not_mask, test_mask, bitset_set, bitset_unset, bitset_setto, bitset_isset,
}
use opsys.Bitset.Bytes.{and_not_mask-or_mask, test-or_mask, test-and_not_mask}

-- Every byte fits eight bits.
abbrev pub IsBytes : List ℕ → Type 0
IsBytes bitset = (i : ℕ) → i < length bitset → get_or bitset i 0 < 256

pub isset_lem :
    (bitset : List ℕ) (c : ℕ)
    → c / 8 < length bitset
    → bitset_isset bitset c ≡ some (test_mask (get_or bitset (c / 8) 0) (bit_mask c))
unfolding bitset_isset
isset_lem bitset c h = rw (get_elem?-eq-get_or bitset (c / 8) 0 h)

isset_outside : (bitset : List ℕ) (c : ℕ) → length bitset ≤ c / 8 → bitset_isset bitset c ≡ none
unfolding bitset_isset
isset_outside bitset c h = rw (get_elem?-none bitset (c / 8) h)

-- `byte` in place of the byte of `bit`, whose other bits agree with the old byte.
module _ (bitset : List ℕ) (bit byte : ℕ) (v : Bool) (fits : bit / 8 < length bitset)
    (bits : (c : ℕ)
      → test_mask byte (bit_mask c) ≡ (
          if bit % 8 == c % 8 then v else test_mask (get_or bitset (bit / 8) 0) (bit_mask c))) where
  abbrev changed : List ℕ
  changed = set bitset (bit / 8) byte

  isset-changed :
      (c : ℕ) → bitset_isset changed c ≡ (if bit == c then some v else bitset_isset bitset c)
  isset-changed c = elim (Bool-cases (ltb (c / 8) (length bitset))) [
    | inr out ↦
        let far = ltb-false→le (c / 8) (length bitset) out in
        let other : (bit == c) ≡ false = ne→== bit c (λ e. absurd (omega arith)) in
        rw (other, isset_outside bitset c far)
          (isset_outside changed c (rw (length-set bitset (bit / 8) byte) far))
    | inl within ↦
        let near = ltb→lt (c / 8) (length bitset) within in
        let now = isset_lem changed c (rw (length-set bitset (bit / 8) byte) near) in
        now
        ∙ ground (
          arith,
          isset_lem bitset c near,
          bits c,
          get_or-set_self bitset (bit / 8) byte 0 fits,
          get_or-set_ne bitset (bit / 8) (c / 8) byte 0,
        )
  ]

or_mask-lt : (x mask : ℕ) → or_mask x mask < 256
unfolding or_mask
or_mask-lt x mask = omega arith

and_not_mask-lt : (x mask : ℕ) → and_not_mask x mask < 256
unfolding and_not_mask
and_not_mask-lt x mask = omega arith

set-IsBytes :
    (bitset : List ℕ) (i byte : ℕ) → byte < 256 → IsBytes bitset → IsBytes (set bitset i byte)
set-IsBytes bitset i byte h bytes j k = ground (
  arith,
  length-set bitset i byte,
  bytes j,
  get_or-set_self bitset i byte 0,
  get_or-set_ne bitset i j byte 0,
)

-- `bitset'` has the bit `bit` equal to `v` and all others, at any index, as before.
pub record Holds (bitset bitset' : List ℕ) (bit : ℕ) (v : Bool) (c : ℕ) : Type 0 where
  pub same_length : length bitset' ≡ length bitset
  pub bytes : IsBytes bitset'
  pub isset : bitset_isset bitset' c ≡ (if bit == c then some v else bitset_isset bitset c)

module _ (bitset : List ℕ) (bit c : ℕ) (fits : bit / 8 < length bitset)
    (bytes : IsBytes bitset) where
  old : ℕ
  old = get_or bitset (bit / 8) 0

  pub bitset_set-Holds :
      (bitset' : List ℕ) × (bitset_set bitset bit ≡ some bitset') × Holds bitset bitset' bit true c
  unfolding bitset_set old
  bitset_set-Holds = (
    set bitset (bit / 8) (or_mask old (bit_mask bit)),
    rw (get_elem?-eq-get_or bitset (bit / 8) 0 fits),
    record {
      same_length = length-set bitset (bit / 8) (or_mask old (bit_mask bit));
      bytes = set-IsBytes bitset (bit / 8) _ (or_mask-lt old (bit_mask bit)) bytes;
      isset =
          isset-changed bitset bit (or_mask old (bit_mask bit)) true fits
            (λ x. ground (arith, test-or_mask old bit x (bytes (bit / 8) fits))) c;
    },
  )

  pub bitset_unset-Holds :
      (bitset' : List ℕ) × (bitset_unset bitset bit ≡ some bitset')
      × Holds bitset bitset' bit false c
  unfolding bitset_unset old
  bitset_unset-Holds = (
    set bitset (bit / 8) (and_not_mask old (bit_mask bit)),
    rw (get_elem?-eq-get_or bitset (bit / 8) 0 fits),
    record {
      same_length = length-set bitset (bit / 8) (and_not_mask old (bit_mask bit));
      bytes = set-IsBytes bitset (bit / 8) _ (and_not_mask-lt old (bit_mask bit)) bytes;
      isset =
          isset-changed bitset bit (and_not_mask old (bit_mask bit)) false fits
            (λ x. ground (arith, test-and_not_mask old bit x (bytes (bit / 8) fits))) c;
    },
  )

  -- For a bit inside an array of bytes, `bitset_setto` succeeds and keeps the length of the
  -- array and its bytes in range; after it `bitset_isset` gives the new value at this bit, true
  -- exactly for an argument that is not zero, and what it gave before at every other index.
  pub bitset_setto-Holds :
      (value : ℕ)
      → (bitset' : List ℕ) × (bitset_setto bitset bit value ≡ some bitset')
        × Holds bitset bitset' bit (not (value == 0)) c
  unfolding bitset_setto
  bitset_setto-Holds value = elim (Bool-cases (value == 0)) [
    | inl clear ↦ rw clear bitset_unset-Holds
    | inr keep ↦ rw keep bitset_set-Holds
  ]

set-set : (xs : List ℕ) (i v w : ℕ) → get_elem? xs i ≡ some w → set (set xs i v) i w ≡ xs
set-set [] i v w e = refl
set-set (x ∷ xs) zero v w e = ap (λ y. y ∷ xs) (sym (some-injective x w e))
set-set (x ∷ xs) (suc i) v w e = ap (λ ys. x ∷ ys) (set-set xs i v w e)

-- A bit that is set and cleared again, having been clear, leaves no trace.
pub bitset_unset-bitset_set :
    (bitset bitset' : List ℕ) (bit : ℕ)
    → bit / 8 < length bitset
    → IsBytes bitset
    → bitset_isset bitset bit ≡ some false
    → bitset_set bitset bit ≡ some bitset'
    → bitset_unset bitset' bit ≡ some bitset
unfolding bitset_set bitset_unset
bitset_unset-bitset_set bitset bitset' bit fits bytes clear e =
    let i = bit / 8 in
    let old = get_or bitset i 0 in
    let new = or_mask old (bit_mask bit) in
    let here = get_elem?-eq-get_or bitset i 0 fits in
    let made : bitset' ≡ set bitset i new = some-injective bitset' _ (sym e ∙ rw here refl) in
    let read : get_elem? (set bitset i new) i ≡ some new =
      get_elem?-eq-get_or (set bitset i new) i 0 (rw (length-set bitset i new) fits)
      ∙ ap some (get_or-set_self bitset i new 0 fits) in
    let off : test_mask old (bit_mask bit) ≡ false =
      some-injective _ false (sym (isset_lem bitset bit fits) ∙ clear) in
    rw (made, read, and_not_mask-or_mask old bit (bytes i fits) off)
      (ap some (set-set bitset i new old here))
