-- ===== src/Bitset/Find.antt =====
-- `bitset_find_unset` returns the first clear bit of the bytes that it is given.
use opsys.Base.{
  ℕ, zero, suc, ◌+◌, ◌*◌, ◌/◌, ◌≤◌, ◌<◌, ◌≡◌, refl, ap, true, false, arith, Option, some, List,
  length, ◌⊎◌, inl, inr, Result, ok, err, eagain,
}
use opsys.Bitset.{bitset_isset, find_in_byte, find_in_bytes, bitset_find_unset}
use opsys.Bitset.Laws.{isset_lem}

-- All bits from `lo` to below `hi` are set.
abbrev pub AllSet : List ℕ → ℕ → ℕ → Type 0
AllSet bitset lo hi = (c : ℕ) → lo ≤ c → c < hi → bitset_isset bitset c ≡ some true

pub record FirstUnset (bitset : List ℕ) (lo hi b : ℕ) : Type 0 where
  pub above : lo ≤ b
  pub below : b < hi
  pub unset : bitset_isset bitset b ≡ some false
  pub before : AllSet bitset lo b

pub isset-cases :
    (bitset : List ℕ) (c : ℕ)
    → c / 8 < length bitset
    → (bitset_isset bitset c ≡ some true) ⊎ (bitset_isset bitset c ≡ some false)
isset-cases bitset c h = ground (arith, isset_lem bitset c h)

in_byte_lem :
    (bitset : List ℕ) (rounds bit hi : ℕ)
    → bit + rounds ≡ hi
    → hi ≤ 8 * length bitset
    → ((b : ℕ) × (find_in_byte bitset rounds bit ≡ some (inl b)) × FirstUnset bitset bit hi b)
      ⊎ ((find_in_byte bitset rounds bit ≡ some (inr hi)) × AllSet bitset bit hi)
unfolding find_in_byte
in_byte_lem bitset zero bit hi e fits =
    let same : bit ≡ hi = omega arith in
    inr (ap (λ (k : ℕ). some (inr k)) same, λ c h k. absurd (omega arith))
in_byte_lem bitset (suc rounds) bit hi e fits = elim (isset-cases bitset bit (omega arith)) [
  | inr clear ↦ inl (
    bit,
    rw (clear, find_in_byte),
    record {
      above = omega arith;
      below = omega arith;
      unset = clear;
      before = λ c h k. absurd (omega arith);
    },
  )
  | inl full ↦ elim (in_byte_lem bitset rounds (bit + 1) hi (omega arith) fits) [
    | inl (b, run, f) ↦ inl (
      b,
      rw (full, find_in_byte) run,
      record {
        above = omega (arith, f.above);
        below = f.below;
        unset = f.unset;
        before = λ c h k. ground (arith, f.before c);
      },
    )
    | inr (run, all) ↦ inr (rw (full, find_in_byte) run, λ c h k. ground (arith, all c))
  ]
]

-- The two results of a search from `lo` to below `hi`.
abbrev pub Found : List ℕ → ℕ → ℕ → Option (Result ℕ) → Type 0
Found bitset lo hi r =
    ((b : ℕ) × (r ≡ some (ok b)) × FirstUnset bitset lo hi b)
    ⊎ ((r ≡ some (err eagain)) × AllSet bitset lo hi)

in_bytes_lem :
    (bitset : List ℕ) (left bit hi : ℕ)
    → bit + 8 * left ≡ hi
    → hi ≤ 8 * length bitset
    → Found bitset bit hi (find_in_bytes bitset left bit)
unfolding find_in_bytes
in_bytes_lem bitset zero bit hi e fits = inr (refl, λ c h k. absurd (omega arith))
in_bytes_lem bitset (suc left) bit hi e fits =
    elim (in_byte_lem bitset 8 bit (bit + 8) refl (omega arith)) [
      | inl (b, run, f) ↦ inl (
        b,
        rw (run, find_in_bytes),
        record {
          above = f.above;
          below = omega (arith, f.below);
          unset = f.unset;
          before = f.before;
        },
      )
      | inr (run, all) ↦ elim (in_bytes_lem bitset left (bit + 8) hi (omega arith) fits) [
        | inl (b, rest, f) ↦ inl (
          b,
          rw (run, find_in_bytes) rest,
          record {
            above = omega (arith, f.above);
            below = f.below;
            unset = f.unset;
            before = λ c h k. ground (arith, f.before c, all c);
          },
        )
        | inr (rest, more) ↦
            inr (rw (run, find_in_bytes) rest, λ c h k. ground (arith, more c, all c))
      ]
    ]

-- On the first `len` bytes of an array of at least `len` bytes, `bitset_find_unset` stays inside
-- the array and returns the first clear bit, or `-EAGAIN` when all of their bits are set.
pub bitset_find_unset-Found :
    (bitset : List ℕ) (len : ℕ)
    → len ≤ length bitset
    → Found bitset 0 (8 * len) (bitset_find_unset bitset len)
unfolding bitset_find_unset
bitset_find_unset-Found bitset len h =
    in_bytes_lem bitset len 0 (8 * len) (omega arith) (omega arith)
