-- ===== src/Memzone/Flags.antt =====
-- The two flags of a chunk, and the loops that mark chunks.
use mathlib.Core.Option
use mathlib.Core.Path.{subst}
use mathlib.Core.Option.{some-injective}
use opsys.Base.{
  ℕ, ◌+◌, ◌*◌, ◌<◌, ◌≡◌, refl, sym, ap, ◌∙◌, arith, eq-cases, eq→==, ne→==, inl, inr, ◌==◌, Bool,
  true, false, not, if◌then◌else◌, Option, some, List, length, bit_and, bit_or, bit_xor,
}
use opsys.Bitset.{bitset_isset, bitset_setto}
use opsys.Bitset.Laws.{IsBytes, isset_lem, Holds, bitset_setto-Holds}
use opsys.Memzone.{
  flag_of, flag_inuse, memzone_get_flags, memzone_set_flags, memzone_add_flags, memzone_del_flags,
}

abbrev pub flags_of : Bool → Bool → ℕ
flags_of alloced inuse = bit_or (flag_of alloced 1) (flag_of inuse 1 * 2)

-- The chunk `i` has its flags inside the bit set.
abbrev pub HasFlags : List ℕ → ℕ → Type 0
HasFlags flags i = 2 * i + 1 < 8 * length flags

-- The bits of `flags'` are those of `flags`, but for the bit INUSE of the chunk `i`.
pub record Turned (flags flags' : List ℕ) (i : ℕ) (f : Bool → Bool) : Type 0 where
  pub same_length : length flags' ≡ length flags
  pub bytes : IsBytes flags'
  pub isset :
      (c : ℕ)
      → bitset_isset flags' c
        ≡ (if c == 2 * i + 1 then Option.map f (bitset_isset flags c) else bitset_isset flags c)

bit_at :
    (flags : List ℕ) (c : ℕ) → c < 8 * length flags → (b : Bool) × (bitset_isset flags c ≡ some b)
bit_at flags c fits = (_, isset_lem flags c (omega arith))

pub get_flags_lem :
    (flags : List ℕ) (i : ℕ) (alloced inuse : Bool)
    → bitset_isset flags (2 * i) ≡ some alloced
    → bitset_isset flags (2 * i + 1) ≡ some inuse
    → memzone_get_flags flags i ≡ some (flags_of alloced inuse)
unfolding memzone_get_flags
get_flags_lem flags i alloced inuse low high = rw low (rw high refl)

-- One bit written, at all bits.
setto_lem :
    (flags : List ℕ) (bit value : ℕ)
    → bit < 8 * length flags
    → IsBytes flags
    → (flags' : List ℕ) × (bitset_setto flags bit value ≡ some flags')
      × ((c : ℕ) → Holds flags flags' bit (not (value == 0)) c)
setto_lem flags bit value fits bytes =
    let at : (c : ℕ) → _ = λ c. bitset_setto-Holds flags bit c (omega arith) bytes value in
    let one = at 0 in
    (
      one.0,
      one.1,
      λ c.
          let same = some-injective (at c).0 one.0 (sym (at c).1 ∙ one.1) in
          subst (λ fl. Holds flags fl bit (not (value == 0)) c) same (at c).2,
    )

-- Both bits are written; the low one keeps its value.
set_flags_lem :
    (flags : List ℕ) (i value : ℕ) (f : Bool → Bool) (alloced inuse : Bool)
    → HasFlags flags i
    → IsBytes flags
    → bitset_isset flags (2 * i) ≡ some alloced
    → bitset_isset flags (2 * i + 1) ≡ some inuse
    → not (bit_and value 1 == 0) ≡ alloced
    → not (bit_and value 2 == 0) ≡ f inuse
    → (flags' : List ℕ) × (memzone_set_flags i value flags ≡ some flags') × Turned flags flags' i f
unfolding memzone_set_flags
set_flags_lem flags i value f alloced inuse has bytes low high keeps turns =
    let first = setto_lem flags (2 * i) (bit_and value 1) (omega arith) bytes in
    let holds = first.2 0 in
    let second =
      setto_lem first.0 (2 * i + 1) (bit_and value 2) (omega (arith, holds.same_length))
        holds.bytes in
    (
      second.0,
      rw first.1 second.1,
      record {
        same_length = (second.2 0).same_length ∙ holds.same_length;
        bytes = (second.2 0).bytes;
        isset = λ c. (elim (eq-cases c (2 * i + 1)) [
          | inl e ↦
              let back : Option.map f (bitset_isset flags c) ≡ some (f inuse) =
                ap (λ x. Option.map f (bitset_isset flags x)) e ∙ rw high refl in
              rw (eq→== c (2 * i + 1) e) (
                (rw (eq→== (2 * i + 1) c (sym e)) at (second.2 c).isset) ∙ ap some turns ∙ sym back)
          | inr ne ↦ rw (ne→== c (2 * i + 1) ne) (
              (rw (ne→== (2 * i + 1) c (λ e. ne (sym e))) at (second.2 c).isset)
              ∙ unchanged c (first.2 c).isset)
        ]);
      },
    )
  where
    unchanged :
        (c : ℕ)
        → {bits : Option Bool}
        → bits ≡ (if 2 * i == c then some (not (bit_and value 1 == 0)) else bitset_isset flags c)
        → bits ≡ bitset_isset flags c
    unchanged c h = elim (eq-cases c (2 * i)) [
      | inl e ↦
          (rw (eq→== (2 * i) c (sym e)) at h)
          ∙ ap some keeps
          ∙ sym (ap (λ x. bitset_isset flags x) e ∙ low)
      | inr ne ↦ rw (ne→== (2 * i) c (λ e. ne (sym e))) at h
    ]

module _ (flags : List ℕ) (i : ℕ) (has : HasFlags flags i) (bytes : IsBytes flags) where
  pub add_flags_lem :
      (flags' : List ℕ) × (memzone_add_flags i flag_inuse flags ≡ some flags')
      × Turned flags flags' i (λ b. true)
  unfolding memzone_add_flags
  add_flags_lem =
      let low = bit_at flags (2 * i) (omega arith) in
      let high = bit_at flags (2 * i + 1) has in
      rw (get_flags_lem flags i low.0 high.0 low.1 high.1) (
        set_flags_lem flags i (bit_or (flags_of low.0 high.0) 2) (λ b. true) low.0 high.0 has bytes
          low.1 high.1 (kept low.0 high.0) (set_high low.0 high.0))
    where
      kept : (b h : Bool) → not (bit_and (bit_or (flags_of b h) 2) 1 == 0) ≡ b
      kept true true = refl
      kept true false = refl
      kept false true = refl
      kept false false = refl

      set_high : (b h : Bool) → not (bit_and (bit_or (flags_of b h) 2) 2 == 0) ≡ true
      set_high true true = refl
      set_high true false = refl
      set_high false true = refl
      set_high false false = refl

  -- The flag is removed by an exclusive or, which sets it if it was clear.
  pub del_flags_lem :
      (flags' : List ℕ) × (memzone_del_flags i flag_inuse flags ≡ some flags')
      × Turned flags flags' i not
  unfolding memzone_del_flags
  del_flags_lem =
      let low = bit_at flags (2 * i) (omega arith) in
      let high = bit_at flags (2 * i + 1) has in
      rw (get_flags_lem flags i low.0 high.0 low.1 high.1) (
        set_flags_lem flags i (bit_xor (flags_of low.0 high.0) 2) not low.0 high.0 has bytes low.1
          high.1 (kept low.0 high.0) (turned_high low.0 high.0))
    where
      kept : (b h : Bool) → not (bit_and (bit_xor (flags_of b h) 2) 1 == 0) ≡ b
      kept true true = refl
      kept true false = refl
      kept false true = refl
      kept false false = refl

      turned_high : (b h : Bool) → not (bit_and (bit_xor (flags_of b h) 2) 2 == 0) ≡ not h
      turned_high true true = refl
      turned_high true false = refl
      turned_high false true = refl
      turned_high false false = refl
