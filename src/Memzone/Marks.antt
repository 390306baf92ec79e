-- ===== src/Memzone/Marks.antt =====
-- Runs of chunks that are marked as in use, and given back.
use mathlib.Core.Option
use opsys.Base.{
  ℕ, zero, suc, ◌+◌, ◌*◌, ◌/◌, ◌%◌, ◌≤◌, ◌≡◌, refl, sym, ap, ◌∙◌, arith, eq-cases, eq→==, ne→==,
  inl, inr, ◌==◌, leb, ltb, Bool, true, false, not, ◌&&◌, if◌then◌else◌, Option, some, List, length,
}
use opsys.Bitset.{bitset_isset}
use opsys.Bitset.Laws.{IsBytes}
use opsys.Memzone.{Memzone, mark_inuse, unmark_inuse, memzone_free}
use opsys.Memzone.Flags.{Turned, add_flags_lem, del_flags_lem}

-- The bit `c` is the bit INUSE of one of the `n` chunks from `chunk` on.
unfoldable pub inuse_bit : ℕ → ℕ → ℕ → Bool
inuse_bit chunk n c = c % 2 == 1 && (leb chunk (c / 2) && ltb (c / 2) (chunk + n))

-- The bits of `flags'` are those of `flags`, but for the bits INUSE of these chunks.
pub record TurnedAll (flags flags' : List ℕ) (chunk n : ℕ) (f : Bool → Bool) : Type 0 where
  pub same_length : length flags' ≡ length flags
  pub bytes : IsBytes flags'
  pub isset :
      (c : ℕ)
      → bitset_isset flags' c ≡ (
          if inuse_bit chunk n c then Option.map f (bitset_isset flags c) else bitset_isset flags c)

no_chunk : (chunk c : ℕ) → inuse_bit chunk 0 c ≡ false
unfolding inuse_bit
no_chunk chunk c = ground arith

one_more :
    (chunk n c : ℕ)
    → inuse_bit chunk (suc n) c ≡ (if c == 2 * chunk + 1 then true else inuse_bit (chunk + 1) n c)
unfolding inuse_bit
one_more chunk n c = ground arith

not_again : (chunk n : ℕ) → inuse_bit (chunk + 1) n (2 * chunk + 1) ≡ false
unfolding inuse_bit
not_again chunk n = ground arith

nothing_turned :
    (flags : List ℕ) (chunk : ℕ) (f : Bool → Bool) → IsBytes flags → TurnedAll flags flags chunk 0 f
nothing_turned flags chunk f bytes = record {
  same_length = refl;
  bytes = bytes;
  isset = λ c. rw (no_chunk chunk c) refl;
}

module _ (flags flags1 flags' : List ℕ) (chunk n : ℕ) (f : Bool → Bool)
    (one : Turned flags flags1 chunk f) (rest : TurnedAll flags1 flags' (chunk + 1) n f) where
  turned_bit :
      (c : ℕ)
      → bitset_isset flags' c ≡ (
          if inuse_bit chunk (suc n) c
          then Option.map f (bitset_isset flags c)
          else bitset_isset flags c)
  turned_bit c = elim (eq-cases c (2 * chunk + 1)) [
    | inl e ↦
        let none_later = ap (λ x. inuse_bit (chunk + 1) n x) e ∙ not_again chunk n in
        let now = rw (eq→== c (2 * chunk + 1) e) at (one_more chunk n c) in
        rw now
          ((rw none_later at (rest.isset c)) ∙ (rw (eq→== c (2 * chunk + 1) e) at (one.isset c)))
    | inr ne ↦
        let same = rw (ne→== c (2 * chunk + 1) ne) at (one_more chunk n c) in
        let before = rw (ne→== c (2 * chunk + 1) ne) at (one.isset c) in
        rw same (rw before at (rest.isset c))
  ]

  turned_more : TurnedAll flags flags' chunk (suc n) f
  turned_more = record {
    same_length = rest.same_length ∙ one.same_length;
    bytes = rest.bytes;
    isset = turned_bit;
  }

mark_inuse_lem :
    (n chunk : ℕ) (flags : List ℕ)
    → 2 * (chunk + n) ≤ 8 * length flags
    → IsBytes flags
    → (flags' : List ℕ) × (mark_inuse n chunk flags ≡ some flags')
      × TurnedAll flags flags' chunk n (λ b. true)
unfolding mark_inuse
mark_inuse_lem zero chunk flags fits bytes = (flags, refl, nothing_turned flags chunk _ bytes)
mark_inuse_lem (suc n) chunk flags fits bytes =
    let one = add_flags_lem flags chunk (omega arith) bytes in
    let rest = mark_inuse_lem n (chunk + 1) one.0 (omega (arith, one.2.same_length)) one.2.bytes in
    (rest.0, rw one.1 rest.1, turned_more flags one.0 rest.0 chunk n _ one.2 rest.2)

unmark_inuse_lem :
    (n chunk : ℕ) (flags : List ℕ)
    → 2 * (chunk + n) ≤ 8 * length flags
    → IsBytes flags
    → (flags' : List ℕ) × (unmark_inuse n chunk flags ≡ some flags')
      × TurnedAll flags flags' chunk n not
unfolding unmark_inuse
unmark_inuse_lem zero chunk flags fits bytes = (flags, refl, nothing_turned flags chunk _ bytes)
unmark_inuse_lem (suc n) chunk flags fits bytes =
    let one = del_flags_lem flags chunk (omega arith) bytes in
    let rest =
      unmark_inuse_lem n (chunk + 1) one.0 (omega (arith, one.2.same_length)) one.2.bytes in
    (rest.0, rw one.1 rest.1, turned_more flags one.0 rest.0 chunk n _ one.2 rest.2)

-- Two bit sets that read the same at every bit.
abbrev pub SameBits : List ℕ → List ℕ → Type 0
SameBits xs ys = (c : ℕ) → bitset_isset xs c ≡ bitset_isset ys c

turned_back :
    (b : Bool) (o o' : Option Bool)
    → (b ≡ true → o ≡ some false)
    → o' ≡ (if b then Option.map (λ x. true) o else o)
    → (if b then Option.map not o' else o') ≡ o
turned_back true o o' clear e =
    let was = clear refl in
    let now : o' ≡ some true = e ∙ ap (λ x. Option.map (λ y. true) x) was in rw (was, now) refl
turned_back false o o' clear e = e

turned_twice :
    (b : Bool) (o : Option Bool)
    → (b ≡ true → o ≡ some false)
    → (if b then Option.map not o else o) ≡ (if b then Option.map (λ x. true) o else o)
turned_twice true o clear = rw (clear refl) refl
turned_twice false o clear = refl

-- For a run of chunks whose flags lie inside the bit set and that are not in use, `mark_inuse`
-- succeeds, and `memzone_free` of the same run then gives a zone whose bits all read as at the
-- start; but `memzone_free` of the run without `mark_inuse` before it gives a zone whose bits read
-- as after `mark_inuse`: it marks the free chunks as in use.
pub memzone_free-mark_inuse :
    (mz : Memzone) (chunk n : ℕ)
    → 2 * (chunk + n) ≤ 8 * length mz.flags
    → IsBytes mz.flags
    → ((c : ℕ) → inuse_bit chunk n c ≡ true → bitset_isset mz.flags c ≡ some false)
    → (marked : List ℕ) × (freed : List ℕ) × (twice : List ℕ) × (mark_inuse n chunk mz.flags
        ≡ some marked)
      × (memzone_free chunk n (record mz { flags = marked }) ≡ some (record mz { flags = freed }))
      × SameBits freed mz.flags
      × (memzone_free chunk n mz ≡ some (record mz { flags = twice }))
      × SameBits twice marked
unfolding memzone_free
memzone_free-mark_inuse mz chunk n fits bytes clear =
    let mark = mark_inuse_lem n chunk mz.flags fits bytes in
    let free =
      unmark_inuse_lem n chunk mark.0 (omega (arith, mark.2.same_length, fits)) mark.2.bytes in
    let again = unmark_inuse_lem n chunk mz.flags fits bytes in
    (
      mark.0,
      free.0,
      again.0,
      mark.1,
      rw free.1 refl,
      λ c. free.2.isset c ∙ turned_back _ _ _ (clear c) (mark.2.isset c),
      rw again.1 refl,
      λ c. again.2.isset c ∙ turned_twice _ _ (clear c) ∙ sym (mark.2.isset c),
    )
