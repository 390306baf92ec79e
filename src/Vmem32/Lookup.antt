-- ===== src/Vmem32/Lookup.antt =====
-- Looking up the frame of a page: a temporary mapping comes and goes, and what the code reads is
-- what the processor would find.
use opsys.Base.{
  ℕ, ◌+◌, ◌/◌, ◌%◌, ◌^◌, ◌<◌, ◌≡◌, refl, ◌≢◌, ◌∙◌, ap, ◌⊎◌, inl, inr, Bool-cases, ◌==◌, some,
  Result, ok, arith, ne→==, length,
}
use opsys.Page.{pte_create, pte_get_pageframe_index, present_writeable}
use opsys.Page.Entries.{pte_create_lem}
use opsys.Pmem.{Pmem}
use opsys.Pmem.Single.{hits, Follows, counter_of}
use opsys.Paging.Machine.{Machine, Run, done, frame_of, put_word}
use opsys.Paging.Entry.{IsReady, with_word, owned, frame_of-with_pmem}
use opsys.Paging.Balance.{put_word_self}
use opsys.Paging.Frames.{AgreeOff-put}
use opsys.Vmem32.Temp.{install_temp_page_frame, uninstall_temp_page}
use opsys.Vmem32.Mapped.{
  IsPaged, IsFree, temp_frame, install_temp_page_frame_lem, uninstall_temp_page_lem,
}

-- A machine with the same counters, and the same memory but for an entry that is empty now.
pub record Restored (m : Machine) (s : ℕ) (A : Type 0) (a : A) (r : Run A) : Type 0 where
  pub p' : Pmem
  pub word' : ℕ → ℕ → ℕ
  pub returns : r ≡ done a (record m { pmem = p'; word = word' })
  pub follows : Follows m.pmem p'
  pub counters : (i : ℕ) → counter_of p' i ≡ counter_of m.pmem i
  pub others : (f j : ℕ) → (f ≢ 1023) ⊎ (j ≢ s) → word' f j ≡ m.word f j
  pub empty : word' 1023 s ≡ 0

-- The frame can be referenced once more, and an entry can name it.
pub record IsMappable (m : Machine) (pf : ℕ) : Type 0 where
  pub used : 0 < counter_of m.pmem pf
  pub below : counter_of m.pmem pf < 63
  pub inside : pf < length m.pmem.map
  pub nonzero : 0 < pf
  pub bits : pf < 2 ^ 20

pub put_word_other :
    (word : ℕ → ℕ → ℕ) (t i v f j : ℕ) → (f ≢ t) ⊎ (j ≢ i) → put_word word t i v f j ≡ word f j
unfolding put_word
put_word_other word t i v f j (inl ne) = rw (ne→== f t ne)
put_word_other word t i v f j (inr ne) = elim (Bool-cases (f == t)) [
  | inl e ↦ rw (e, ne→== j i ne)
  | inr ne' ↦ rw ne'
]

pub entry_frame : (pf : ℕ) → pf < 2 ^ 20 → pte_create pf present_writeable / 2 ^ 12 ≡ pf
entry_frame pf h = omega (arith, pte_create_lem pf present_writeable)

pub entry_index :
    (pf : ℕ) → pf < 2 ^ 20 → pte_get_pageframe_index (pte_create pf present_writeable) ≡ pf
unfolding pte_get_pageframe_index
entry_index pf h = omega (arith, pte_create_lem pf present_writeable)

-- The machine in which a temporary page shows the frame.
abbrev pub opened : Machine → ℕ → ℕ → Pmem → Machine
opened m s pf p = record m {
  pmem = p;
  word = put_word m.word 1023 s (pte_create pf present_writeable);
}

pub entry_present : (pf : ℕ) → pte_create pf present_writeable % 2 ≡ 1
entry_present pf = omega (arith, pte_create_lem pf present_writeable)

pub entry_empty : pte_create 0 0 ≡ 0
entry_empty = omega (arith, pte_create_lem 0 0)

module _ (m : Machine) (low s : ℕ) (paged : IsPaged m low) (free : IsFree m s) (ready : IsReady m)
    (pf : ℕ) where
  pub shown : (p : Pmem) → pf < 2 ^ 20 → frame_of (opened m s pf p) (261120 + s) ≡ some pf
  shown p bits =
      let word' = put_word m.word 1023 s (pte_create pf present_writeable) in
      let entry : word' 1023 s ≡ pte_create pf present_writeable =
        put_word_self m.word 1023 s (pte_create pf present_writeable) 0 in
      frame_of-with_pmem (with_word m word') p (261120 + s)
      ∙ temp_frame m low paged word' s
          (AgreeOff-put m.word 1023 s (pte_create pf present_writeable)) free.fits
          (rw entry (entry_present pf))
      ∙ ap (λ v. some (v / 2 ^ 12)) entry
      ∙ ap some (entry_frame pf bits)

module _ (m : Machine) (low s : ℕ) (paged : IsPaged m low) (free : IsFree m s) (ready : IsReady m)
    (pf : ℕ) (mappable : IsMappable m pf) where
  pub closed :
      (p : Pmem)
      → Follows m.pmem p
      → ((i : ℕ) → counter_of p i ≡ counter_of m.pmem i + hits pf i)
      → Restored m s
          (Result (Unit {0}))
          (ok tt)
          (uninstall_temp_page (261120 + s) (opened m s pf p))
  closed p follows more =
      let v = pte_create pf present_writeable in
      let word' = put_word m.word 1023 s v in
      let w =
        uninstall_temp_page_lem m low s paged free ready p word' (AgreeOff-put m.word 1023 s v)
          follows in
      let old : pte_get_pageframe_index (word' 1023 s) ≡ pf =
        ap pte_get_pageframe_index (put_word_self m.word 1023 s v 0)
        ∙ entry_index pf mappable.bits in
      record {
        p' = w.p';
        word' = put_word word' 1023 s (pte_create 0 0);
        returns = w.returns;
        follows = record {
          slots = w.follows.slots ∙ follows.slots;
          same_length = w.follows.same_length ∙ follows.same_length;
          bytes = w.follows.bytes;
        };
        counters = λ i.
            let gone : owned (pte_get_pageframe_index (word' 1023 s)) i ≡ hits pf i =
              rw (old, ne→== pf 0 (omega (arith, mappable.nonzero))) refl in
            omega (arith, w.counters i, more i, gone);
        others = λ f j off.
            put_word_other word' 1023 s (pte_create 0 0) f j off
            ∙ put_word_other m.word 1023 s v f j off;
        empty = put_word_self word' 1023 s (pte_create 0 0) 0 ∙ entry_empty;
      }

  -- `uninstall_temp_page` undoes `install_temp_page_frame`: with paging on and a free entry in the
  -- table for temporary mappings, the processor finds a mappable frame at the page that is
  -- returned, and after the call of `uninstall_temp_page` every counter is what it was, and every
  -- word of the memory, except that the entry is 0.
  pub uninstall-install :
      (m1 : Machine) × (install_temp_page_frame pf m ≡ done (ok (261120 + s)) m1)
      × (frame_of m1 (261120 + s) ≡ some pf)
      × Restored m s (Result (Unit {0})) (ok tt) (uninstall_temp_page (261120 + s) m1)
  uninstall-install =
      let inst = install_temp_page_frame_lem m low s paged free ready pf in
      (
        opened m s pf inst.p',
        inst.returns,
        shown m low s paged free ready pf inst.p' mappable.bits,
        closed inst.p' inst.follows (inst.counters mappable.used mappable.below mappable.inside),
      )
