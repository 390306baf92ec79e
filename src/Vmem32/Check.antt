-- ===== src/Vmem32/Check.antt =====
-- `vmem_32_check_empty_pages` of src/kernel/bin/arch/i386/vmem_32.c always returns, and leaves the
-- address space usable.
use opsys.Base.{
  ℕ, zero, suc, ◌+◌, ◌-◌, ◌^◌, ◌≤◌, ◌<◌, ◌≡◌, refl, ◌≢◌, ◌∙◌, ◌⊎◌, inl, inr, eq-cases, some, arith,
  eq→==, ne→==,
}
use opsys.Page.{pte_create, pte_get_pageframe_index}
use opsys.Pmem.{Pmem}
use opsys.Pmem.Single.{Follows}
use opsys.Paging.Machine.{Machine, Run, done, frame_of, put_word, read_entry}
use opsys.Paging.Entry.{IsReady, Follows-IsReady, with_word, frame_of-with_pmem, read_entry_lem}
use opsys.Paging.Balance.{put_word_self}
use opsys.Paging.Frames.{AgreeOff}
use opsys.Vmem32.{Cursor, count_empty}
use opsys.Vmem32.Mapped.{IsPaged, IsFree}
use opsys.Vmem32.Lookup.{put_word_other, entry_empty}

-- An address space that the code can work on: paging is on, a temporary entry is free, the frame
-- allocator can be called, entries have 32 bits, and the page directory is found at its page.
pub record IsUsable (m : Machine) (low s pd d : ℕ) : Type 0 where
  pub paged : IsPaged m low
  pub free : IsFree m s
  pub ready : IsReady m
  pub bits : (f j : ℕ) → m.word f j < 2 ^ 32
  pub here :
      (word' : ℕ → ℕ → ℕ) → AgreeOff 1023 m.word word' → frame_of (with_word m word') pd ≡ some d

module _ (pt t : ℕ) where
  -- The entries are only read, and each one counted is one less to go.
  pub record Counted (c : Cursor) (m : Machine) (r : Run Cursor) : Type 0 where
    pub c' : Cursor
    pub returns : r ≡ done c' m
    pub total : c'.nempty + c'.pgcount ≡ c.nempty + c.pgcount

  count_stop :
      (left i : ℕ) (c : Cursor) (m : Machine)
      → c.pgcount ≡ 0
      → count_empty pt (suc left) i c m ≡ done c m
  unfolding count_empty
  count_stop left i c m h = rw (eq→== c.pgcount 0 h) refl

  count_used :
      (left i v : ℕ) (c : Cursor) (m : Machine)
      → c.pgcount ≢ 0
      → read_entry pt i m ≡ done v m
      → pte_get_pageframe_index v ≢ 0
      → count_empty pt (suc left) i c m ≡ done c m
  unfolding count_empty
  count_used left i v c m h read used =
      rw (ne→== c.pgcount 0 h) (rw (read, count_empty) (rw (ne→== _ 0 used) refl))

  count_next :
      (left i v : ℕ) (c : Cursor) (m : Machine)
      → c.pgcount ≢ 0
      → read_entry pt i m ≡ done v m
      → pte_get_pageframe_index v ≡ 0
      → count_empty pt (suc left) i c m
        ≡ count_empty pt left
            (i + 1)
            (record { pgindex = c.pgindex + 1; pgcount = c.pgcount - 1; nempty = c.nempty + 1 })
            m
  unfolding count_empty
  count_next left i v c m h read unused =
      rw (ne→== c.pgcount 0 h) (rw (read, count_empty) (rw (eq→== _ 0 unused) refl))

  count_none : (i : ℕ) (c : Cursor) (m : Machine) → count_empty pt 0 i c m ≡ done c m
  unfolding count_empty
  count_none i c m = refl

  pub count_empty_lem :
      (left i : ℕ) (c : Cursor) (m : Machine)
      → frame_of m pt ≡ some t
      → i + left ≤ 1024
      → Counted c m (count_empty pt left i c m)
  count_empty_lem zero i c m here h = record { c' = c; returns = count_none i c m; total = refl }
  count_empty_lem (suc left) i c m here h = elim (eq-cases c.pgcount 0) [
    | inl e ↦ record { c' = c; returns = count_stop left i c m e; total = refl }
    | inr ne ↦
        let v = m.word t i in
        let read = read_entry_lem m pt t here i (omega arith) in
        elim (eq-cases (pte_get_pageframe_index v) 0) [
          | inr used ↦ record {
            c' = c;
            returns = count_used left i v c m ne read used;
            total = refl;
          }
          | inl unused ↦
              let c1 : Cursor = record {
                pgindex = c.pgindex + 1;
                pgcount = c.pgcount - 1;
                nempty = c.nempty + 1;
              } in
              let rest = count_empty_lem left (i + 1) c1 m here (omega arith) in
              record {
                c' = rest.c';
                returns = count_next left i v c m ne read unused ∙ rest.returns;
                total = omega (arith, rest.total, ne);
              }
        ]
  ]

-- Another machine with the same semaphores and page directories, usable as before.
pub record Stays (m : Machine) (low s pd d : ℕ) (m' : Machine) : Type 0 where
  pub usable : IsUsable m' low s pd d
  pub same_sem : m'.sem ≡ m.sem
  pub same_pd : m'.pd ≡ m.pd

index-zero : pte_get_pageframe_index 0 ≡ 0
unfolding pte_get_pageframe_index
index-zero = refl

-- A memory in which only the free temporary entry changed, and is empty.
IsUsable-word :
    (m : Machine) (low s pd d : ℕ) (p : Pmem) (word' : ℕ → ℕ → ℕ)
    → IsUsable m low s pd d
    → Follows m.pmem p
    → ((f j : ℕ) → (f ≢ 1023) ⊎ (j ≢ s) → word' f j ≡ m.word f j)
    → word' 1023 s ≡ 0
    → IsUsable (record m { pmem = p; word = word' }) low s pd d
IsUsable-word m low s pd d p word' u follows same empty =
    let off : AgreeOff 1023 m.word word' = λ f j ne. same f j (inl ne) in
    let at_root : (j : ℕ) → word' m.cr3 j ≡ m.word m.cr3 j =
      λ j. off m.cr3 j u.paged.directory_apart in
    let at_low = off low 1023 u.paged.low_apart in
    record {
      paged = record {
        on = u.paged.on;
        directory_apart = u.paged.directory_apart;
        low_apart = u.paged.low_apart;
        low_entry = omega (arith, at_root 0, u.paged.low_entry);
        low_present = omega (arith, at_root 0, u.paged.low_present);
        self_entry = omega (arith, at_low, u.paged.self_entry);
        self_present = omega (arith, at_low, u.paged.self_present);
        temp_entry = omega (arith, at_root 255, u.paged.temp_entry);
        temp_present = omega (arith, at_root 255, u.paged.temp_present);
      };
      free = record {
        fits = u.free.fits;
        free = rw empty index-zero;
        before = λ j h. rw (same 1023 j (inr (omega arith))) (u.free.before j h);
      };
      ready = Follows-IsReady m (record m { pmem = p; word = word' }) u.ready follows;
      bits = λ f j. elim (eq-cases f 1023) [
        | inr ne ↦ omega (arith, same f j (inl ne), u.bits f j)
        | inl e ↦ elim (eq-cases j s) [
          | inr ne ↦ omega (arith, same f j (inr ne), u.bits f j)
          | inl e' ↦ rw (e, e', empty) (omega arith)
        ]
      ];
      here = λ word'' other.
          frame_of-with_pmem (with_word m word'') p pd
          ∙ u.here word'' (λ f j ne. other f j ne ∙ off f j ne);
    }

module _ (low s pd d : ℕ) where
  -- Any change of the temporary entry that leaves it empty keeps the address space usable.
  pub Stays-put :
      (m : Machine) (p : Pmem) (v : ℕ)
      → IsUsable m low s pd d
      → Follows m.pmem p
      → Stays m low s pd d (record m {
        pmem = p;
        word = put_word (put_word m.word 1023 s v) 1023 s (pte_create 0 0);
      })
  Stays-put m p v u follows =
      let word1 = put_word m.word 1023 s v in
      record {
        usable =
            IsUsable-word m low s pd d p (put_word word1 1023 s (pte_create 0 0)) u follows
              (λ f j other.
                put_word_other word1 1023 s (pte_create 0 0) f j other
                ∙ put_word_other m.word 1023 s v f j other)
              (put_word_self word1 1023 s (pte_create 0 0) 0 ∙ entry_empty);
        same_sem = refl;
        same_pd = refl;
      }
