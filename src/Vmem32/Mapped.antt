-- ===== src/Vmem32/Mapped.antt =====
-- Temporary mappings reach the page table that they are made for, and leave the counters as they
-- were.
use opsys.Base.{
  ℕ, zero, suc, ◌+◌, ◌-◌, ◌/◌, ◌%◌, ◌^◌, ◌≤◌, ◌<◌, ◌≡◌, refl, ◌≢◌, ◌∙◌, ap, inl, inr, eq-cases,
  some, ok, arith, eq→==, ne→==, true, length,
}
use opsys.Page.{pte_create, pte_get_pageframe_index, present_writeable}
use opsys.Pmem.{Pmem}
use opsys.Pmem.Single.{hits, Follows, counter_of, ref_one}
use opsys.Paging.Machine.{Machine, done, frame_of, walk, put_word}
use opsys.Paging.Entry.{
  IsReady, Follows-IsReady, with_pmem, with_word, Written, page_table_unmap_page_frame_lem,
  frame_of-with_pmem, read_entry_lem, write_entry_lem,
}
use opsys.Paging.Frames.{AgreeOff, Pinned}
use opsys.VmemArea.{vmem_area_contains_page}
use opsys.Vmem32.Temp.{find_unused, install_temp_page_frame, uninstall_temp_page, page_is_temp}

-- Paging is on, in an address space where `vmem_32_install_tmp_nopg` has installed the page table
-- for temporary mappings, the frame 1023: it is mapped to the page 1023, through the table in the
-- frame `low`, and it is the table of the pages from 261120 on.
pub record IsPaged (m : Machine) (low : ℕ) : Type 0 where
  pub on : m.paging ≡ true
  pub directory_apart : m.cr3 ≢ 1023
  pub low_apart : low ≢ 1023
  pub low_entry : m.word m.cr3 0 / 2 ^ 12 ≡ low
  pub low_present : m.word m.cr3 0 % 2 ≡ 1
  pub self_entry : m.word low 1023 / 2 ^ 12 ≡ 1023
  pub self_present : m.word low 1023 % 2 ≡ 1
  pub temp_entry : m.word m.cr3 255 / 2 ^ 12 ≡ 1023
  pub temp_present : m.word m.cr3 255 % 2 ≡ 1

-- The first entry of the table for temporary mappings that is not in use.
pub record IsFree (m : Machine) (s : ℕ) : Type 0 where
  pub fits : s < 1024
  pub free : pte_get_pageframe_index (m.word 1023 s) ≡ 0
  pub before : (j : ℕ) → j < s → pte_get_pageframe_index (m.word 1023 j) ≢ 0

pub walk_found :
    (word : ℕ → ℕ → ℕ) (pd pg i j t f : ℕ)
    → pg / 1024 ≡ i
    → pg % 1024 ≡ j
    → word pd i % 2 ≡ 1
    → word pd i / 2 ^ 12 ≡ t
    → word t j % 2 ≡ 1
    → word t j / 2 ^ 12 ≡ f
    → walk word pd pg ≡ some f
unfolding walk
walk_found word pd pg i j t f e1 e2 p1 f1 p2 f2 = rw (e1, e2, f1, p1, p2, f2)

module _ (m : Machine) (low : ℕ) (paged : IsPaged m low) where
  -- The temporary table stays where it is, whatever it maps.
  temp_Pinned : Pinned m 1023 1023
  unfolding frame_of walk
  temp_Pinned word' same =
      let a = same m.cr3 0 paged.directory_apart in
      let b = same low 1023 paged.low_apart in
      rw paged.on (
        walk_found word' m.cr3 1023 0 1023 low 1023 (omega arith) (omega arith)
          (omega (arith, a, paged.low_present)) (omega (arith, a, paged.low_entry))
          (omega (arith, b, paged.self_present)) (omega (arith, b, paged.self_entry)))

  -- A temporary page is the frame that its entry names.
  pub temp_frame :
      (word' : ℕ → ℕ → ℕ) (s : ℕ)
      → AgreeOff 1023 m.word word'
      → s < 1024
      → word' 1023 s % 2 ≡ 1
      → frame_of (with_word m word') (261120 + s) ≡ some (word' 1023 s / 2 ^ 12)
  unfolding frame_of walk
  temp_frame word' s same fits present =
      let a = same m.cr3 255 paged.directory_apart in
      rw paged.on (
        walk_found word' m.cr3 (261120 + s) 255 s 1023 (word' 1023 s / 2 ^ 12) (omega arith)
          (omega arith) (omega (arith, a, paged.temp_present)) (omega (arith, a, paged.temp_entry))
          present refl)

-- The search ends at the first free entry.
find_unused_lem :
    (m : Machine) (s left i : ℕ)
    → frame_of m 1023 ≡ some 1023
    → IsFree m s
    → i ≤ s
    → i + left ≡ 1024
    → find_unused 1023 left i m ≡ done s m
unfolding find_unused
find_unused_lem m s zero i here free h e = absurd (omega (arith, free.fits))
find_unused_lem m s (suc left) i here free h e =
    let read = read_entry_lem m 1023 1023 here i (omega (arith, free.fits)) in
    elim (eq-cases i s) [
      | inl same ↦
          let empty : pte_get_pageframe_index (m.word 1023 i) ≡ 0 =
            ap (λ j. pte_get_pageframe_index (m.word 1023 j)) same ∙ free.free in
          rw (read, find_unused) (rw (eq→== _ 0 empty) (rw same refl))
      | inr ne ↦
          let rest =
            find_unused_lem m s left (i + 1) here free (omega (arith, h, ne)) (omega (arith, e)) in
          rw (read, find_unused)
            (rw (ne→== _ 0 (free.before i (omega (arith, h, ne)))) (rw rest refl))
    ]

-- A temporary mapping: the page `261120 + s` shows the frame, and the only memory written is the
-- entry `s` of the table for temporary mappings. `pmem_ref_frames` may have refused the reference.
pub record Installed (m : Machine) (s pf : ℕ) : Type 0 where
  pub p' : Pmem
  pub returns :
      install_temp_page_frame pf m
      ≡ done
          (ok (261120 + s))
          (record m { pmem = p'; word = put_word m.word 1023 s (pte_create pf present_writeable) })
  pub follows : Follows m.pmem p'
  pub counters :
      0 < counter_of m.pmem pf
      → counter_of m.pmem pf < 63
      → pf < length m.pmem.map
      → (i : ℕ) → counter_of p' i ≡ counter_of m.pmem i + hits pf i

temp_page : (s : ℕ) → s < 1024 → page_is_temp (261120 + s) ≡ true
unfolding page_is_temp vmem_area_contains_page
temp_page s fits = ground arith

temp_index : (s : ℕ) → 261120 + s - 261120 ≡ s
temp_index s = omega arith

module _ (m : Machine) (low s : ℕ) (paged : IsPaged m low) (free : IsFree m s)
    (ready : IsReady m) where
  table_here : frame_of m 1023 ≡ some 1023
  table_here = temp_Pinned m low paged m.word (λ f j ne. refl)

  pub install_temp_page_frame_lem : (pf : ℕ) → Installed m s pf
  unfolding install_temp_page_frame
  install_temp_page_frame_lem pf =
      let found = find_unused_lem m s 1024 0 table_here free (omega arith) (omega arith) in
      let inside = ne→== s 1024 (omega (arith, free.fits)) in
      elim (ref_one m.pmem pf ready.bytes ready.slot) [
        | inl r ↦ record {
          p' = r.p';
          returns =
              rw (found, install_temp_page_frame)
                (rw (inside, r.returns)
                  (rw
                    (
                      write_entry_lem (with_pmem m r.p') 1023 1023
                          (frame_of-with_pmem m r.p' 1023 ∙ table_here) s free.fits
                          (pte_create pf present_writeable),
                      install_temp_page_frame,
                    )
                    refl));
          follows = r.follows;
          counters = λ _ _ _. r.counters;
        }
        | inr r ↦ record {
          p' = m.pmem;
          returns =
              rw (found, install_temp_page_frame)
                (rw (inside, r.returns)
                  (rw
                    (
                      write_entry_lem m 1023 1023 table_here s free.fits
                          (pte_create pf present_writeable),
                      install_temp_page_frame,
                    )
                    refl));
          follows = record { slots = refl; same_length = refl; bytes = ready.bytes };
          counters = λ h k l. absurd (r.reason l h k);
        }
      ]

  -- The machine with the page mapped, and any contents of the other entries of the table.
  module _ (p : Pmem) (word' : ℕ → ℕ → ℕ) (same : AgreeOff 1023 m.word word')
      (bytes : Follows m.pmem p) where
    pub uninstall_temp_page_lem :
        Written
          (record m { pmem = p; word = word' })
          1023
          s
          (pte_create 0 0)
          (λ i. 0)
          (uninstall_temp_page (261120 + s) (record m { pmem = p; word = word' }))
    unfolding uninstall_temp_page
    uninstall_temp_page_lem =
        let m' : Machine = record m { pmem = p; word = word' } in
        let here : frame_of m' 1023 ≡ some 1023 =
          frame_of-with_pmem (with_word m word') p 1023 ∙ temp_Pinned m low paged word' same in
        let w =
          page_table_unmap_page_frame_lem m' 1023 1023 here s free.fits
            (Follows-IsReady m m' ready bytes) in
        record {
          p' = w.p';
          returns = rw (temp_page s free.fits, temp_index, w.returns);
          follows = w.follows;
          counters = w.counters;
        }
