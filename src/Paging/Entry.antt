-- ===== src/Paging/Entry.antt =====
-- What mapping and unmapping one entry of a page table do to the table and to the counters.
use opsys.Base.{
  ℕ, ◌+◌, ◌-◌, ◌<◌, ◌≡◌, refl, ◌∙◌, ◌⊎◌, inl, inr, Bool-cases, ◌==◌, if◌then◌else◌, some, Result,
  ok, err, Errno, arith, lt→ltb,
}
use opsys.Page.{pte_create, pte_get_pageframe_index}
use opsys.Pmem.{Pmem}
use opsys.Pmem.Refs.{IsBytes}
use opsys.Pmem.Single.{hits, Follows, counter_of, ref_one, unref_one}
use opsys.Paging.{unref_old, page_table_map_page_frame, page_table_unmap_page_frame}
use opsys.Paging.Machine.{Machine, Run, done, frame_of, put_word, read_entry, write_entry}

-- The allocator can be called: 8-bit entries and a free slot of its semaphore.
pub record IsReady (m : Machine) : Type 0 where
  pub bytes : IsBytes m.pmem.map
  pub slot : 0 < m.pmem.slots

pub Follows-IsReady : (m m' : Machine) → IsReady m → Follows m.pmem m'.pmem → IsReady m'
Follows-IsReady m m' r f = record { bytes = f.bytes; slot = omega (arith, r.slot, f.slots) }

abbrev pub with_pmem : Machine → Pmem → Machine
with_pmem m p = record m { pmem = p }

abbrev pub with_word : Machine → (ℕ → ℕ → ℕ) → Machine
with_word m word = record m { word = word }

pub frame_of-with_pmem :
    (m : Machine) (p : Pmem) (pg : ℕ) → frame_of (with_pmem m p) pg ≡ frame_of m pg
unfolding frame_of
frame_of-with_pmem m p pg = refl

module _ (m : Machine) (pt t : ℕ) (here : frame_of m pt ≡ some t) (index : ℕ)
    (fits : index < 1024) where
  pub read_entry_lem : read_entry pt index m ≡ done (m.word t index) m
  unfolding read_entry
  read_entry_lem = rw (lt→ltb index 1024 fits) (rw (here, read_entry) refl)

  pub write_entry_lem :
      (v : ℕ) → write_entry pt index v m ≡ done tt (with_word m (put_word m.word t index v))
  unfolding write_entry
  write_entry_lem v = rw (lt→ltb index 1024 fits) (rw (here, write_entry) refl)

-- The references that an entry with this frame index holds on the frame `i`; the index 0 marks an
-- empty entry.
abbrev pub owned : ℕ → ℕ → ℕ
owned f i = if f == 0 then 0 else hits f i

-- The old entry's reference is given back.
pub record Dropped (get : ℕ → ℕ) (old : ℕ) (m : Machine) : Type 0 where
  pub p' : Pmem
  pub returns : unref_old get old m ≡ done tt (with_pmem m p')
  pub follows : Follows m.pmem p'
  pub counters : (i : ℕ) → counter_of p' i ≡ counter_of m.pmem i - owned (get old) i

pub unref_old_lem : (get : ℕ → ℕ) (old : ℕ) (m : Machine) → IsReady m → Dropped get old m
unfolding unref_old
unref_old_lem get old m r = elim (Bool-cases (get old == 0)) [
  | inl empty ↦ record {
    p' = m.pmem;
    returns = rw empty;
    follows = record { slots = refl; same_length = refl; bytes = r.bytes };
    counters = λ i. rw empty (omega arith);
  }
  | inr full ↦
      let u = unref_one m.pmem (get old) r.bytes r.slot in
      record {
        p' = u.p';
        returns = rw full (rw (u.returns, unref_old) refl);
        follows = u.follows;
        counters = λ i. rw full (u.counters i);
      }
]

-- The entry was written, the new frame has a reference more and the old one a reference less.
pub record Written (m : Machine) (t index v : ℕ) (gained : ℕ → ℕ) (r : Run (Result (Unit {0})))
    : Type 0 where
  pub p' : Pmem
  pub returns : r ≡ done (ok tt) (record m { pmem = p'; word = put_word m.word t index v })
  pub follows : Follows m.pmem p'
  pub counters :
      (i : ℕ)
      → counter_of p' i
        ≡ counter_of m.pmem i + gained i - owned (pte_get_pageframe_index (m.word t index)) i

module _ (m : Machine) (pt t : ℕ) (here : frame_of m pt ≡ some t) (index : ℕ) (fits : index < 1024)
    (ready : IsReady m) where
  -- For a table that the processor finds in the frame `t` and an entry inside it:
  -- `page_table_map_page_frame` either writes the entry, with one reference more to the new frame
  -- and one less to that of the old entry, or returns an error and changes nothing.
  pub page_table_map_page_frame_lem :
      (pf flags : ℕ)
      → Written m t index
          (pte_create pf flags)
          (hits pf)
          (page_table_map_page_frame pt pf index flags m)
        ⊎ ((e : Errno) × (page_table_map_page_frame pt pf index flags m ≡ done (err e) m))
  unfolding page_table_map_page_frame
  page_table_map_page_frame_lem pf flags = elim (ref_one m.pmem pf ready.bytes ready.slot) [
    | inr r ↦ inr (r.error, rw (r.returns, page_table_map_page_frame) refl)
    | inl r ↦
        let m1 = with_pmem m r.p' in
        let here1 : frame_of m1 pt ≡ some t = frame_of-with_pmem m r.p' pt ∙ here in
        let d =
          unref_old_lem pte_get_pageframe_index (m.word t index) m1
            (Follows-IsReady m m1 ready r.follows) in
        let m2 = with_pmem m d.p' in
        let here2 : frame_of m2 pt ≡ some t = frame_of-with_pmem m d.p' pt ∙ here in
        inl (record {
          p' = d.p';
          returns =
              rw (r.returns, page_table_map_page_frame)
                (rw
                  (
                    read_entry_lem m1 pt t here1 index fits,
                    d.returns,
                    write_entry_lem m2 pt t here2 index fits (pte_create pf flags),
                  )
                  refl);
          follows = record {
            slots = d.follows.slots ∙ r.follows.slots;
            same_length = d.follows.same_length ∙ r.follows.same_length;
            bytes = d.follows.bytes;
          };
          counters = λ i. omega (arith, d.counters i, r.counters i);
        })
  ]

  -- Unmapping always clears the entry, and gives back the reference of the old one.
  pub page_table_unmap_page_frame_lem :
      Written m t index (pte_create 0 0) (λ i. 0) (page_table_unmap_page_frame pt index m)
  unfolding page_table_unmap_page_frame
  page_table_unmap_page_frame_lem =
      let d = unref_old_lem pte_get_pageframe_index (m.word t index) m ready in
      let here1 : frame_of (with_pmem m d.p') pt ≡ some t = frame_of-with_pmem m d.p' pt ∙ here in
      record {
        p' = d.p';
        returns =
            rw (read_entry_lem m pt t here index fits, page_table_unmap_page_frame)
              (rw
                (
                  d.returns,
                  write_entry_lem (with_pmem m d.p') pt t here1 index fits (pte_create 0 0),
                )
                refl);
        follows = d.follows;
        counters = λ i. omega (arith, d.counters i);
      }
