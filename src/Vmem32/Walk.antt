-- ===== src/Vmem32/Walk.antt =====
-- The frame that `vmem_32_lookup_frame` reports for a page is the one that the processor finds.
use opsys.Base.{
  ℕ, ◌+◌, ◌/◌, ◌%◌, ◌^◌, ◌<◌, ◌≡◌, refl, ◌≢◌, ◌∙◌, sym, ap, inl, inr, Bool-cases, eq-cases, ◌==◌,
  if◌then◌else◌, Option, some, none, Result, ok, err, arith, ne→==, false, efault,
}
use opsys.Page.{
  pte_create, pte_get_pageframe_index, pde_get_pageframe_index, pte_is_present, present_writeable,
  pagetable_page_index,
}
use opsys.Page.Entries.{pte_is_present_lem, pagetable_page_index_lem}
use opsys.Paging.Machine.{Machine, Run, read_entry, M, pure, ◌>>◌, done, frame_of, walk}
use opsys.Paging.Entry.{IsReady, read_entry_lem}
use opsys.Vmem32.{vmem_32_lookup_frame, first_table}
use opsys.Vmem32.Temp.{
  pointer, map_page_table, map_table_frame, unmap_page_table, uninstall_temp_page,
  install_temp_page_frame,
}
use opsys.Vmem32.Mapped.{IsPaged, IsFree, install_temp_page_frame_lem}
use opsys.Vmem32.Lookup.{IsMappable, Restored, opened, shown, closed, put_word_other}

-- The page walk, with -EFAULT for a page that is not present.
unfoldable pub walk_result : (ℕ → ℕ → ℕ) → ℕ → ℕ → Result ℕ
walk_result word pd pgindex = elim (walk word pd pgindex) [ none ↦ err efault | some f ↦ ok f ]

pub first_table_lem : (pg : ℕ) → pg < 2 ^ 20 → first_table pg ≡ pg / 1024
first_table_lem pg h = omega arith

walk_result_lem :
    (word : ℕ → ℕ → ℕ) (pd pg : ℕ)
    → word pd (pg / 1024) % 2 ≡ 1
    → walk_result word pd pg ≡ (
        let pte = word (word pd (pg / 1024) / 2 ^ 12) (pg % 1024) in
        if pte_is_present pte then ok (pte_get_pageframe_index pte) else err efault)
unfolding walk_result walk pte_get_pageframe_index
walk_result_lem word pd pg present =
    let pte = word (word pd (pg / 1024) / 2 ^ 12) (pg % 1024) in
    elim (eq-cases (pte % 2) 1) [
      | inl odd ↦ rw (present, pte_is_present_lem, walk_result, walk) (rw odd refl)
      | inr ne ↦
          let even : pte % 2 ≡ 0 = omega (arith, ne) in
          rw (present, pte_is_present_lem, walk_result, walk) (rw even refl)
    ]

pointer-some : (pg : ℕ) → pg ≢ 0 → pointer pg ≡ some pg
pointer-some pg ne = rw (ne→== pg 0 ne) refl

map_table_done :
    (pf pg : ℕ) (m m1 : Machine)
    → install_temp_page_frame pf m ≡ done (ok pg) m1
    → pg ≢ 0
    → map_table_frame pf m ≡ done (some pg) m1
unfolding map_table_frame
map_table_done pf pg m m1 e ne =
    rw (e, map_table_frame)
      (ap
        (λ (o : Option ℕ).
          (elim o as (λ _. M (Option ℕ)) [
            | none ↦ uninstall_temp_page pg >> pure none
            | some pt ↦ pure (some pt)
          ])
            m1)
        (pointer-some pg ne))

module _ (m : Machine) (low s : ℕ) (paged : IsPaged m low) (free : IsFree m s) (ready : IsReady m)
    (pd d : ℕ) (here : frame_of m pd ≡ some d) where
  pub map_page_table_lem :
      (i : ℕ)
      → i < 1024
      → let inst = install_temp_page_frame_lem m low s paged free ready (m.word d i / 2 ^ 12) in
        map_page_table pd i false m
        ≡ done (some (261120 + s)) (opened m s (m.word d i / 2 ^ 12) inst.p')
  unfolding map_page_table pde_get_pageframe_index
  map_page_table_lem i fits =
      let pf = m.word d i / 2 ^ 12 in
      let shows =
        map_table_done pf (261120 + s) m _
          (install_temp_page_frame_lem m low s paged free ready pf).returns (omega arith) in
      rw (read_entry_lem m pd d here i fits, map_page_table)
        (elim (Bool-cases (pf == 0)) [ inl e ↦ rw e shows | inr e ↦ rw e shows ])

-- The same machine at the end of another run.
Restored-as :
    {m : Machine} {s : ℕ} {A B : Type 0} {a : A} {r : Run A}
    → (c : Restored m s A a r) → (b : B) (r' : Run B)
    → r' ≡ done b (record m { pmem = c.p'; word = c.word' })
    → Restored m s B b r'
Restored-as c b r' e = record {
  p' = c.p';
  word' = c.word';
  returns = e;
  follows = c.follows;
  counters = c.counters;
  others = c.others;
  empty = c.empty;
}

pub unmap_done :
    (pt : ℕ) (m m1 : Machine)
    → uninstall_temp_page pt m ≡ done (ok tt) m1
    → unmap_page_table pt m ≡ done tt m1
unfolding unmap_page_table
unmap_done pt m m1 e = rw (e, unmap_page_table) refl

pub lookup_done :
    (pd pg i pt v : ℕ) (m m1 m2 : Machine)
    → first_table pg ≡ i
    → map_page_table pd i false m ≡ done (some pt) m1
    → read_entry pt (pagetable_page_index pg) m1 ≡ done v m1
    → unmap_page_table pt m1 ≡ done tt m2
    → vmem_32_lookup_frame pd pg m
      ≡ done (if pte_is_present v then ok (pte_get_pageframe_index v) else err efault) m2
unfolding vmem_32_lookup_frame
lookup_done pd pg i pt v m m1 m2 e1 mapped read unmapped = elim (Bool-cases (pte_is_present v)) [
  | inl present ↦
      rw e1 (rw (mapped, vmem_32_lookup_frame) (rw read (rw (present, read) (rw unmapped refl))))
  | inr absent ↦ rw e1 (rw (mapped, vmem_32_lookup_frame) (rw read (rw absent (rw unmapped refl))))
]

module _ (m : Machine) (low s : ℕ) (paged : IsPaged m low) (free : IsFree m s)
    (ready : IsReady m) where
  -- `vmem_32_lookup_frame` finds what the processor finds in the same page directory. The machine:
  -- paging is on, and the page walk reaches the low tables and the table of temporary mappings; entry
  -- `s` is the first free one of that table; the entries of the frame map have 8 bits, and `map_sem`
  -- has a free slot. The page: it is below 2^20, its page directory is mapped, and its directory entry
  -- is present and names a mappable frame other than 1023, the frame of the table of temporary
  -- mappings. Then the call returns the frame of the page walk, or -EFAULT if the page is not
  -- present; afterwards every counter is what it was, and every word of the memory, except that the
  -- temporary entry is 0.
  pub vmem_32_lookup_frame-walk :
      (pd d pg : ℕ)
      → frame_of m pd ≡ some d
      → pg < 2 ^ 20
      → m.word d (pg / 1024) % 2 ≡ 1
      → m.word d (pg / 1024) / 2 ^ 12 ≢ 1023
      → IsMappable m (m.word d (pg / 1024) / 2 ^ 12)
      → Restored m s (Result ℕ) (walk_result m.word d pg) (vmem_32_lookup_frame pd pg m)
  vmem_32_lookup_frame-walk pd d pg here low_page present apart mappable =
      let t = m.word d (pg / 1024) / 2 ^ 12 in
      let inst = install_temp_page_frame_lem m low s paged free ready t in
      let m1 = opened m s t inst.p' in
      let c =
        closed m low s paged free ready t mappable inst.p' inst.follows
          (inst.counters mappable.used mappable.below mappable.inside) in
      let j = pagetable_page_index pg in
      let in_table : j < 1024 = omega (arith, pagetable_page_index_lem pg) in
      let same : m1.word t j ≡ m.word t (pg % 1024) =
        put_word_other m.word 1023 s (pte_create t present_writeable) t j (inl apart)
        ∙ ap (m.word t) (pagetable_page_index_lem pg) in
      let read =
        read_entry_lem m1 (261120 + s) t (shown m low s paged free ready t inst.p' mappable.bits) j
          in_table in
      let returned =
        lookup_done pd pg (pg / 1024) (261120 + s) (m1.word t j) m m1 _
          (first_table_lem pg low_page)
          (map_page_table_lem m low s paged free ready pd d here (pg / 1024) (omega arith)) read
          (unmap_done (261120 + s) m1 _ c.returns) in
      Restored-as c (walk_result m.word d pg) _ (
        returned
        ∙ ap
            (λ v.
              done (if pte_is_present v then ok (pte_get_pageframe_index v) else err efault)
                (record m { pmem = c.p'; word = c.word' }))
            same
        ∙ ap (λ res. done res (record m { pmem = c.p'; word = c.word' }))
            (sym (walk_result_lem m.word d pg present)))
