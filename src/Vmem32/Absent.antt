-- ===== src/Vmem32/Absent.antt =====
-- Looking up a page in src/kernel/bin/arch/i386/vmem_32.c when it has no page table.
use opsys.Base.{
  ℕ, ◌+◌, ◌/◌, ◌%◌, ◌^◌, ◌<◌, ◌≡◌, refl, ◌∙◌, ap, inl, if◌then◌else◌, some, ok, err, arith, length,
  efault,
}
use opsys.Page.{
  pte_create, pte_get_pageframe_index, pte_is_present, present_writeable, pagetable_page_index,
}
use opsys.Page.Entries.{pagetable_page_index_lem}
use opsys.Pmem.Single.{counter_of}
use opsys.Paging.Machine.{Machine, done, frame_of, put_word}
use opsys.Paging.Entry.{IsReady, read_entry_lem, owned}
use opsys.Paging.Balance.{put_word_self}
use opsys.Paging.Frames.{AgreeOff-put}
use opsys.Vmem32.{vmem_32_lookup_frame}
use opsys.Vmem32.Mapped.{IsPaged, IsFree, install_temp_page_frame_lem, uninstall_temp_page_lem}
use opsys.Vmem32.Lookup.{opened, shown, put_word_other, entry_index}
use opsys.Vmem32.Walk.{unmap_done, lookup_done, first_table_lem, map_page_table_lem}

owned-none :
    (pte i : ℕ) → pte_get_pageframe_index pte ≡ 0 → owned (pte_get_pageframe_index pte) i ≡ 0
owned-none pte i e = rw e refl

module _ (m : Machine) (low s : ℕ) (paged : IsPaged m low) (free : IsFree m s)
    (ready : IsReady m) where
  -- A page without a page table is looked up in the page frame 0: where the directory entry names
  -- no frame, with paging on and a free temporary entry, `vmem_32_lookup_frame` takes the words of
  -- frame 0 for the page table, and if the counter of that frame can be raised, it is higher by
  -- one afterwards.
  pub vmem_32_lookup_frame-absent :
      (pd d pg : ℕ)
      → frame_of m pd ≡ some d
      → pg < 2 ^ 20
      → m.word d (pg / 1024) / 2 ^ 12 ≡ 0
      → (m2 : Machine) × (vmem_32_lookup_frame pd pg m
          ≡ done
              (let pte = m.word 0 (pg % 1024) in
                if pte_is_present pte then ok (pte_get_pageframe_index pte) else err efault)
              m2)
        × (0 < counter_of m.pmem 0
            → counter_of m.pmem 0 < 63
            → 0 < length m.pmem.map
            → counter_of m2.pmem 0 ≡ counter_of m.pmem 0 + 1)
  vmem_32_lookup_frame-absent pd d pg here low_page absent =
      let inst = install_temp_page_frame_lem m low s paged free ready 0 in
      let v = pte_create 0 present_writeable in
      let m1 = opened m s 0 inst.p' in
      let u =
        uninstall_temp_page_lem m low s paged free ready inst.p' m1.word
          (AgreeOff-put m.word 1023 s v) inst.follows in
      let j = pagetable_page_index pg in
      let in_table : j < 1024 = omega (arith, pagetable_page_index_lem pg) in
      let same : m1.word 0 j ≡ m.word 0 (pg % 1024) =
        put_word_other m.word 1023 s v 0 j (inl (omega arith))
        ∙ ap (m.word 0) (pagetable_page_index_lem pg) in
      let read =
        read_entry_lem m1 (261120 + s) 0 (shown m low s paged free ready 0 inst.p' (omega arith)) j
          in_table in
      let mapped =
        rw absent at
          (map_page_table_lem m low s paged free ready pd d here (pg / 1024) (omega arith)) in
      let returned =
        lookup_done pd pg (pg / 1024) (261120 + s) (m1.word 0 j) m m1 _
          (first_table_lem pg low_page) mapped read (unmap_done (261120 + s) m1 _ u.returns) in
      let old = owned-none (m1.word 1023 s) 0 (
        ap pte_get_pageframe_index (put_word_self m.word 1023 s v 0)
        ∙ entry_index 0 (omega arith)) in
      (
        _,
        returned
            ∙ ap
                (λ w.
                  done (if pte_is_present w then ok (pte_get_pageframe_index w) else err efault)
                    (record m { pmem = u.p'; word = put_word m1.word 1023 s (pte_create 0 0) }))
                same,
        λ a b c. omega (arith, u.counters 0, inst.counters a b c 0, old),
      )
