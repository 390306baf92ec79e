-- ===== src/Vmem32.antt =====
-- Address spaces of 32-bit Protected Mode: src/kernel/bin/arch/i386/vmem_32.c. An address space is
-- its page directory, by the page that holds it.
pub mod Temp
pub mod Setup
pub mod Mapped
pub mod Lookup
pub mod Walk
pub mod Absent
pub mod Check
pub mod Probe
pub mod Sample
mod Examples
use opsys.Base.{
  ℕ, zero, suc, ◌+◌, ◌-◌, ◌%◌, ◌^◌, ◌≡◌, Bool, true, false, Option, none, some, ◌==◌, if◌then◌else◌,
  Result, ok, err, einval, enomem, efault,
}
use opsys.Page.{
  page_address, page_memory, pagetable_index, pagetable_count, pagetable_page_index,
  pte_get_pageframe_index, pte_is_present, minul,
}
use opsys.Pmem.{pmem_alloc_frames}
use opsys.Paging.{page_directory_init, page_table_map_page_frame}
use opsys.Paging.Machine.{M, pure, ◌>>=◌, ◌>>◌, in_pmem, read_entry, write_entry}
use opsys.Vmem32.Temp.{map_page_table, unmap_page_table}

-- The first page table of a range of pages, and their number.
abbrev pub first_table : ℕ → ℕ
first_table pgindex = pagetable_index (page_address pgindex)

abbrev pub table_count : ℕ → ℕ → ℕ
table_count pgindex pgcount = pagetable_count (page_address pgindex) (page_memory pgcount)

-- `alloc_aligned` returns the page of the new page directory, or NULL.
unfoldable pub vmem_32_init : M (Option ℕ) → (ℕ → M (Unit {0})) → M (Result ℕ)
vmem_32_init alloc_aligned unref_aligned = do
  pages ← alloc_aligned
  elim pages [
    | none ↦ pure (err enomem)
    | some pd ↦ (do
      res ← page_directory_init pd
      elim res [ err e ↦ unref_aligned pd >> pure (err e) | ok _ ↦ pure (ok pd) ])
  ]

-- The variables of the loops over a range of pages.
pub record Cursor : Type 0 where
  pub pgindex : ℕ
  pub pgcount : ℕ
  pub nempty : ℕ

-- The inner loop of `vmem_32_check_empty_pages`, with `left` = 1024 - `i`.
unfoldable pub count_empty : ℕ → ℕ → ℕ → Cursor → M Cursor
count_empty pt zero i c = pure c
count_empty pt (suc left) i c = if c.pgcount == 0 then pure c else (do
  pte ← read_entry pt i
  if pte_get_pageframe_index pte == 0
      then count_empty pt left (i + 1)
          (record { pgindex = c.pgindex + 1; pgcount = c.pgcount - 1; nempty = c.nempty + 1 })
      else pure c)

-- The outer loop, over `ptcount` page tables.
unfoldable pub check_tables : ℕ → ℕ → ℕ → Cursor → M ℕ
check_tables pd zero ptindex c = pure c.nempty
check_tables pd (suc ptcount) ptindex c = do
  pt ← map_page_table pd ptindex false
  elim pt [
    | none ↦
        check_tables pd ptcount (ptindex + 1)
          (record c { nempty = c.nempty + minul c.pgcount (1024 - pagetable_page_index c.pgindex) })
    | some pt' ↦ (do
      let i = pagetable_page_index c.pgindex
      c' ← count_empty pt' (1024 - i) i c
      unmap_page_table pt'
      check_tables pd ptcount (ptindex + 1) c')
  ]

unfoldable pub vmem_32_check_empty_pages : ℕ → ℕ → ℕ → M ℕ
vmem_32_check_empty_pages pd pgindex pgcount =
    check_tables pd (table_count pgindex pgcount) (first_table pgindex)
      (record { pgindex = pgindex; pgcount = pgcount; nempty = 0 })

-- The inner loops of the mapping functions, with `left` = 1024 - `j` entries of the page table to
-- go. `frame k` finds the frame for the page that is `k` pages behind the first. The result is the
-- number of pages done, or the error that ended the loop.
unfoldable pub map_entries : (ℕ → M (Result ℕ)) → ℕ → ℕ → ℕ → ℕ → ℕ → ℕ → M (Result ℕ)
map_entries frame flags pt zero j k pgcount = pure (ok k)
map_entries frame flags pt (suc left) j k pgcount = if pgcount == 0 then pure (ok k) else (do
  found ← frame k
  elim found [
    | err e ↦ pure (err e)
    | ok pfindex ↦ (do
      res ← page_table_map_page_frame pt pfindex j flags
      elim res [
        | err e ↦ pure (err e)
        | ok _ ↦ map_entries frame flags pt left (j + 1) (k + 1) (pgcount - 1)
      ])
  ])

-- The outer loops: `no_table` is the error for a page table that cannot be mapped, `k` the number
-- of pages done so far. After an error, nothing is cleaned up.
unfoldable pub map_tables :
    (ℕ → M (Result ℕ)) → Result (Unit {0}) → ℕ → ℕ → ℕ → ℕ → ℕ → ℕ → ℕ → M (Result (Unit {0}))
map_tables frame no_table flags pd zero ptindex pgindex k pgcount = pure (ok tt)
map_tables frame no_table flags pd (suc ptcount) ptindex pgindex k pgcount = do
  pt ← map_page_table pd ptindex true
  elim pt [
    | none ↦ pure no_table
    | some pt' ↦ (do
      let j = pagetable_page_index (pgindex + k)
      res ← map_entries frame flags pt' (1024 - j) j k (pgcount - k)
      elim res [
        | err e ↦ pure (err e)
        | ok k' ↦
            unmap_page_table pt'
            >> map_tables frame no_table flags pd ptcount (ptindex + 1) pgindex k' pgcount
      ])
  ]

unfoldable pub vmem_32_alloc_frames : ℕ → ℕ → ℕ → ℕ → ℕ → M (Result (Unit {0}))
vmem_32_alloc_frames pd pfindex pgindex pgcount pteflags =
    map_tables (λ k. pure (ok (pfindex + k))) (err enomem) pteflags pd (table_count pgindex pgcount)
      (first_table pgindex) pgindex 0 pgcount

unfoldable pub vmem_32_lookup_frame : ℕ → ℕ → M (Result ℕ)
vmem_32_lookup_frame pd pgindex = do
  pt ← map_page_table pd (first_table pgindex) false
  elim pt [
    | none ↦ pure (err efault)
    | some pt' ↦ (do
      pte ← read_entry pt' (pagetable_page_index pgindex)
      if pte_is_present pte
          then (do
            pte2 ← read_entry pt' (pagetable_page_index pgindex)
            unmap_page_table pt'
            pure (ok (pte_get_pageframe_index pte2)))
          else (unmap_page_table pt' >> pure (err efault)))
  ]

-- A frame for each page; the frame 0 of `pmem_alloc_frames` is its failure.
unfoldable pub new_frame : ℕ → M (Result ℕ)
new_frame k = do
  pfindex ← in_pmem (pmem_alloc_frames 1)
  if pfindex == 0 then pure (err enomem) else pure (ok pfindex)

unfoldable pub vmem_32_alloc_pages : ℕ → ℕ → ℕ → ℕ → M (Result (Unit {0}))
vmem_32_alloc_pages pd pgindex pgcount pteflags =
    map_tables new_frame (err efault) pteflags pd (table_count pgindex pgcount)
      (first_table pgindex) pgindex 0 pgcount

-- The source page is the same for all destination pages.
unfoldable pub vmem_32_map_pages : ℕ → ℕ → ℕ → ℕ → ℕ → ℕ → M (Result (Unit {0}))
vmem_32_map_pages dst_pd dst_pgindex src_pd src_pgindex pgcount pteflags =
    map_tables (λ k. vmem_32_lookup_frame src_pd src_pgindex) (err efault) pteflags dst_pd
      (table_count dst_pgindex pgcount) (first_table dst_pgindex) dst_pgindex 0 pgcount

unfoldable pub share_entries : ℕ → ℕ → ℕ → ℕ → M (Unit {0})
share_entries dst_pd src_pd ptindex zero = pure tt
share_entries dst_pd src_pd ptindex (suc ptcount) = do
  pde ← read_entry src_pd ptindex
  write_entry dst_pd ptindex pde
  share_entries dst_pd src_pd (ptindex + 1) ptcount

unfoldable pub vmem_32_share_page_range : ℕ → ℕ → ℕ → ℕ → M (Result (Unit {0}))
vmem_32_share_page_range dst_pd src_pd pgindex pgcount =
    share_entries dst_pd src_pd (first_table pgindex) (table_count pgindex pgcount) >> pure (ok tt)
