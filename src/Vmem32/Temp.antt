-- ===== src/Vmem32/Temp.antt =====
-- Temporary mappings: how the code of src/kernel/bin/arch/i386/vmem_32.c reaches a page table once
-- paging is on. A NULL pointer to a page table is `none`.
use opsys.Base.{
  ℕ, zero, suc, ◌+◌, ◌-◌, ◌/◌, ◌^◌, Bool, ◌&&◌, Option, none, some, ◌==◌, if◌then◌else◌, Result, ok,
  err, einval, ebusy,
}
use opsys.Page.{
  present_writeable, pte_create, pte_get_pageframe_index, pde_get_pageframe_index, pageframe_count,
}
use opsys.Pmem.{pmem_ref_frames, pmem_unref_frames, pmem_alloc_frames, pmem_claim_frames}
use opsys.Paging.{page_table_init, page_table_unmap_page_frame, page_directory_install_page_table}
use opsys.Paging.Machine.{M, pure, ◌>>=◌, ◌>>◌, in_pmem, read_entry, write_entry}
use opsys.VmemArea.{kernel_low, tmpmap, vmem_area_get_by_name, vmem_area_contains_page}

-- The page of the page table for temporary mappings.
abbrev pub get_temp_page_table : ℕ
get_temp_page_table =
    let low = vmem_area_get_by_name kernel_low in
    let tmp = vmem_area_get_by_name tmpmap in low.pgindex + low.npages - tmp.npages / 2 ^ 10

-- A pointer made by `page_address`: NULL is the address of page 0.
abbrev pub pointer : ℕ → Option ℕ
pointer pgindex = if pgindex == 0 then none else some pgindex

unfoldable pub claim_and_init_temp_page_table : M (Option ℕ)
claim_and_init_temp_page_table = elim (pointer get_temp_page_table) [
  | none ↦ pure none
  | some pt ↦ (do
    res ← in_pmem (pmem_claim_frames pt 1)
    elim res [
      | err e ↦ pure none
      | ok _ ↦ (do
        res2 ← page_table_init pt
        elim res2 [ err e ↦ in_pmem (pmem_unref_frames pt 1) >> pure none | ok _ ↦ pure (some pt) ])
    ])
]

abbrev pub get_temp_page : ℕ → ℕ
get_temp_page i = (vmem_area_get_by_name tmpmap).pgindex + i

unfoldable pub page_is_temp : ℕ → Bool
page_is_temp pgindex = vmem_area_contains_page (vmem_area_get_by_name tmpmap) pgindex

abbrev pub get_temp_index : ℕ → ℕ
get_temp_index pgindex = pgindex - (vmem_area_get_by_name tmpmap).pgindex

-- The loop over the entries from `i` on, with `left` of them to go: the first without a frame.
unfoldable pub find_unused : ℕ → ℕ → ℕ → M ℕ
find_unused pt zero i = pure i
find_unused pt (suc left) i = do
  pte ← read_entry pt i
  if pte_get_pageframe_index pte == 0 then pure i else find_unused pt left (i + 1)

-- The result of `pmem_ref_frames` is ignored.
unfoldable pub install_temp_page_frame : ℕ → M (Result ℕ)
install_temp_page_frame pfindex = do
  i ← find_unused get_temp_page_table 1024 0
  if i == 1024 then pure (err ebusy) else (do
    res ← in_pmem (pmem_ref_frames pfindex 1)
    write_entry get_temp_page_table i (pte_create pfindex present_writeable)
    pure (ok (get_temp_page i)))

unfoldable pub uninstall_temp_page : ℕ → M (Result (Unit {0}))
uninstall_temp_page pgindex =
    if page_is_temp pgindex
    then page_table_unmap_page_frame get_temp_page_table (get_temp_index pgindex)
    else pure (err einval)

-- `sizeof(struct page_table)` is 4096.
abbrev pub page_table_frames : ℕ
page_table_frames = pageframe_count 4096

-- The clean-up of `alloc_and_init_page_table` after the temporary mapping.
unfoldable pub undo_page_table : ℕ → ℕ → M (Option ℕ)
undo_page_table pgindex pfindex =
    uninstall_temp_page pgindex
    >> in_pmem (pmem_unref_frames pfindex page_table_frames)
    >> pure none

unfoldable pub alloc_and_init_page_table : ℕ → ℕ → M (Option ℕ)
alloc_and_init_page_table pd i = do
  pfindex ← in_pmem (pmem_alloc_frames page_table_frames)
  if pfindex == 0 then pure none else (do
    mapped ← install_temp_page_frame pfindex
    elim mapped [
      | err e ↦ in_pmem (pmem_unref_frames pfindex page_table_frames) >> pure none
      | ok pgindex ↦ elim (pointer pgindex) [
        | none ↦ undo_page_table pgindex pfindex
        | some pt ↦ (do
          res ← page_table_init pt
          elim res [
            | err e ↦ undo_page_table pgindex pfindex
            | ok _ ↦ (do
              res2 ← page_directory_install_page_table pd pfindex i present_writeable
              elim res2 [ err e ↦ undo_page_table pgindex pfindex | ok _ ↦ pure (some pt) ])
          ])
      ]
    ])

-- The rest of `map_page_table`, for a page frame that is given.
unfoldable pub map_table_frame : ℕ → M (Option ℕ)
map_table_frame pfindex = do
  mapped ← install_temp_page_frame pfindex
  elim mapped [
    | err e ↦ pure none
    | ok pgindex ↦ elim (pointer pgindex) [
      | none ↦ uninstall_temp_page pgindex >> pure none
      | some pt ↦ pure (some pt)
    ]
  ]

unfoldable pub map_page_table : ℕ → ℕ → Bool → M (Option ℕ)
map_page_table pd i init_if_none = do
  pde ← read_entry pd i
  let pfindex = pde_get_pageframe_index pde
  if pfindex == 0 && init_if_none then alloc_and_init_page_table pd i else map_table_frame pfindex

-- A pointer to a page table is its page index already.
unfoldable pub unmap_page_table : ℕ → M (Unit {0})
unmap_page_table pt = uninstall_temp_page pt >> pure tt
