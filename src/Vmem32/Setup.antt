-- ===== src/Vmem32/Setup.antt =====
-- The functions of src/kernel/bin/arch/i386/vmem_32.c for the time before paging is on, when a page
-- is the frame of its number.
use opsys.Base.{ℕ, true, none, some, ◌==◌, if◌then◌else◌, Result, ok, err, enomem}
use opsys.Page.{
  page_address, pagetable_index, pagetable_page_index, pde_get_pageframe_index, present_writeable,
}
use opsys.Pmem.{pmem_alloc_frames, pmem_unref_frames}
use opsys.Paging.{
  page_table_init, page_table_uninit, page_table_map_page_frame, page_directory_install_page_table,
  page_directory_uninstall_page_table,
}
use opsys.Paging.Machine.{M, pure, done, ◌>>=◌, ◌>>◌, in_pmem, read_entry}
use opsys.VmemArea.{tmpmap, vmem_area_get_by_name}
use opsys.Vmem32.Temp.{pointer, claim_and_init_temp_page_table, page_table_frames}

unfoldable pub vmem_32_map_pageframe_nopg : ℕ → ℕ → ℕ → ℕ → M (Result (Unit {0}))
vmem_32_map_pageframe_nopg pd pfindex pgindex flags = do
  pde ← read_entry pd (pagetable_index (page_address pgindex))
  elim (pointer (pde_get_pageframe_index pde)) [
    | none ↦ pure (err enomem)
    | some pt ↦ page_table_map_page_frame pt pfindex (pagetable_page_index pgindex) flags
  ]

-- The clean-up of `vmem_32_alloc_page_table_nopg`.
unfoldable pub undo_page_table_nopg : ℕ → M (Unit {0})
undo_page_table_nopg pfindex = in_pmem (pmem_unref_frames pfindex page_table_frames)

unfoldable pub vmem_32_alloc_page_table_nopg : ℕ → ℕ → ℕ → M (Result (Unit {0}))
vmem_32_alloc_page_table_nopg pd ptindex flags = do
  pde ← read_entry pd ptindex
  if pde_get_pageframe_index pde == 0
      then (do
        pfindex ← in_pmem (pmem_alloc_frames page_table_frames)
        if pfindex == 0 then pure (err enomem) else (do
          res ← page_table_init pfindex
          elim res [
            | err e ↦ undo_page_table_nopg pfindex >> pure (err e)
            | ok _ ↦ (do
              res2 ← page_directory_install_page_table pd pfindex ptindex flags
              elim res2 [
                | err e ↦ page_table_uninit pfindex >> undo_page_table_nopg pfindex >> pure (err e)
                | ok _ ↦ pure (ok tt)
              ])
          ]))
      else pure (ok tt)

unfoldable pub vmem_32_install_tmp_nopg : ℕ → M (Result (Unit {0}))
vmem_32_install_tmp_nopg pd = do
  claimed ← claim_and_init_temp_page_table
  elim claimed [
    | none ↦ pure (err enomem)
    | some pt ↦ (do
      let index = pagetable_index (page_address (vmem_area_get_by_name tmpmap).pgindex)
      res ← page_directory_install_page_table pd pt index present_writeable
      elim res [
        | err e ↦ pure (err e)
        | ok _ ↦ (do
          res2 ← vmem_32_map_pageframe_nopg pd pt pt present_writeable
          elim res2 [
            | err e ↦ page_directory_uninstall_page_table pd index >> pure (err e)
            | ok _ ↦ pure (ok tt)
          ])
      ])
  ]

unfoldable pub vmem_32_map_paging_structures_nopg : ℕ → M (Result (Unit {0}))
vmem_32_map_paging_structures_nopg pd = vmem_32_map_pageframe_nopg pd pd pd present_writeable

-- `mmu_load` sets the register CR3, `mmu_enable_paging` the paging bit of CR0.
unfoldable pub vmem_32_enable_paging_nopg : ℕ → M (Unit {0})
vmem_32_enable_paging_nopg pd m = done tt (record m { cr3 = pd; paging = true })
