-- ===== src/Paging.antt =====
-- Page tables and page directories: src/kernel/bin/arch/i386/pagetbl.c, pagetbl.h, pagedir.c and
-- pagedir.h, on a machine with a memory of page frames.
-- A pointer to a page table or a page directory is the index of the page that holds it, since both
-- fill one page. The processor resolves it by a page walk once paging is on; large pages are not
-- used. The walk reads memory, as after each flush of the TLB.
pub mod Machine
pub mod Entry
pub mod Balance
pub mod Frames
mod Examples
use opsys.Base.{
  ℕ, zero, suc, ◌+◌, ◌≡◌, Bool, Option, none, some, ◌==◌, ltb, if◌then◌else◌, Result, ok, err,
}
use opsys.Page.{pte_create, pte_get_pageframe_index, pde_create, pde_get_pageframe_index}
use opsys.Pmem.{pmem_ref_frames, pmem_unref_frames}
use opsys.Paging.Machine.{M, pure, ◌>>=◌, ◌>>◌, in_pmem, read_entry, write_entry, clear_table}

unfoldable pub page_table_init : ℕ → M (Result (Unit {0}))
page_table_init pt = clear_table pt >> pure (ok tt)

unfoldable pub page_table_uninit : ℕ → M (Unit {0})
page_table_uninit pt = pure tt

-- `if (index of the old entry) pmem_unref_frames(index, 1)`, by the function that takes the index.
unfoldable pub unref_old : (ℕ → ℕ) → ℕ → M (Unit {0})
unref_old get_pageframe_index old =
    if get_pageframe_index old == 0
    then pure tt
    else in_pmem (pmem_unref_frames (get_pageframe_index old) 1)

unfoldable pub page_table_map_page_frame : ℕ → ℕ → ℕ → ℕ → M (Result (Unit {0}))
page_table_map_page_frame pt pfindex index flags = do
  res ← in_pmem (pmem_ref_frames pfindex 1)
  elim res [
    | err e ↦ pure (err e)
    | ok _ ↦ (do
      old ← read_entry pt index
      unref_old pte_get_pageframe_index old
      write_entry pt index (pte_create pfindex flags)
      pure (ok tt))
  ]

unfoldable pub page_table_map_page_frames : ℕ → ℕ → ℕ → ℕ → ℕ → M (Result (Unit {0}))
page_table_map_page_frames pt pfindex index zero flags = pure (ok tt)
page_table_map_page_frames pt pfindex index (suc count) flags = do
  res ← page_table_map_page_frame pt pfindex index flags
  elim res [
    | err e ↦ pure (err e)
    | ok _ ↦ page_table_map_page_frames pt (pfindex + 1) (index + 1) count flags
  ]

unfoldable pub page_table_unmap_page_frame : ℕ → ℕ → M (Result (Unit {0}))
page_table_unmap_page_frame pt index = do
  old ← read_entry pt index
  unref_old pte_get_pageframe_index old
  write_entry pt index (pte_create 0 0)
  pure (ok tt)

unfoldable pub page_table_unmap_page_frames : ℕ → ℕ → ℕ → M (Result (Unit {0}))
page_table_unmap_page_frames pt index zero = pure (ok tt)
page_table_unmap_page_frames pt index (suc count) = do
  res ← page_table_unmap_page_frame pt index
  elim res [ err e ↦ pure (err e) | ok _ ↦ page_table_unmap_page_frames pt (index + 1) count ]

unfoldable pub page_directory_init : ℕ → M (Result (Unit {0}))
page_directory_init pd = clear_table pd >> pure (ok tt)

unfoldable pub page_directory_uninit : ℕ → M (Unit {0})
page_directory_uninit pd = pure tt

unfoldable pub page_directory_install_page_table : ℕ → ℕ → ℕ → ℕ → M (Result (Unit {0}))
page_directory_install_page_table pd pfindex index flags = do
  res ← in_pmem (pmem_ref_frames pfindex 1)
  elim res [
    | err e ↦ pure (err e)
    | ok _ ↦ (do
      old ← read_entry pd index
      unref_old pde_get_pageframe_index old
      write_entry pd index (pde_create pfindex flags)
      pure (ok tt))
  ]

unfoldable pub page_directory_install_page_tables : ℕ → ℕ → ℕ → ℕ → ℕ → M (Result (Unit {0}))
page_directory_install_page_tables pd pfindex index zero flags = pure (ok tt)
page_directory_install_page_tables pd pfindex index (suc count) flags = do
  res ← page_directory_install_page_table pd pfindex index flags
  elim res [
    | err e ↦ pure (err e)
    | ok _ ↦ page_directory_install_page_tables pd (pfindex + 1) (index + 1) count flags
  ]

unfoldable pub page_directory_uninstall_page_table : ℕ → ℕ → M (Result (Unit {0}))
page_directory_uninstall_page_table pd index = do
  old ← read_entry pd index
  unref_old pde_get_pageframe_index old
  write_entry pd index (pde_create 0 0)
  pure (ok tt)

unfoldable pub page_directory_uninstall_page_tables : ℕ → ℕ → ℕ → M (Result (Unit {0}))
page_directory_uninstall_page_tables pd index zero = pure (ok tt)
page_directory_uninstall_page_tables pd index (suc count) = do
  res ← page_directory_uninstall_page_table pd index
  elim res [
    | err e ↦ pure (err e)
    | ok _ ↦ page_directory_uninstall_page_tables pd (index + 1) count
  ]
