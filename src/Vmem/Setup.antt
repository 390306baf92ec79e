-- ===== src/Vmem/Setup.antt =====
-- Making an address space: the functions of src/kernel/bin/vmem.c for a new address space from its
-- parent, and for the one of the kernel before paging is on.
use opsys.Base.{
  ℕ, zero, suc, ◌+◌, Bool, ◌&&◌, not, Option, none, ◌==◌, if◌then◌else◌, List, [], ◌∷◌, Result, ok,
  err, bit_and,
}
use opsys.LinkedList.{put}
use opsys.Page.{
  page_count, page_address, page_memory, pagetable_index, pagetable_count, pageframe_count,
  pageframe_index, pageframe_span, present_writeable,
}
use opsys.Pmem.{pmem_alloc_frames, pmem_unref_frames}
use opsys.Paging.Machine.{M, pure, done, ◌>>=◌, ◌>>◌, in_pmem}
use opsys.VmemArea.{VmemAreaName, system, kernel_low, kernel, tmpmap, user, vmem_area_get_by_name}
use opsys.Vmem.{with_pd, share_page_range, vmem_alloc_pages_in_area}
use opsys.Vmem32.{vmem_32_init}
use opsys.Vmem32.Temp.{pointer}
use opsys.Vmem32.Setup.{
  vmem_32_map_pageframe_nopg, vmem_32_alloc_page_table_nopg, vmem_32_install_tmp_nopg,
  vmem_32_map_paging_structures_nopg, vmem_32_enable_paging_nopg,
}

-- The names in the order of the loops over the areas.
abbrev pub all_areas : List VmemAreaName
all_areas = system ∷ kernel_low ∷ kernel ∷ tmpmap ∷ user ∷ []

abbrev pub has_flag : VmemAreaName → ℕ → Bool
has_flag name flag = not (bit_and (vmem_area_get_by_name name).flags flag == 0)

abbrev pub flag_polute : ℕ
flag_polute = 2

abbrev pub flag_identity : ℕ
flag_identity = 4

abbrev pub flag_pagetables : ℕ
flag_pagetables = 8

abbrev pub flag_global : ℕ
flag_global = 16

-- A step that has to succeed before the next.
abbrev pub and_then : M (Result (Unit {0})) → M (Result (Unit {0})) → M (Result (Unit {0}))
and_then f g = do res ← f; elim res [ err e ↦ pure (err e) | ok _ ↦ g ]

-- A loop over the areas that skips those that fail the test and ends at the first error.
unfoldable pub each_area :
    (VmemAreaName → Bool)
    → (VmemAreaName → M (Result (Unit {0})))
    → List VmemAreaName
    → M (Result (Unit {0}))
each_area test body [] = pure (ok tt)
each_area test body (name ∷ names) =
    let rest = each_area test body names in if test name then and_then (body name) rest else rest

-- `semaphore_init` gives the semaphore one slot, and returns 0; the uninit functions are empty.
unfoldable pub vmem_init : ℕ → M (Option ℕ) → (ℕ → M (Unit {0})) → M (Result (Unit {0}))
vmem_init v alloc_aligned unref_aligned = do
  (λ m. done tt (record m { sem = put m.sem v 1 }))
  res ← vmem_32_init alloc_aligned unref_aligned
  elim res [
    | err e ↦ pure (err e)
    | ok page ↦ λ m. done (ok tt) (record m { pd = put m.pd v page })
  ]

unfoldable pub alloc_pages : ℕ → ℕ → M (Option ℕ)
alloc_pages parent siz = do
  found ← vmem_alloc_pages_in_area parent kernel (page_count 0 siz) present_writeable
  elim found [ err e ↦ pure none | ok pgindex ↦ pure (pointer pgindex) ]

unfoldable pub unref_pages : ℕ → M (Unit {0})
unref_pages page = pure tt

-- `sizeof(struct page_directory)` is 4096.
unfoldable pub vmem_init_from_parent : ℕ → ℕ → M (Result (Unit {0}))
vmem_init_from_parent v parent = and_then (vmem_init v (alloc_pages parent 4096) unref_pages) (
    each_area (λ name. has_flag name flag_global)
      (λ name.
        share_page_range v parent (vmem_area_get_by_name name).pgindex
          (vmem_area_get_by_name name).npages)
      all_areas)

unfoldable pub alloc_frames : ℕ → M (Option ℕ)
alloc_frames siz = do
  pfindex ← in_pmem (pmem_alloc_frames (pageframe_count siz))
  pure (pointer pfindex)

unfoldable pub unref_frames : ℕ → ℕ → M (Unit {0})
unref_frames siz page = in_pmem (
    pmem_unref_frames (pageframe_index (page_address page))
      (pageframe_span (page_address page) siz))

-- The loop with `left` frames to go.
unfoldable pub vmem_map_pageframes_nopg : ℕ → ℕ → ℕ → ℕ → ℕ → M (Result (Unit {0}))
vmem_map_pageframes_nopg v pfindex pgindex zero flags = pure (ok tt)
vmem_map_pageframes_nopg v pfindex pgindex (suc left) flags =
    and_then (with_pd v (λ pd. vmem_32_map_pageframe_nopg pd pfindex pgindex flags))
      (vmem_map_pageframes_nopg v (pfindex + 1) (pgindex + 1) left flags)

unfoldable pub vmem_alloc_page_tables_nopg : ℕ → ℕ → ℕ → ℕ → M (Result (Unit {0}))
vmem_alloc_page_tables_nopg v ptindex zero flags = pure (ok tt)
vmem_alloc_page_tables_nopg v ptindex (suc left) flags =
    and_then (with_pd v (λ pd. vmem_32_alloc_page_table_nopg pd ptindex flags))
      (vmem_alloc_page_tables_nopg v (ptindex + 1) left flags)

unfoldable pub vmem_install_tmp_nopg : ℕ → M (Result (Unit {0}))
vmem_install_tmp_nopg v = with_pd v vmem_32_install_tmp_nopg

unfoldable pub vmem_map_paging_structures_nopg : ℕ → M (Result (Unit {0}))
vmem_map_paging_structures_nopg v = with_pd v vmem_32_map_paging_structures_nopg

unfoldable pub vmem_enable_paging_nopg : ℕ → M (Unit {0})
vmem_enable_paging_nopg v = with_pd v vmem_32_enable_paging_nopg

-- The loop over the areas to populate. A failed allocation ends the loop, and its error is lost.
unfoldable pub populate : ℕ → List VmemAreaName → M (Result (Unit {0}))
populate v [] = pure (ok tt)
populate v (name ∷ names) =
    let rest = populate v names in
    if has_flag name flag_polute && not (has_flag name flag_identity)
    then (do
      let area = vmem_area_get_by_name name
      pfindex ← in_pmem (pmem_alloc_frames (pageframe_count (page_memory area.npages)))
      if pfindex == 0
          then pure (ok tt)
          else (and_then
              (vmem_map_pageframes_nopg v pfindex area.pgindex area.npages present_writeable) rest))
    else rest

unfoldable pub vmem_init_nopg : ℕ → M (Result (Unit {0}))
vmem_init_nopg v = and_then (vmem_init v (alloc_frames 4096) (unref_frames 4096)) (
    and_then
      (each_area (λ name. has_flag name flag_pagetables)
        (λ name.
          let area = vmem_area_get_by_name name in
          let start = page_address area.pgindex in
          vmem_alloc_page_tables_nopg v (pagetable_index start)
            (pagetable_count start (page_memory area.npages)) present_writeable)
        all_areas)
      (and_then
        (each_area (λ name. has_flag name flag_polute && has_flag name flag_identity)
          (λ name.
            let area = vmem_area_get_by_name name in
            vmem_map_pageframes_nopg v area.pgindex area.pgindex area.npages present_writeable)
          all_areas)
        (and_then (populate v all_areas)
          (and_then (vmem_install_tmp_nopg v) (vmem_map_paging_structures_nopg v)))))
