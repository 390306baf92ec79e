-- ===== src/VmemArea.antt =====
-- The areas of virtual memory: src/kernel/bin/vmemarea.c, vmemarea.h and
-- arch/i386/vmemarea_32.c. Page indices are not negative.
pub mod Partition
mod Examples
use opsys.Base.{ℕ, ◌+◌, Bool, ◌&&◌, Option, none, some, leb, ltb, if◌then◌else◌, List, [], ◌∷◌}

pub data VmemAreaName : Type 0 where
  system kernel_low kernel tmpmap user : VmemAreaName

pub record VmemArea : Type 0 where
  pub pgindex : ℕ
  pub npages : ℕ
  pub flags : ℕ

abbrev pub flag_empty : ℕ
flag_empty = 0

-- KERNEL, PAGETABLES and GLOBAL.
abbrev pub flags_kernel : ℕ
flags_kernel = 1 + 8 + 16

abbrev pub flag_user : ℕ
flag_user = 32

-- The table `g_vmem_area`.
abbrev pub vmem_area_get_by_name : VmemAreaName → VmemArea
vmem_area_get_by_name system = record { pgindex = 0; npages = 1; flags = flag_empty }
vmem_area_get_by_name kernel_low = record { pgindex = 1; npages = 1023; flags = flags_kernel }
vmem_area_get_by_name kernel = record { pgindex = 1024; npages = 260096; flags = flags_kernel }
vmem_area_get_by_name tmpmap = record { pgindex = 261120; npages = 1024; flags = flags_kernel }
vmem_area_get_by_name user = record { pgindex = 262144; npages = 786432; flags = flag_user }

unfoldable pub vmem_area_contains_page : VmemArea → ℕ → Bool
vmem_area_contains_page area pgindex =
    leb area.pgindex pgindex && ltb pgindex (area.pgindex + area.npages)

-- The loop over the table.
unfoldable pub area_from : List VmemAreaName → ℕ → Option VmemAreaName
area_from [] pgindex = none
area_from (name ∷ names) pgindex =
    let rest = area_from names pgindex in
    if vmem_area_contains_page (vmem_area_get_by_name name) pgindex then some name else rest

unfoldable pub vmem_area_get_by_page : ℕ → Option VmemAreaName
vmem_area_get_by_page pgindex =
    area_from (system ∷ kernel_low ∷ kernel ∷ tmpmap ∷ user ∷ []) pgindex
