-- ===== src/Boot/Maps.antt =====
-- The address space of the kernel at boot: the functions of src/kernel/bin/arch/i386/multiboot.c
-- that map frames at their own addresses before paging is on.
use opsys.Base.{
  ℕ, ◌+◌, ◌-◌, ◌*◌, ◌^◌, Option, none, some, ◌==◌, if◌then◌else◌, List, [], ◌∷◌, Result, ok,
}
use opsys.Boot.{
  FrameRange, Module, frames_of, section_ranges, modules, first_mmap_entry, first_mod_list,
  sizeof_info, word_of,
}
use opsys.Boot.Claims.{mmap_table, mods_table, cmdline_range}
use opsys.Libc.{Mem}
use opsys.Page.{pageframe_index, pageframe_count, present_writeable}
use opsys.Paging.Machine.{M, pure, out_of_fuel}
use opsys.Pmem.{pmem_get_nframes}
use opsys.Vmem.Setup.{and_then, vmem_init_nopg, vmem_map_pageframes_nopg}

abbrev pub map_range : ℕ → FrameRange → M (Result (Unit {0}))
map_range v r = vmem_map_pageframes_nopg v r.pfindex r.pfindex r.nframes present_writeable

unfoldable pub map_memmap_frames : ℕ → ℕ → ℕ → M (Result (Unit {0}))
map_memmap_frames v memmap nframes =
    map_range v
      (record { pfindex = pageframe_index memmap; nframes = pageframe_count (nframes * 1) })

unfoldable pub map_multiboot_frames : ℕ → Mem → ℕ → M (Result (Unit {0}))
map_multiboot_frames v mem info = and_then (map_range v (frames_of info sizeof_info)) (
    and_then
      (if first_mmap_entry mem info == 0 then pure (ok tt) else map_range v (mmap_table mem info))
      (if first_mod_list mem info == 0 then pure (ok tt) else map_range v (mods_table mem info)))

unfoldable pub map_kernel_frames : ℕ → List FrameRange → M (Result (Unit {0}))
map_kernel_frames v [] = pure (ok tt)
map_kernel_frames v (r ∷ rs) = and_then (map_range v r) (map_kernel_frames v rs)

-- The number of frames of a module is counted here without the offset of its first byte.
abbrev pub mod_frames : Module → FrameRange
mod_frames m = record {
  pfindex = pageframe_index m.mod_start;
  nframes = pageframe_count (word_of (m.mod_end + 2 ^ 32 - m.mod_start));
}

unfoldable pub map_modules_frames : ℕ → List Module → M (Result (Unit {0}))
map_modules_frames v [] = pure (ok tt)
map_modules_frames v (m ∷ ms) = and_then (map_range v (mod_frames m)) (
    and_then (if m.cmdline == 0 then pure (ok tt) else map_range v (cmdline_range m))
      (map_modules_frames v ms))

abbrev pub over : {A B : Type 0} → Option A → (A → M B) → M B
over none f = λ m. out_of_fuel
over (some a) f = f a

-- `vmem_uninit`, which is called after an error, does nothing. `memmap` is the address of the map
-- of the page frames.
unfoldable pub init_vmem_from_multiboot : ℕ → ℕ → Mem → ℕ → ℕ → M (Result (Unit {0}))
init_vmem_from_multiboot v memmap mem fuel info = and_then (vmem_init_nopg v) (
    and_then (λ m. map_memmap_frames v memmap (pmem_get_nframes m.pmem) m)
      (and_then (map_multiboot_frames v mem info) (
        and_then (over (section_ranges mem fuel info) (map_kernel_frames v))
          (over (modules mem fuel info) (map_modules_frames v)))))
