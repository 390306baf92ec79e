-- ===== src/Boot/Claims.antt =====
-- The frames that are in use at boot: the functions of src/kernel/bin/arch/i386/multiboot.c that
-- set up the map of the page frames, and those that give frames back.
use opsys.Base.{
  ℕ, ◌*◌, Option, none, some, ◌==◌, if◌then◌else◌, List, [], ◌∷◌, Result, ok, err, enomem,
}
use opsys.Boot.{
  FrameRange, Module, frames_of, mod_range, available_ranges, section_ranges, modules,
  first_mmap_entry, first_mod_list, mmap_length, mods_count, sizeof_info, sizeof_mod, word_of,
  available_frames, alloc_memmap,
}
use opsys.Libc.{Mem}
use opsys.Pmem.{
  M, pure, out_of_fuel, ◌>>=◌, ◌>>◌, pmem_init, pmem_set_type, pmem_claim_frames, pmem_unref_frames,
}
use opsys.Pmem.Frame.{available}

-- A step that has to succeed before the next.
abbrev pub and_then : M (Result (Unit {0})) → M (Result (Unit {0})) → M (Result (Unit {0}))
and_then f g = do res ← f; elim res [ err e ↦ pure (err e) | ok _ ↦ g ]

-- A loop that ends at the first error.
unfoldable pub each_range :
    (FrameRange → M (Result (Unit {0}))) → List FrameRange → M (Result (Unit {0}))
each_range body [] = pure (ok tt)
each_range body (r ∷ rs) = and_then (body r) (each_range body rs)

abbrev pub claim_range : FrameRange → M (Result (Unit {0}))
claim_range r = pmem_claim_frames r.pfindex r.nframes

abbrev pub unref_range : FrameRange → M (Unit {0})
unref_range r = pmem_unref_frames r.pfindex r.nframes

unfoldable pub mark_mmap_areas : List FrameRange → M (Result (Unit {0}))
mark_mmap_areas areas = each_range (λ r. pmem_set_type r.pfindex r.nframes available) areas

-- The ranges of the memory map and of the list of modules.
abbrev pub mmap_table : Mem → ℕ → FrameRange
mmap_table mem info = frames_of (first_mmap_entry mem info) (mmap_length mem info)

abbrev pub mods_table : Mem → ℕ → FrameRange
mods_table mem info =
    frames_of (first_mod_list mem info) (word_of (mods_count mem info * sizeof_mod))

unfoldable pub claim_multiboot_frames : Mem → ℕ → M (Result (Unit {0}))
claim_multiboot_frames mem info = and_then (claim_range (frames_of info sizeof_info)) (
    and_then
      (if first_mmap_entry mem info == 0 then pure (ok tt) else claim_range (mmap_table mem info))
      (if first_mod_list mem info == 0 then pure (ok tt) else claim_range (mods_table mem info)))

unfoldable pub claim_kernel_frames : List FrameRange → M (Result (Unit {0}))
claim_kernel_frames sections = each_range claim_range sections

abbrev pub cmdline_range : Module → FrameRange
cmdline_range m = frames_of m.cmdline m.cmdlen

unfoldable pub claim_modules_frames : List Module → M (Result (Unit {0}))
claim_modules_frames [] = pure (ok tt)
claim_modules_frames (m ∷ ms) = and_then (claim_range (mod_range m)) (
    and_then (if m.cmdline == 0 then pure (ok tt) else claim_range (cmdline_range m))
      (claim_modules_frames ms))

-- A loop over entries, which runs out of fuel if the entries do.
abbrev pub over : {A B : Type 0} → Option A → (A → M B) → M B
over none f = λ p. out_of_fuel
over (some a) f = f a

-- The steps after `pmem_init`, with the address of the map.
unfoldable pub claim_all : Mem → ℕ → ℕ → (pfcount memmap : ℕ) → M (Result (Unit {0}))
claim_all mem fuel info pfcount memmap =
    and_then (over (available_ranges mem fuel info) mark_mmap_areas) (
      and_then (claim_range (frames_of memmap (pfcount * 1))) (
        and_then (claim_multiboot_frames mem info) (
          and_then (over (section_ranges mem fuel info) claim_kernel_frames)
            (over (modules mem fuel info) claim_modules_frames))))

-- The address of the map, and the state of the allocator, which `pmem_init` makes.
unfoldable pub init_pmem_from_multiboot : Mem → ℕ → ℕ → M (Result ℕ)
init_pmem_from_multiboot mem fuel info = over (available_frames mem fuel info) λ pfcount.
    if pfcount == 0
    then pure (err enomem)
    else over (alloc_memmap mem fuel info pfcount) λ memmap.
      if memmap == 0 then pure (err enomem) else (λ p.
        (claim_all mem fuel info pfcount memmap >>= λ res. (elim res as (λ x. M (Result ℕ)) [
          | err e ↦ pure (err e)
          | ok _ ↦ pure (ok memmap)
        ]))
          (pmem_init pfcount))

unfoldable pub reclaim_multiboot_frames : Mem → ℕ → M (Unit {0})
reclaim_multiboot_frames mem info =
    (if first_mod_list mem info == 0 then pure tt else unref_range (mods_table mem info))
    >> (if first_mmap_entry mem info == 0 then pure tt else unref_range (mmap_table mem info))
    >> unref_range (frames_of info sizeof_info)

unfoldable pub reclaim_kernel_frames : List FrameRange → M (Unit {0})
reclaim_kernel_frames [] = pure tt
reclaim_kernel_frames (r ∷ rs) = unref_range r >> reclaim_kernel_frames rs

unfoldable pub reclaim_modules_frames : List Module → M (Unit {0})
reclaim_modules_frames [] = pure tt
reclaim_modules_frames (m ∷ ms) =
    (if m.cmdline == 0 then pure tt else unref_range (cmdline_range m))
    >> unref_range (mod_range m)
    >> reclaim_modules_frames ms
