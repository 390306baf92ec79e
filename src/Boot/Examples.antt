-- ===== src/Boot/Examples.antt =====
-- A machine with one available area from 1 MiB to 2 MiB, one section of two pages at its beginning,
-- and a module of one page behind a free page. The boot information stands at address 8.
use opsys.Base.{ℕ, zero, suc, ◌*◌, ◌≡◌, refl, ◌⊎◌, arith, some, List, [], ◌∷◌, ◌++◌, get_or}
use opsys.Boot.{
  FrameRange, Module, mod_range, map_list, find_unused_area, available_ranges, section_ranges,
  modules, search_areas, move_behind, first_mmap_entry_of_type, first_mmap_entry, visited,
  next_mmap_entry_of_type, next_mmap_entry, mmap_range, frames_of, first_elf32_shdr_in_memory,
  first_elf32_shdr, next_elf32_shdr_in_memory, next_elf32_shdr, shdr_range, next_mod_list,
  first_mod_list, read_modules, overlaps_with, is_within,
}
use opsys.Boot.Area.{find_unused_area_lem, Found, AllLow, Ordered}
use opsys.Boot.Claims.{claim_kernel_frames}
use opsys.Boot.Counts.{Claimed, claim_kernel_frames-Claimed}
use opsys.Libc.{Mem}
use opsys.Page.{pageframe_span}
use opsys.Pmem.{Pmem}
use opsys.Pmem.Refs.{IsBytes}
use opsys.Ram.{load8, load16, load32}

abbrev boot : List ℕ
boot =
    0 ∷ 0 ∷ 0 ∷ 0 ∷ 0 ∷ 0 ∷ 0 ∷ 0 ∷ 104 ∷ 0 ∷ 0 ∷ 0 ∷ 0 ∷ 0 ∷ 0 ∷ 0 ∷ 0 ∷ 0 ∷ 0 ∷ 0 ∷ 0 ∷ 0 ∷ 0 ∷ 0
    ∷ 0 ∷ 0 ∷ 0 ∷ 0 ∷ 1 ∷ 0 ∷ 0 ∷ 0 ∷ 232 ∷ 0 ∷ 0 ∷ 0 ∷ 2 ∷ 0 ∷ 0 ∷ 0 ∷ 40 ∷ 0 ∷ 0 ∷ 0 ∷ 152 ∷ 0 ∷ 0
    ∷ 0 ∷ 0 ∷ 0 ∷ 0 ∷ 0 ∷ 24 ∷ 0 ∷ 0 ∷ 0 ∷ 128 ∷ 0 ∷ 0 ∷ 0 ∷ 0 ∷ 0 ∷ 0 ∷ 0 ∷ 0 ∷ 0 ∷ 0 ∷ 0 ∷ 0 ∷ 0
    ∷ 0 ∷ 0 ∷ 0 ∷ 0 ∷ 0 ∷ 0 ∷ 0 ∷ 0 ∷ 0 ∷ 0 ∷ 0 ∷ 0 ∷ 0 ∷ 0 ∷ 0 ∷ 0 ∷ 0 ∷ 0 ∷ 0 ∷ 0 ∷ 0 ∷ 0 ∷ 0 ∷ 0
    ∷ 0 ∷ 0 ∷ 0 ∷ 0 ∷ 0 ∷ 0 ∷ 0 ∷ 0 ∷ 0 ∷ 0 ∷ 0 ∷ 0 ∷ 0 ∷ 0 ∷ 0 ∷ 0 ∷ 0 ∷ 0 ∷ 0 ∷ 0 ∷ 0 ∷ 0 ∷ 0 ∷ 0
    ∷ 0 ∷ 0 ∷ 0 ∷ 0 ∷ 0 ∷ 0 ∷ 0 ∷ 0 ∷ 0 ∷ 0 ∷ 20 ∷ 0 ∷ 0 ∷ 0 ∷ 0 ∷ 0 ∷ 16 ∷ 0 ∷ 0 ∷ 0 ∷ 0 ∷ 0 ∷ 0
    ∷ 0 ∷ 16 ∷ 0 ∷ 0 ∷ 0 ∷ 0 ∷ 0 ∷ 1 ∷ 0 ∷ 0 ∷ 0 ∷ 0 ∷ 0 ∷ 0 ∷ 0 ∷ 0 ∷ 0 ∷ 0 ∷ 0 ∷ 0 ∷ 0 ∷ 0 ∷ 0 ∷ 0
    ∷ 0 ∷ 0 ∷ 0 ∷ 0 ∷ 0 ∷ 0 ∷ 0 ∷ 0 ∷ 0 ∷ 0 ∷ 0 ∷ 0 ∷ 0 ∷ 0 ∷ 0 ∷ 0 ∷ 0 ∷ 0 ∷ 0 ∷ 0 ∷ 0 ∷ 0 ∷ 0 ∷ 0
    ∷ 0 ∷ 0 ∷ 0 ∷ 0 ∷ 0 ∷ 0 ∷ 0 ∷ 1 ∷ 0 ∷ 0 ∷ 0 ∷ 0 ∷ 0 ∷ 0 ∷ 0 ∷ 0 ∷ 0 ∷ 16 ∷ 0 ∷ 0 ∷ 0 ∷ 0 ∷ 0 ∷ 0
    ∷ 32 ∷ 0 ∷ 0 ∷ 0 ∷ 0 ∷ 0 ∷ 0 ∷ 0 ∷ 0 ∷ 0 ∷ 0 ∷ 0 ∷ 0 ∷ 0 ∷ 0 ∷ 0 ∷ 0 ∷ 0 ∷ 0 ∷ 0 ∷ 48 ∷ 16 ∷ 0
    ∷ 255 ∷ 63 ∷ 16 ∷ 0 ∷ 0 ∷ 0 ∷ 0 ∷ 0 ∷ 0 ∷ 0 ∷ 0 ∷ 0 ∷ []

abbrev mem : Mem
mem a = get_or boot a 0

abbrev areas : List FrameRange
areas = record { pfindex = 256; nframes = 256 } ∷ []

abbrev sections : List FrameRange
sections = record { pfindex = 256; nframes = 2 } ∷ []

abbrev mods : List Module
mods = record { mod_start = 0x103000; mod_end = 0x103fff; cmdline = 0; cmdlen = 0 } ∷ []

areas_read : available_ranges mem 3 8 ≡ some areas
unfolding available_ranges first_mmap_entry_of_type first_mmap_entry load32 load16 load8 visited
    next_mmap_entry_of_type next_mmap_entry map_list mmap_range frames_of pageframe_span
areas_read = refl

sections_read : section_ranges mem 3 8 ≡ some sections
unfolding section_ranges first_elf32_shdr_in_memory first_elf32_shdr load32 load16 load8
    next_elf32_shdr_in_memory next_elf32_shdr visited map_list shdr_range frames_of pageframe_span
sections_read = refl

mods_read : modules mem 3 8 ≡ some mods
unfolding modules visited next_mod_list first_mod_list read_modules load32 load16 load8
mods_read = refl

low : AllLow areas
unfolding AllLow
low = (omega arith, tt)

ordered : Ordered 0 (sections ++ map_list mod_range mods)
unfolding Ordered map_list mod_range frames_of pageframe_span
ordered = (omega arith, omega arith, (omega arith, omega arith, tt))

find_unused_area_example :
    (address : ℕ) × (find_unused_area mem 3 8 4 ≡ some address)
    × ((address ≡ 0) ⊎ Found 4 (sections ++ map_list mod_range mods) areas address)
find_unused_area_example =
    find_unused_area_lem mem 3 8 4 areas sections mods areas_read sections_read mods_read
      (omega arith) low ordered

-- Two sections that share the frame 2.
abbrev map : List ℕ
map = 0x40 ∷ 0x40 ∷ 0x40 ∷ 0x40 ∷ []

map-IsBytes : IsBytes map
map-IsBytes zero h = omega arith
map-IsBytes (suc zero) h = omega arith
map-IsBytes (suc (suc zero)) h = omega arith
map-IsBytes (suc (suc (suc zero))) h = omega arith
map-IsBytes (suc (suc (suc (suc i)))) h = absurd (omega arith)

abbrev sharing : List FrameRange
sharing = record { pfindex = 1; nframes = 2 } ∷ record { pfindex = 2; nframes = 2 } ∷ []

claim_kernel_frames-Claimed_example :
    let p : Pmem = record { slots = 1; map = map } in
    Claimed p sharing (claim_kernel_frames sharing p)
claim_kernel_frames-Claimed_example =
    claim_kernel_frames-Claimed sharing (record { slots = 1; map = map }) map-IsBytes (omega arith)

-- Ranges that are not in ascending order: the second one moves the candidate into the first.
overlapping :
    search_areas 2
      (record { pfindex = 3; nframes = 2 } ∷ record { pfindex = 1; nframes = 2 } ∷ [])
      []
      (record { pfindex = 1; nframes = 9 } ∷ [])
    ≡ 3 * 4096
unfolding search_areas move_behind overlaps_with is_within
overlapping = refl
