-- ===== src/Boot.antt =====
-- What the boot loader tells, and where the map of the page frames goes: the first half of
-- src/kernel/bin/arch/i386/multiboot.c. The structures are read from opsys.Libc's memory of bytes
-- at the offsets of the Multiboot format; an address is a number, and 0 is NULL. Nothing that runs
-- here writes to these structures, so that a loop over entries is a loop over the list of them.
pub mod Claims
pub mod Maps
pub mod Area
pub mod Counts
mod Examples
use opsys.Base.{
  ℕ, zero, suc, ◌+◌, ◌-◌, ◌*◌, ◌/◌, ◌%◌, ◌^◌, Bool, true, false, not, ◌&&◌, ◌||◌, Option, none,
  some, ◌==◌, ltb, leb, if◌then◌else◌, List, [], ◌∷◌, bit_and,
}
use opsys.Base.Partial.{◌>>=◌}
use opsys.Libc.{Mem, strlen}
use opsys.Page.{pageframe_index, pageframe_span, pageframe_count, pageframe_offset}
use opsys.Ram.{load32}

abbrev pub word_of : ℕ → ℕ
word_of x = x % 2 ^ 32

-- Fields of `struct multiboot_info`.
abbrev pub info_flags : Mem → ℕ → ℕ
info_flags mem info = load32 mem info

abbrev pub mods_count : Mem → ℕ → ℕ
mods_count mem info = load32 mem (info + 20)

abbrev pub mods_addr : Mem → ℕ → ℕ
mods_addr mem info = load32 mem (info + 24)

abbrev pub elf_sec_num : Mem → ℕ → ℕ
elf_sec_num mem info = load32 mem (info + 28)

abbrev pub elf_sec_addr : Mem → ℕ → ℕ
elf_sec_addr mem info = load32 mem (info + 36)

abbrev pub mmap_length : Mem → ℕ → ℕ
mmap_length mem info = load32 mem (info + 44)

abbrev pub mmap_addr : Mem → ℕ → ℕ
mmap_addr mem info = load32 mem (info + 48)

abbrev pub sizeof_info : ℕ
sizeof_info = 120

abbrev pub sizeof_mod : ℕ
sizeof_mod = 16

abbrev pub sizeof_shdr : ℕ
sizeof_shdr = 40

abbrev pub has_info : Mem → ℕ → ℕ → Bool
has_info mem info flag = not (bit_and (info_flags mem info) flag == 0)

module _ (mem : Mem) (info : ℕ) where
  unfoldable pub first_mmap_entry : ℕ
  first_mmap_entry = if has_info mem info 0x40 then mmap_addr mem info else 0

  unfoldable pub next_mmap_entry : ℕ → ℕ
  next_mmap_entry entry =
      let next = word_of (entry + 4 + load32 mem entry) in
      if leb (word_of (mmap_addr mem info + mmap_length mem info)) next then 0 else next

  -- The loop on fuel.
  unfoldable pub next_mmap_entry_of_type : ℕ → ℕ → ℕ → Option ℕ
  next_mmap_entry_of_type zero entry type = none
  next_mmap_entry_of_type (suc fuel) entry type =
      let next = next_mmap_entry entry in
      let rest = next_mmap_entry_of_type fuel next type in
      if not (next == 0) && not (load32 mem (next + 20) == type) then rest else some next

  -- Without a memory map the search goes on from NULL.
  unfoldable pub first_mmap_entry_of_type : ℕ → ℕ → Option ℕ
  first_mmap_entry_of_type fuel type =
      let entry = first_mmap_entry in
      if not (entry == 0) && load32 mem (entry + 20) == type
      then some entry
      else next_mmap_entry_of_type fuel entry type

  unfoldable pub first_elf32_shdr : ℕ
  first_elf32_shdr = if has_info mem info 0x20 then elf_sec_addr mem info else 0

  -- A pointer in front of the first header, as after NULL, has a negative index, which is above any
  -- number of headers.
  unfoldable pub next_elf32_shdr : ℕ → ℕ
  next_elf32_shdr shdr =
      let next = shdr + sizeof_shdr in
      let first = elf_sec_addr mem info in
      if ltb next first || leb (elf_sec_num mem info) ((next - first) / sizeof_shdr)
      then 0
      else next

  unfoldable pub next_elf32_shdr_in_memory : ℕ → ℕ → Option ℕ
  next_elf32_shdr_in_memory zero shdr = none
  next_elf32_shdr_in_memory (suc fuel) shdr =
      let next = next_elf32_shdr shdr in
      let rest = next_elf32_shdr_in_memory fuel next in
      if not (next == 0) && load32 mem (next + 12) == 0 then rest else some next

  unfoldable pub first_elf32_shdr_in_memory : ℕ → Option ℕ
  first_elf32_shdr_in_memory fuel =
      let shdr = first_elf32_shdr in
      if not (shdr == 0) && not (load32 mem (shdr + 12) == 0)
      then some shdr
      else next_elf32_shdr_in_memory fuel shdr

  -- The flags are compared as a whole.
  unfoldable pub first_mod_list : ℕ
  first_mod_list =
      if info_flags mem info == 0x08 || mods_count mem info == 0 then 0 else mods_addr mem info

  unfoldable pub next_mod_list : ℕ → ℕ
  next_mod_list entry =
      let next = entry + sizeof_mod in
      let first = mods_addr mem info in
      if ltb next first || leb (mods_count mem info) ((next - first) / sizeof_mod) then 0 else next

-- The entries that a loop from `x` on visits.
unfoldable pub visited : (ℕ → Option ℕ) → ℕ → ℕ → Option (List ℕ)
visited next zero x = none
visited next (suc fuel) x =
    let rest = next x >>= visited next fuel in
    if x == 0 then some [] else (rest >>= λ xs. some (x ∷ xs))

-- A range of page frames.
pub record FrameRange : Type 0 where
  pub pfindex : ℕ
  pub nframes : ℕ

-- `mod->mod_start` with the size of the module, and the command line with its length.
pub record Module : Type 0 where
  pub mod_start : ℕ
  pub mod_end : ℕ
  pub cmdline : ℕ
  pub cmdlen : ℕ

unfoldable pub frames_of : ℕ → ℕ → FrameRange
frames_of addr bytes = record {
  pfindex = pageframe_index addr;
  nframes = pageframe_span addr bytes;
}

-- `pageframe_index` and `pageframe_span` of an entry, whose address and length are cut to 32 bits,
-- and of a section and a module.
unfoldable pub mmap_range : Mem → ℕ → FrameRange
mmap_range mem entry = frames_of (load32 mem (entry + 4)) (load32 mem (entry + 12))

unfoldable pub shdr_range : Mem → ℕ → FrameRange
shdr_range mem shdr = frames_of (load32 mem (shdr + 12)) (load32 mem (shdr + 20))

unfoldable pub mod_range : Module → FrameRange
mod_range m = frames_of m.mod_start (word_of (m.mod_end + 2 ^ 32 - m.mod_start + 1))

unfoldable pub map_list : {A B : Type 0} → (A → B) → List A → List B
map_list f [] = []
map_list f (x ∷ xs) = f x ∷ map_list f xs

module _ (mem : Mem) (fuel info : ℕ) where
  unfoldable pub available_ranges : Option (List FrameRange)
  available_ranges =
      first_mmap_entry_of_type mem info fuel 1
      >>= visited (λ entry. next_mmap_entry_of_type mem info fuel entry 1) fuel
      >>= λ entries. some (map_list (mmap_range mem) entries)

  unfoldable pub section_ranges : Option (List FrameRange)
  section_ranges =
      first_elf32_shdr_in_memory mem info fuel
      >>= visited (next_elf32_shdr_in_memory mem info fuel) fuel
      >>= λ shdrs. some (map_list (shdr_range mem) shdrs)

  -- The modules with the lengths of their command lines.
  unfoldable pub read_modules : List ℕ → Option (List Module)
  read_modules [] = some []
  read_modules (entry ∷ entries) =
      let cmdline = load32 mem (entry + 8) in
      let rest = read_modules entries in
      (if cmdline == 0 then some 0 else strlen mem fuel cmdline) >>= λ cmdlen. rest >>= λ ms. some (
        record {
          mod_start = load32 mem entry;
          mod_end = load32 mem (entry + 4);
          cmdline = cmdline;
          cmdlen = cmdlen;
        }
        ∷ ms)

  unfoldable pub modules : Option (List Module)
  modules =
      visited (λ entry. some (next_mod_list mem info entry)) fuel (first_mod_list mem info)
      >>= read_modules

-- On `unsigned long`.
unfoldable pub overlaps_with : ℕ → ℕ → ℕ → ℕ → Bool
overlaps_with beg1 len1 beg2 len2 =
    not (leb (word_of (beg1 + len1)) beg2 || leb (word_of (beg2 + len2)) beg1)

unfoldable pub is_within : ℕ → ℕ → ℕ → ℕ → Bool
is_within inner_beg inner_len outer_beg outer_len =
    leb outer_beg inner_beg
    && leb (word_of (inner_beg + inner_len)) (word_of (outer_beg + outer_len))

-- The loops over sections and modules, which move the candidate behind what it overlaps with.
unfoldable pub move_behind : ℕ → List FrameRange → ℕ → ℕ
move_behind nframes [] pfindex = pfindex
move_behind nframes (r ∷ rs) pfindex =
    move_behind nframes rs
      (if overlaps_with pfindex nframes r.pfindex r.nframes then r.pfindex + r.nframes else pfindex)

-- The loop of `find_unused_area` over the memory map; the address of the area, or 0.
unfoldable pub search_areas : ℕ → List FrameRange → List FrameRange → List FrameRange → ℕ
search_areas nframes sections mods [] = 0
search_areas nframes sections mods (area ∷ areas) =
    let rest = search_areas nframes sections mods areas in
    let pfindex = move_behind nframes mods (move_behind nframes sections area.pfindex) in
    if area.pfindex == 0 || ltb area.nframes nframes
    then rest
    else (if is_within pfindex nframes area.pfindex area.nframes
        then pageframe_offset pfindex
        else rest)

unfoldable pub find_unused_area : Mem → ℕ → ℕ → ℕ → Option ℕ
find_unused_area mem fuel info nframes = available_ranges mem fuel info >>= λ areas.
    section_ranges mem fuel info >>= λ sections. modules mem fuel info >>= λ mods.
    some (search_areas nframes sections (map_list mod_range mods) areas)

-- The highest end of the areas, from `nframes` on.
unfoldable pub highest_end : List FrameRange → ℕ → ℕ
highest_end [] nframes = nframes
highest_end (area ∷ areas) nframes =
    let end = area.pfindex + area.nframes in
    highest_end areas (if ltb nframes end then end else nframes)

unfoldable pub available_frames : Mem → ℕ → ℕ → Option ℕ
available_frames mem fuel info =
    available_ranges mem fuel info >>= λ areas. some (highest_end areas 0)

-- An entry of the map of the page frames has one byte.
unfoldable pub alloc_memmap : Mem → ℕ → ℕ → ℕ → Option ℕ
alloc_memmap mem fuel info pfcount = find_unused_area mem fuel info (pageframe_count (pfcount * 1))
