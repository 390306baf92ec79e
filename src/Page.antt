-- ===== src/Page.antt =====
-- Pages, page frames, page tables and their entries: src/kernel/bin/arch/i386/page.h,
-- pageframe.h, pagetbl.h, pte.c, pte.h, pde.c, pde.h and src/kernel/bin/minmax.h.
-- Addresses and sizes have 32 bits. Indices are not negative.
pub mod Spans
pub mod Entries
mod Examples
use opsys.Base.{
  ℕ, ◌+◌, ◌-◌, ◌*◌, ◌/◌, ◌%◌, ◌^◌, Bool, not, ◌==◌, ltb, if◌then◌else◌, bit_and, bit_or,
}

-- `addr >> shift` and `index << shift`.
abbrev pub page_index : ℕ → ℕ
page_index addr = addr / 2 ^ 12

abbrev pub page_offset : ℕ → ℕ
page_offset pgindex = pgindex * 2 ^ 12 % 2 ^ 32

abbrev pub page_address : ℕ → ℕ
page_address pgindex = page_offset pgindex

-- `1 + index(addr + bytes - 1) - index(addr)`, by the index that is meant.
abbrev pub span : (ℕ → ℕ) → ℕ → ℕ → ℕ
span index addr bytes =
    if bytes == 0
    then 0
    else (1 + index ((addr + bytes - 1) % 2 ^ 32) + 2 ^ 32 - index addr) % 2 ^ 32

unfoldable pub page_count : ℕ → ℕ → ℕ
page_count addr bytes = span page_index addr bytes

abbrev pub page_memory : ℕ → ℕ
page_memory npages = npages * 2 ^ 12 % 2 ^ 32

-- The mask ~PAGE_MASK is 0xfffff000.
unfoldable pub page_floor : ℕ → ℕ
page_floor addr = bit_and addr (2 ^ 32 - 2 ^ 12)

unfoldable pub page_ceil : ℕ → ℕ
page_ceil addr = (addr / 2 ^ 12 + 1) * 2 ^ 12 % 2 ^ 32

abbrev pub pageframe_index : ℕ → ℕ
pageframe_index addr = addr / 2 ^ 12

abbrev pub pageframe_offset : ℕ → ℕ
pageframe_offset index = index * 2 ^ 12 % 2 ^ 32

abbrev pub pageframe_address : ℕ → ℕ
pageframe_address index = pageframe_offset index

unfoldable pub pageframe_count : ℕ → ℕ
pageframe_count bytes = (bytes + 2 ^ 12 - 1) % 2 ^ 32 / 2 ^ 12

unfoldable pub pageframe_span : ℕ → ℕ → ℕ
pageframe_span addr bytes = span pageframe_index addr bytes

abbrev pub pageframe_memory : ℕ → ℕ
pageframe_memory nframes = nframes * 2 ^ 12 % 2 ^ 32

unfoldable pub pageframe_floor : ℕ → ℕ
pageframe_floor addr = bit_and addr (2 ^ 32 - 2 ^ 12)

unfoldable pub pageframe_ceil : ℕ → ℕ
pageframe_ceil addr = (addr / 2 ^ 12 + 1) * 2 ^ 12 % 2 ^ 32

abbrev pub pagetable_index : ℕ → ℕ
pagetable_index addr = addr / 2 ^ 22

abbrev pub pagetable_offset : ℕ → ℕ
pagetable_offset index = index * 2 ^ 22 % 2 ^ 32

abbrev pub pagetable_address : ℕ → ℕ
pagetable_address ptindex = pagetable_offset ptindex

unfoldable pub pagetable_count : ℕ → ℕ → ℕ
pagetable_count addr bytes = span pagetable_index addr bytes

-- The mask ~PAGETABLE_MASK is 0xffc00000.
unfoldable pub pagetable_floor : ℕ → ℕ
pagetable_floor addr = bit_and addr (2 ^ 32 - 2 ^ 22)

unfoldable pub pagetable_ceil : ℕ → ℕ
pagetable_ceil addr = (addr / 2 ^ 22 + 1) * 2 ^ 22 % 2 ^ 32

unfoldable pub pagetable_page_index : ℕ → ℕ
pagetable_page_index pgindex = bit_and pgindex 0x3ff

-- PRESENT, WRITEABLE, and both.
abbrev pub pte_flag_present : ℕ
pte_flag_present = 1

abbrev pub pte_flag_writeable : ℕ
pte_flag_writeable = 2

abbrev pub present_writeable : ℕ
present_writeable = 3

-- PRESENT, WRITEABLE and USERMODE.
abbrev pub pte_all_flags : ℕ
pte_all_flags = 7

unfoldable pub pte_create : ℕ → ℕ → ℕ
pte_create pfindex flags = bit_or (pfindex * 2 ^ 12 % 2 ^ 32) (bit_and flags pte_all_flags)

unfoldable pub pte_get_pageframe_index : ℕ → ℕ
pte_get_pageframe_index pte = pte / 2 ^ 12

unfoldable pub pte_is_present : ℕ → Bool
pte_is_present pte = not (bit_and pte pte_flag_present == 0)

-- PRESENT, WRITEABLE, USERMODE, WRTHROUGH, CACHED and LARGEPAGE.
abbrev pub pde_all_flags : ℕ
pde_all_flags = 1 + 2 + 4 + 8 + 16 + 128

unfoldable pub pde_create : ℕ → ℕ → ℕ
pde_create pfindex flags = bit_or (pfindex * 2 ^ 12 % 2 ^ 32) (bit_and flags pde_all_flags)

unfoldable pub pde_get_pageframe_index : ℕ → ℕ
pde_get_pageframe_index pde = pde / 2 ^ 12

abbrev pub minul : ℕ → ℕ → ℕ
minul lhs rhs = if ltb lhs rhs then lhs else rhs
