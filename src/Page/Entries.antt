-- ===== src/Page/Entries.antt =====
-- Entries of page tables and page directories take apart into what they were made from.
use opsys.Base.{
  ℕ, ◌+◌, ◌*◌, ◌/◌, ◌%◌, ◌^◌, ◌<◌, ◌≡◌, ◌∙◌, not, ◌==◌, bit_and, bit_and_1, bit_and_7,
  bit_and_halve, bit_and_below, ap, sym, bit_and_ones, bit_or_shifted, arith,
}
use opsys.Page.{
  pte_create, pte_get_pageframe_index, pte_is_present, pde_create, pde_get_pageframe_index,
  pde_all_flags, pagetable_page_index,
}

shifted : (pf : ℕ) → pf * 2 ^ 12 % 2 ^ 32 ≡ pf % 2 ^ 20 * 2 ^ 12
shifted pf = omega arith

pub pte_create_lem : (pf flags : ℕ) → pte_create pf flags ≡ pf % 2 ^ 20 * 2 ^ 12 + flags % 8
unfolding pte_create
pte_create_lem pf flags =
    rw (shifted, bit_and_7) (bit_or_shifted 12 (pf % 2 ^ 20) (flags % 8) (omega arith))

pde_flags_lem : (x : ℕ) → (bit_and x pde_all_flags < 256) × (bit_and x pde_all_flags % 8 ≡ x % 8)
pde_flags_lem x = (
  bit_and_below 8 x 159 (omega arith),
  omega (arith, bit_and_halve x 159, bit_and_halve (x / 2) 79, bit_and_halve (x / 2 / 2) 39),
)

pub pte_is_present_lem : (pte : ℕ) → pte_is_present pte ≡ not (pte % 2 == 0)
unfolding pte_is_present
pte_is_present_lem pte = rw bit_and_1

pub pagetable_page_index_lem : (pg : ℕ) → pagetable_page_index pg ≡ pg % 1024
unfolding pagetable_page_index
pagetable_page_index_lem pg = bit_and_ones 10 pg

-- An entry made by `pte_create` gives back the 20 bits of the frame index that fit, is present
-- exactly if its flags say so, and has no flag but the three of PTE_ALL_FLAGS. An entry made by
-- `pde_create` gives back the frame index too.
pub entry_roundtrip :
    (pf flags : ℕ)
    → (pte_get_pageframe_index (pte_create pf flags) ≡ pf % 2 ^ 20)
      × (pte_is_present (pte_create pf flags) ≡ pte_is_present flags)
      × (pte_create pf flags % 2 ^ 12 ≡ flags % 8)
      × (pde_get_pageframe_index (pde_create pf flags) ≡ pf % 2 ^ 20)
      × (pde_create pf flags % 8 ≡ flags % 8)
unfolding pte_get_pageframe_index pde_get_pageframe_index pde_create
entry_roundtrip pf flags =
    let entry = pte_create_lem pf flags in
    let masked = pde_flags_lem flags in
    let pde =
      bit_or_shifted 12 (pf % 2 ^ 20) (bit_and flags pde_all_flags) (omega (arith, masked.0)) in
    (
      rw entry (omega arith),
      pte_is_present_lem (pte_create pf flags)
          ∙ ap (λ bit. not (bit == 0)) (omega (arith, entry))
          ∙ sym (pte_is_present_lem flags),
      rw entry (omega arith),
      rw (shifted, pde) (omega (arith, masked.0)),
      rw (shifted, pde) (omega (arith, masked)),
    )
