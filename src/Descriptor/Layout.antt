-- ===== src/Descriptor/Layout.antt =====
-- What the processor reads from the entries.
use opsys.Base.{
  ℕ, ◌+◌, ◌*◌, ◌/◌, ◌%◌, ◌^◌, ◌<◌, ◌≡◌, refl, arith, ◌==◌, ==→eq, Bool, true, bit_and, bit_or,
  bit_and_255, bit_and_15, bit_and_3, bit_and_ones, all_below, all_below_sound,
}
use opsys.Descriptor.{GdtEntry, IdtEntry, gdt_entry_init, idt_entry_init, byte_of}

-- The base, the limit and the flags of a descriptor, as the i386 puts them together.
abbrev pub base_of : GdtEntry → ℕ
base_of e = e.base_low + 2 ^ 16 * e.base_mid + 2 ^ 24 * e.base_high

abbrev pub limit_of : GdtEntry → ℕ
limit_of e = e.limit_low + 2 ^ 16 * (e.limit_high % 16)

high_nibble : (x : ℕ) → x < 16 → bit_or (bit_or x 0x80) 0x40 ≡ x + 0xc0
unfolding all_below
high_nibble x h =
    ==→eq _ _ (all_below_sound 16 (λ b. bit_or (bit_or b 0x80) 0x40 == b + 0xc0) x refl h)

-- A descriptor made by `gdt_entry_init` gives back the base of 32 bits, the low 20 bits of the
-- limit and the flags; its limit counts pages, and its segment is one of 32 bits.
pub gdt_entry_init_lem :
    (base limit flags : ℕ)
    → base < 2 ^ 32
    → flags < 2 ^ 8
    → let e = gdt_entry_init base limit flags in
      (base_of e ≡ base)
      × (limit_of e ≡ limit % 2 ^ 20)
      × (e.flags ≡ flags)
      × (e.limit_high / 16 ≡ 0xc)
unfolding gdt_entry_init
gdt_entry_init_lem base limit flags fits small =
    let nibble = high_nibble (limit / 2 ^ 16 % 16) (omega arith) in
    let low = bit_and_15 (limit / 2 ^ 16) in
    (
      omega (arith, bit_and_ones 16 base, bit_and_255 (base / 2 ^ 16), bit_and_255 (base / 2 ^ 24)),
      rw low (omega (arith, bit_and_ones 16 limit, nibble)),
      omega arith,
      rw low (omega (arith, nibble)),
    )

-- The address of the entry point, and the privilege level of bits 5 and 6 of the flags.
abbrev pub offset_of : IdtEntry → ℕ
offset_of e = e.base_low + 2 ^ 16 * e.base_high

abbrev pub level_of : IdtEntry → ℕ
level_of e = e.flags / 2 ^ 5 % 4

level_kept : ℕ → ℕ → Bool
level_kept flags q = byte_of (bit_or flags (q * 2 ^ 7)) / 2 ^ 5 % 4 == flags / 2 ^ 5 % 4

level_table : (flags q : ℕ) → flags < 256 → q < 4 → level_kept flags q ≡ true
unfolding all_below level_kept
level_table flags q small few =
    let row = all_below_sound 256 (λ f. all_below 4 (level_kept f)) flags refl small in
    all_below_sound 4 (level_kept flags) q row few

-- A gate made by `idt_entry_init` gives back the address of 32 bits and the segment of 16 bits; its
-- privilege level is that of the flags alone, whatever the argument `ring` is.
pub idt_entry_init_lem :
    (func tss ring flags : ℕ)
    → func < 2 ^ 32
    → tss < 2 ^ 16
    → flags < 2 ^ 8
    → let e = idt_entry_init func tss ring flags in
      (offset_of e ≡ func) × (e.tss ≡ tss) × (level_of e ≡ flags / 2 ^ 5 % 4)
unfolding idt_entry_init level_kept
idt_entry_init_lem func tss ring flags fits segment small =
    let few : bit_and ring 0x03 < 4 = omega (arith, bit_and_3 ring) in
    (
      omega (arith, bit_and_ones 16 func, bit_and_ones 16 (func / 2 ^ 16)),
      omega arith,
      ==→eq _ _ (level_table flags (bit_and ring 0x03) small few),
    )
