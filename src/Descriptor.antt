-- ===== src/Descriptor.antt =====
-- Segment descriptors and interrupt gates: src/kernel/bin/arch/i386/gdt.c, idt.c, idtentry.c and
-- idtentry.h. The instructions that load the tables are left out.
pub mod Layout
mod Examples
use opsys.Base.{
  ℕ, zero, suc, ◌+◌, ◌*◌, ◌/◌, ◌%◌, ◌^◌, ◌==◌, if◌then◌else◌, List, [], ◌∷◌, bit_and, bit_or,
}

-- The stores to fields of 8 and 16 bits.
abbrev pub byte_of : ℕ → ℕ
byte_of x = x % 2 ^ 8

abbrev pub half_of : ℕ → ℕ
half_of x = x % 2 ^ 16

pub record GdtEntry : Type 0 where
  pub limit_low : ℕ
  pub base_low : ℕ
  pub base_mid : ℕ
  pub flags : ℕ
  pub limit_high : ℕ
  pub base_high : ℕ

abbrev pub flag_lowgran : ℕ
flag_lowgran = 0x80

abbrev pub flag_32bitseg : ℕ
flag_32bitseg = 0x40

unfoldable pub gdt_entry_init : (base limit flags : ℕ) → GdtEntry
gdt_entry_init base limit flags = record {
  limit_low = half_of (bit_and limit 0xffff);
  base_low = half_of (bit_and base 0xffff);
  base_mid = byte_of (bit_and (base / 2 ^ 16) 0xff);
  flags = byte_of flags;
  limit_high = byte_of (bit_or (bit_or (bit_and (limit / 2 ^ 16) 0x0f) flag_lowgran) flag_32bitseg);
  base_high = byte_of (bit_and (base / 2 ^ 24) 0xff);
}

-- SEGINMEM, CODEDATA, CODESEG or DATASEG, and RDWRRDEX.
abbrev pub flags_code : ℕ
flags_code = bit_or (bit_or (bit_or 0x80 0x10) 0x08) 0x02

abbrev pub flags_data : ℕ
flags_data = bit_or (bit_or (bit_or 0x80 0x10) 0x00) 0x02

unfoldable pub gdt_init : List GdtEntry
gdt_init =
    gdt_entry_init 0 0 0
    ∷ gdt_entry_init 0x00000000 0x00ffffff flags_code
    ∷ gdt_entry_init 0x00000000 0x00ffffff flags_data
    ∷ []

pub record IdtEntry : Type 0 where
  pub base_low : ℕ
  pub tss : ℕ
  pub reserved : ℕ
  pub flags : ℕ
  pub base_high : ℕ

unfoldable pub idt_entry_init : (func tss ring flags : ℕ) → IdtEntry
idt_entry_init func tss ring flags = record {
  base_low = half_of (bit_and func 0xffff);
  tss = half_of tss;
  reserved = 0;
  flags = byte_of (bit_or flags (bit_and ring 0x03 * 2 ^ 7));
  base_high = half_of (bit_and (func / 2 ^ 16) 0xffff);
}

-- The entry points of idt.S.
pub data EntryPoint : Type 0 where
  ignore_interupt debug invalid_opcode segmentation_fault page_fault syscall : EntryPoint
  irq : (irqno : ℕ) → EntryPoint

-- SEGINMEM, 32BITINT and INTGATE.
abbrev pub flags_intgate : ℕ
flags_intgate = bit_or (bit_or 0x80 0x08) 0x06

abbrev pub Table : Type 0
Table = ℕ → IdtEntry

-- `IDT_ENTRY_INIT`, with the addresses of the entry points.
abbrev pub idt_entry : (EntryPoint → ℕ) → ℕ → EntryPoint → Table → Table
idt_entry address index point idt i =
    if i == index then idt_entry_init (address point) 0x08 0 flags_intgate else idt i

unfoldable pub ignore_all : (EntryPoint → ℕ) → ℕ → Table → Table
ignore_all address zero idt = idt
ignore_all address (suc n) idt = idt_entry address n ignore_interupt (ignore_all address n idt)

-- The entries of the first `n` hardware interrupts.
unfoldable pub hardware : (EntryPoint → ℕ) → ℕ → Table → Table
hardware address zero idt = idt
hardware address (suc n) idt = idt_entry address (0x20 + n) (irq n) (hardware address n idt)

unfoldable pub init_idt : (EntryPoint → ℕ) → Table → Table
init_idt address idt0 =
    let idt1 = idt_entry address 0x01 debug (ignore_all address 256 idt0) in
    let idt2 = idt_entry address 0x06 invalid_opcode idt1 in
    let idt3 = idt_entry address 0x0d segmentation_fault idt2 in
    let idt4 = idt_entry address 0x0e page_fault idt3 in
    idt_entry address 0x80 syscall (hardware address 16 idt4)
