-- ===== src/Descriptor/Examples.antt =====
-- The code segment, and the gate of the system calls for ring 3.
use opsys.Base.{◌/◌, ◌≡◌, arith}
use opsys.Descriptor.{gdt_entry_init, idt_entry_init, flags_code, flags_intgate}
use opsys.Descriptor.Layout.{
  base_of, limit_of, offset_of, level_of, gdt_entry_init_lem, idt_entry_init_lem,
}

gdt_entry_init_example :
    let e = gdt_entry_init 0 0x00ffffff flags_code in
    (base_of e ≡ 0) × (limit_of e ≡ 0xfffff) × (e.flags ≡ flags_code) × (e.limit_high / 16 ≡ 0xc)
gdt_entry_init_example = gdt_entry_init_lem 0 0x00ffffff flags_code (omega arith) (omega arith)

idt_entry_init_example :
    let e = idt_entry_init 0x123456 0x08 3 flags_intgate in
    (offset_of e ≡ 0x123456) × (e.tss ≡ 0x08) × (level_of e ≡ 0)
idt_entry_init_example =
    idt_entry_init_lem 0x123456 0x08 3 flags_intgate (omega arith) (omega arith) (omega arith)
