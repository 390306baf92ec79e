-- ===== src/Pic.antt =====
-- The interrupt controllers: src/kernel/bin/drivers/i8259/pic.c. The mask register of a controller
-- is read and written through its data port.
pub mod Cascade
mod Examples
use opsys.Base.{
  ℕ, ◌+◌, ◌-◌, ◌*◌, ◌^◌, Bool, true, false, not, ◌&&◌, Option, ◌==◌, ltb, if◌then◌else◌, bit_and,
  bit_or,
}
use opsys.Irq.{Irq, Handler, init_irq_handling, handle_irq}
use opsys.Ports.{Device, History, char_of, io_outb, io_inb}

abbrev pub pic1_cmd : ℕ
pic1_cmd = 0x20

abbrev pub pic1_data : ℕ
pic1_data = 0x21

abbrev pub pic2_cmd : ℕ
pic2_cmd = 0xa0

abbrev pub pic2_data : ℕ
pic2_data = 0xa1

abbrev pub idt_irq_offset : ℕ
idt_irq_offset = 0x20

abbrev pub ioport_of : ℕ → ℕ
ioport_of irqno = if ltb 7 irqno then pic2_data else pic1_data

-- A shift by more than 31 is undefined in C; it gives 0 here, as the `uint8_t` does from 8 on.
abbrev pub bit_of : ℕ → ℕ
bit_of irqno = char_of (2 ^ (irqno - (if ltb 7 irqno then 8 else 0)))

-- `imr |= bit` and `imr &= ~bit` on a `uint8_t`.
abbrev pub with_bit : ℕ → ℕ → ℕ
with_bit imr bit = bit_or imr bit

abbrev pub without_bit : ℕ → ℕ → ℕ
without_bit imr bit = bit_and imr (255 - bit)

-- The read, change and write of a mask register; the new mask is returned.
unfoldable pub update_imr : Device → (ℕ → ℕ → ℕ) → ℕ → History → ℕ × History
update_imr device change irqno h =
    let r = io_inb device (ioport_of irqno) h in
    let imr = change r.0 (bit_of irqno) in (imr, io_outb (ioport_of irqno) imr r.1)

-- The inner call is on line 2, so it makes no further one.
unfoldable pub mask_irq : Device → ℕ → History → History
mask_irq device irqno h =
    let r = update_imr device with_bit irqno h in
    if ltb 7 irqno && r.0 == 0 then (update_imr device with_bit 2 r.1).1 else r.1

unfoldable pub unmask_irq : Device → ℕ → History → History
unmask_irq device irqno h =
    let r = update_imr device without_bit irqno h in
    if ltb 7 irqno && not (r.0 == 0) then (update_imr device without_bit 2 r.1).1 else r.1

-- `enable_irq` always returns 0.
abbrev pub enable_irq : Device → ℕ → History → ℕ × History
enable_irq device irqno h = (0, unmask_irq device irqno h)

abbrev pub disable_irq : Device → ℕ → History → History
disable_irq device irqno h = mask_irq device irqno h

-- `enable` and `disable` are the addresses of the two functions above.
unfoldable pub pic_install : (enable disable : ℕ) → Irq → History → Irq × History
pic_install enable disable s h0 =
    let h1 = io_outb pic2_cmd 0x11 (io_outb pic1_cmd 0x11 h0) in
    let h2 = io_outb pic2_data (idt_irq_offset + 8) (io_outb pic1_data idt_irq_offset h1) in
    let h3 = io_outb pic2_data 0x02 (io_outb pic1_data 0x04 h2) in
    let h4 = io_outb pic1_data 0x01 (io_outb pic1_data 0x01 h3) in
    (init_irq_handling enable disable s, h4)

abbrev pub pic_handle_irq : Handler → ℕ → ℕ → Irq → Option Irq
pic_handle_irq call fuel irqno s = handle_irq call fuel irqno s

unfoldable pub pic_eoi : ℕ → History → History
pic_eoi irqno h =
    if ltb 15 irqno
    then h
    else io_outb pic1_cmd 0x20 (if ltb 7 irqno then io_outb pic2_cmd 0x20 h else h)
