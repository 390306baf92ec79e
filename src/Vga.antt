-- ===== src/Vga.antt =====
-- The display: src/kernel/bin/drivers/multiboot_vga/multiboot_vga.c and multiboot_vga.h, and
-- src/kernel/bin/drivers/crt/crt.h, whose functions call the driver's through a table. The cursor is
-- in two registers of the device; the characters are in opsys.Libc's memory of bytes. A division
-- by zero is `none`. Offsets and the number of cells are small enough not to wrap around.
pub mod Writes
mod Examples
use opsys.Base.{
  ℕ, zero, suc, ◌+◌, ◌-◌, ◌*◌, ◌/◌, ◌%◌, ◌^◌, Option, none, some, ◌==◌, if◌then◌else◌, List, [],
  ◌∷◌, bit_and, bit_or, Result, ok, err, efault,
}
use opsys.Base.Partial.{◌>>=◌}
use opsys.Libc.{Mem}
use opsys.LinkedList.{put}
use opsys.Ports.{Device, History, char_of, short_of, io_outb_index, io_inb_index}

-- `struct multiboot_vga_drv`: the size of the screen and the address of its memory.
pub record MultibootVga : Type 0 where
  pub fb_w : ℕ
  pub fb_h : ℕ
  pub vmem : ℕ

-- What the driver changes: the instructions to the device so far, and memory.
pub record Screen : Type 0 where
  pub ports : History
  pub mem : Mem

abbrev pub cells : MultibootVga → ℕ
cells vga = vga.fb_w * vga.fb_h

abbrev pub get_addr : MultibootVga → ℕ → ℕ
get_addr vga off = vga.vmem + 2 * off

abbrev pub get_fb_resolution : MultibootVga → ℕ × ℕ
get_fb_resolution vga = (vga.fb_h, vga.fb_w)

abbrev pub get_fb_offset : MultibootVga → ℕ → ℕ → ℕ
get_fb_offset vga r c = c + r * vga.fb_w

-- The offset modulo the number of cells, which must not be 0.
abbrev pub on_screen : MultibootVga → ℕ → Option ℕ
on_screen vga off = if cells vga == 0 then none else some (off % cells vga)

unfoldable pub set_cursor_offset : MultibootVga → ℕ → Screen → Option Screen
set_cursor_offset vga off s = on_screen vga off >>= λ o. some (record s {
  ports =
      io_outb_index 0x03d4 0x0f 0x03d5 (bit_and o 0xff)
        (io_outb_index 0x03d4 0x0e 0x03d5 (bit_and (o / 2 ^ 8) 0xff) s.ports);
})

unfoldable pub get_cursor_offset : Device → Screen → ℕ × Screen
get_cursor_offset device s =
    let high = io_inb_index device 0x03d4 0x0e 0x03d5 s.ports in
    let low = io_inb_index device 0x03d4 0x0f 0x03d5 high.1 in
    (short_of (bit_or (high.0 * 2 ^ 8) low.0), record s { ports = low.1 })

unfoldable pub put_lf : Device → MultibootVga → Screen → Option Screen
put_lf device vga s =
    let r = get_cursor_offset device s in set_cursor_offset vga (r.0 + vga.fb_w) r.1

unfoldable pub put_cr : Device → MultibootVga → Screen → Option Screen
put_cr device vga s =
    let r = get_cursor_offset device s in
    if vga.fb_w == 0 then none else set_cursor_offset vga (r.0 - r.0 % vga.fb_w) r.1

-- The result is 1, or -EFAULT if the address is NULL.
unfoldable pub put_char : MultibootVga → ℕ → ℕ → Screen → Option (Result ℕ × Screen)
put_char vga off c s = on_screen vga off >>= λ o.
    let a = get_addr vga o in
    if a == 0
    then some (err efault, s)
    else some (ok 1, record s { mem = put (put s.mem a (char_of c)) (a + 1) 0x07 })

abbrev pub if_put :
    (Screen → Option (Result ℕ × Screen)) → Result ℕ × Screen → Option (Result ℕ × Screen)
if_put rest (err e, s) = some (err e, s)
if_put rest (ok n, s) = rest s

-- `crt_drv_put_str` from `off` on, with `len` characters written: their number, or the error.
unfoldable pub put_str : MultibootVga → ℕ → List ℕ → ℕ → Screen → Option (Result ℕ × Screen)
put_str vga off [] len s = some (ok len, s)
put_str vga off (c ∷ buf) len s =
    put_char vga (off + len) c s >>= if_put (put_str vga off buf (len + 1))

abbrev pub crt_drv_put_str : MultibootVga → ℕ → List ℕ → Screen → Option (Result ℕ × Screen)
crt_drv_put_str vga off buf s = put_str vga off buf 0 s

unfoldable pub multiboot_vga_early_init : ℕ → ℕ → MultibootVga
multiboot_vga_early_init fb_w fb_h = record {
  fb_w = short_of fb_w;
  fb_h = short_of fb_h;
  vmem = 0xb8000;
}
