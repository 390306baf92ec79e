-- ===== src/Ports.antt =====
-- Port input and output: src/kernel/bin/arch/i386/ioports.c. The instructions `in` and `out` reach
-- devices outside the program: the byte that `in` reads is a function of everything that was read
-- and written before, which is a parameter of every definition that reads.
use opsys.Base.{ℕ, ◌%◌, ◌^◌, List, ◌∷◌}

-- One instruction, with its port and byte.
pub data PortEvent : Type 0 where
  out : (port byte : ℕ) → PortEvent
  inp : (port byte : ℕ) → PortEvent

-- The instructions so far, the last one first.
abbrev pub History : Type 0
History = List PortEvent

abbrev pub Device : Type 0
Device = History → ℕ → ℕ

-- `unsigned short` and `unsigned char` parameters.
abbrev pub short_of : ℕ → ℕ
short_of x = x % 2 ^ 16

abbrev pub char_of : ℕ → ℕ
char_of x = x % 2 ^ 8

abbrev pub io_outb : ℕ → ℕ → History → History
io_outb port byte h = out (short_of port) (char_of byte) ∷ h

abbrev pub io_outb_index : ℕ → ℕ → ℕ → ℕ → History → History
io_outb_index iport index dport byte h = io_outb dport byte (io_outb iport index h)

abbrev pub io_inb : Device → ℕ → History → ℕ × History
io_inb device port h =
    let byte = char_of (device h (short_of port)) in (byte, inp (short_of port) byte ∷ h)

abbrev pub io_inb_index : Device → ℕ → ℕ → ℕ → History → ℕ × History
io_inb_index device iport index dport h = io_inb device dport (io_outb iport index h)
