-- ===== src/Vga/Examples.antt =====
-- A screen of 2 by 2 cells at address 16, on which three characters wrap around.
use opsys.Base.{ℕ, arith, List, [], ◌∷◌}
use opsys.Vga.{MultibootVga, Screen}
use opsys.Vga.Writes.{Usable}

abbrev vga : MultibootVga
vga = record { fb_w = 2; fb_h = 2; vmem = 16 }

abbrev usable : Usable vga
usable = record {
  some_cells = λ e. omega (arith, e);
  width = λ e. omega (arith, e);
  not_null = λ e. omega (arith, e);
}

abbrev screen : Screen
screen = record { ports = []; mem = λ a. 0 }

abbrev text : List ℕ
text = b'h' ∷ b'e' ∷ b'y' ∷ []
