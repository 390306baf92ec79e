-- ===== src/Console/Examples.antt =====
-- A screen of 2 by 2 cells at address 16, whose cursor registers always read 0.
use opsys.Base.{ℕ, ◌≡◌, refl, arith, true, false, List, [], ◌∷◌}
use opsys.Base.Partial.{Ends}
use opsys.Console.{num, console_printf, console_hextostr, exchange, hex_digits}
use opsys.Console.Format.{console_printf-Kept, accepts, has_num, has_str}
use opsys.Ports.{Device}
use opsys.Vga.{MultibootVga, Screen}
use opsys.Vga.Writes.{Usable, Kept}

abbrev vga : MultibootVga
vga = record { fb_w = 2; fb_h = 2; vmem = 16 }

abbrev usable : Usable vga
usable = record {
  some_cells = λ e. omega (arith, e);
  width = λ e. omega (arith, e);
  not_null = λ e. omega (arith, e);
}

abbrev device : Device
device h port = 0

abbrev screen : Screen
screen = record { ports = []; mem = λ a. 0 }

abbrev format : List ℕ
format = b'a' ∷ b'%' ∷ b'x' ∷ b'\n' ∷ []

accepted : accepts false format (num 10 ∷ []) ≡ true
unfolding accepts has_num has_str
accepted = refl

console_printf-Kept_example :
    Ends (Kept vga screen) (console_printf device vga format (num 10 ∷ []) screen)
console_printf-Kept_example =
    console_printf-Kept device vga usable format (num 10 ∷ []) screen accepted

ten : console_hextostr 0x2a ≡ b'0' ∷ b'x' ∷ b'2' ∷ b'a' ∷ []
unfolding console_hextostr exchange hex_digits
ten = refl
