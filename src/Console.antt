-- ===== src/Console.antt =====
-- The console: src/kernel/bin/console.c, on the display of opsys.Vga. A string is the list of its
-- characters, without the terminator. A format that makes the loop step past its terminator, and an
-- argument that is missing or of the other type, are `none`.
pub mod Format
mod Examples
use opsys.Base.{
  ℕ, zero, suc, ◌+◌, ◌-◌, ◌/◌, ◌%◌, ◌^◌, Bool, true, false, Option, none, some, ◌==◌, ltb,
  if◌then◌else◌, List, [], ◌∷◌, ◌++◌, length, get_or, set,
}
use opsys.Base.Partial.{◌>>=◌}
use opsys.Ports.{Device}
use opsys.Vga.{
  MultibootVga, Screen, get_cursor_offset, set_cursor_offset, crt_drv_put_str, put_lf, put_cr,
}

-- `symbol[digit]`.
abbrev pub symbol : ℕ → ℕ
symbol digit = if ltb digit 10 then b'0' + digit else b'a' + (digit - 10)

-- The digits, the lowest first; 9 rounds are enough for 32 bits.
unfoldable pub hex_digits : ℕ → ℕ → List ℕ
hex_digits zero v = []
hex_digits (suc fuel) v =
    let rest = hex_digits fuel (v / 16) in if v == 0 then [] else symbol (v % 16) ∷ rest

-- The loop that exchanges the characters at `beg` and `end`.
unfoldable pub exchange : ℕ → ℕ → ℕ → List ℕ → List ℕ
exchange zero beg end str = str
exchange (suc fuel) beg end str =
    let tmp = get_or str beg 0 in
    let rest = exchange fuel (beg + 1) (end - 1) (set (set str beg (get_or str end 0)) end tmp) in
    if ltb beg end then rest else str

unfoldable pub console_hextostr : ℕ → List ℕ
console_hextostr v =
    let digits = (if v == 0 then b'0' ∷ [] else hex_digits 9 v) ++ b'x' ∷ b'0' ∷ [] in
    exchange (length digits) 0 (length digits - 1) digits

pub data Arg : Type 0 where
  str : List ℕ → Arg
  num : ℕ → Arg

module _ (device : Device) (vga : MultibootVga) where
  -- Characters at the cursor, which then moves behind them and `more` further.
  unfoldable pub put_at_cursor : ℕ → List ℕ → Screen → Option Screen
  put_at_cursor more buf s =
      let r = get_cursor_offset device s in
      crt_drv_put_str vga r.0 buf r.1 >>= λ t. set_cursor_offset vga (r.0 + (length buf + more)) t.1

  abbrev pub Rest : Type 0
  Rest = List ℕ → List Arg → Screen → Option Screen

  -- A character outside a directive: `pending` are the characters since `strbeg`, `percent` is what
  -- follows a `%`, and `go` what follows the character.
  unfoldable pub plain_char : Rest → Rest → ℕ → Rest
  plain_char percent go c pending args s =
      if c == b'%'
      then (put_at_cursor 0 pending s >>= percent [] args)
      else (if c == b'\n'
          then (put_at_cursor 0 pending s
              >>= put_lf device vga
              >>= put_cr device vga
              >>= go [] args)
          else (if c == b'\t'
              then (put_at_cursor 8 pending s >>= go [] args)
              else go (pending ++ c ∷ []) args s))

  unfoldable pub put_str_arg : Rest → List Arg → Screen → Option Screen
  put_str_arg go (str buf ∷ args) s = put_at_cursor 0 buf s >>= go [] args
  put_str_arg go _ s = none

  unfoldable pub put_num_arg : Rest → List Arg → Screen → Option Screen
  put_num_arg go (num v ∷ args) s = put_at_cursor 0 (console_hextostr v) s >>= go [] args
  put_num_arg go _ s = none

  -- The character behind a `%`; an unknown one is printed like any other.
  unfoldable pub directive : Rest → ℕ → Rest
  directive go c pending args s =
      if c == b's'
      then put_str_arg go args s
      else (if c == b'x' then put_num_arg go args s else go (c ∷ []) args s)

  -- The loop of `console_printf`, with the rest of the format; the flag says that a `%` was read.
  unfoldable pub printf_from : Bool → List ℕ → Rest
  printf_from false [] pending args s = put_at_cursor 0 pending s
  printf_from true [] pending args s = none
  printf_from false (c ∷ format) pending args s =
      plain_char (printf_from true format) (printf_from false format) c pending args s
  printf_from true (c ∷ format) pending args s =
      directive (printf_from false format) c pending args s

  unfoldable pub console_printf : List ℕ → List Arg → Screen → Option Screen
  console_printf format args s = printf_from false format [] args s
