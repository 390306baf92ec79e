-- ===== src/Console/Format.antt =====
-- Where formatted output goes, and which formats it can print.
use opsys.Base.{
  ℕ, ◌≡◌, ◌∙◌, Bool, true, false, Bool-cases, inl, inr, ◌==◌, if◌then◌else◌, List, [], ◌∷◌, ◌++◌,
  length, Option, ◌+◌,
}
use opsys.Base.Partial.{Ends, ends_bind, ends_map, ◌>>=◌}
use opsys.Console.{
  Arg, str, num, Rest, put_at_cursor, plain_char, put_str_arg, put_num_arg, directive, printf_from,
  console_printf, console_hextostr,
}
use opsys.Ports.{Device}
use opsys.Vga.{MultibootVga, Screen, get_cursor_offset}
use opsys.Vga.Writes.{
  Usable, Kept, set_cursor_offset-Kept, put_lf-Kept, put_cr-Kept, crt_drv_put_str_lem, Written-Kept,
}

-- Whether the arguments are those of the directives of a format, which does not end behind a `%`.
unfoldable pub has_str : (List Arg → Bool) → List Arg → Bool
has_str go (str buf ∷ args) = go args
has_str go _ = false

unfoldable pub has_num : (List Arg → Bool) → List Arg → Bool
has_num go (num v ∷ args) = go args
has_num go _ = false

unfoldable pub accepts : Bool → List ℕ → List Arg → Bool
accepts false [] args = true
accepts true [] args = false
accepts false (c ∷ format) args =
    let behind = accepts true format args in
    let next = accepts false format args in if c == b'%' then behind else next
accepts true (c ∷ format) args =
    let next = accepts false format args in
    let with_str = has_str (accepts false format) args in
    let with_num = has_num (accepts false format) args in
    if c == b's' then with_str else (if c == b'x' then with_num else next)

module _ (device : Device) (vga : MultibootVga) (usable : Usable vga) where
  -- A step that keeps everything outside the screen, and one after another.
  abbrev Keeps : Screen → Option Screen → Type 0
  Keeps s o = Ends (Kept vga s) o

  after :
      (s : Screen) {o : Option Screen} {next : Screen → Option Screen}
      → Keeps s o
      → ((t : Screen) → Keeps t (next t))
      → Keeps s (o >>= next)
  after s first each = ends_bind first λ t p. ends_map (each t) λ u q a out. q a out ∙ p a out

  put_at_cursor-Keeps :
      (more : ℕ) (buf : List ℕ) (s : Screen) → Keeps s (put_at_cursor device vga more buf s)
  unfolding put_at_cursor get_cursor_offset
  put_at_cursor-Keeps more buf s =
      let r = get_cursor_offset device s in
      ends_bind (crt_drv_put_str_lem vga usable r.0 buf r.1) λ t p.
        ends_map (set_cursor_offset-Kept vga usable (r.0 + (length buf + more)) t.1)
          λ u q a out. q a out ∙ Written-Kept vga usable r.0 0 buf r.1 t.1 p.1 a out

  -- The rest of the loop keeps everything outside, where it accepts its arguments.
  abbrev Continues : (List Arg → Bool) → Rest device vga → Type 0
  Continues ok go =
      (pending : List ℕ) (args : List Arg) (s : Screen)
      → ok args ≡ true
      → Keeps s (go pending args s)

  plain_char-Keeps :
      (ok_percent ok_go : List Arg → Bool) (percent go : Rest device vga) (c : ℕ) (pending : List ℕ)
      (args : List Arg) (s : Screen)
      → Continues ok_percent percent
      → Continues ok_go go
      → (if c == b'%' then ok_percent args else ok_go args) ≡ true
      → Keeps s (plain_char device vga percent go c pending args s)
  unfolding plain_char
  plain_char-Keeps ok_percent ok_go percent go c pending args s hp hg ok =
      elim (Bool-cases (c == b'%')) [
        | inl e ↦
            let fine = rw e at ok in
            rw e (after s (put_at_cursor-Keeps 0 pending s) λ t. hp [] args t fine)
        | inr e ↦
            let fine = rw e at ok in
            rw e (elim (Bool-cases (c == b'\n')) [
              | inl e' ↦ rw e' (
                  after s
                    (after s
                      (after s (put_at_cursor-Keeps 0 pending s) (put_lf-Kept vga usable device))
                      (put_cr-Kept vga usable device))
                    λ t. hg [] args t fine)
              | inr e' ↦ rw e' (elim (Bool-cases (c == b'\t')) [
                | inl e'' ↦
                    rw e'' (after s (put_at_cursor-Keeps 8 pending s) λ t. hg [] args t fine)
                | inr e'' ↦ rw e'' (hg (pending ++ c ∷ []) args s fine)
              ])
            ])
      ]

  str_arg-Keeps :
      (ok_go : List Arg → Bool) (go : Rest device vga) (args : List Arg) (s : Screen)
      → Continues ok_go go
      → has_str ok_go args ≡ true
      → Keeps s (put_str_arg device vga go args s)
  unfolding put_str_arg has_str
  str_arg-Keeps ok_go go [] s hg ok = absurd (cc ok)
  str_arg-Keeps ok_go go (str buf ∷ args) s hg ok =
      after s (put_at_cursor-Keeps 0 buf s) λ t. hg [] args t ok
  str_arg-Keeps ok_go go (num v ∷ args) s hg ok = absurd (cc ok)

  num_arg-Keeps :
      (ok_go : List Arg → Bool) (go : Rest device vga) (args : List Arg) (s : Screen)
      → Continues ok_go go
      → has_num ok_go args ≡ true
      → Keeps s (put_num_arg device vga go args s)
  unfolding put_num_arg has_num
  num_arg-Keeps ok_go go [] s hg ok = absurd (cc ok)
  num_arg-Keeps ok_go go (str buf ∷ args) s hg ok = absurd (cc ok)
  num_arg-Keeps ok_go go (num v ∷ args) s hg ok =
      after s (put_at_cursor-Keeps 0 (console_hextostr v) s) λ t. hg [] args t ok

  directive-Keeps :
      (ok_go : List Arg → Bool) (go : Rest device vga) (c : ℕ) (pending : List ℕ) (args : List Arg)
      (s : Screen)
      → Continues ok_go go
      → (if c == b's'
          then has_str ok_go args
          else (if c == b'x' then has_num ok_go args else ok_go args))
        ≡ true
      → Keeps s (directive device vga go c pending args s)
  unfolding directive
  directive-Keeps ok_go go c pending args s hg ok = elim (Bool-cases (c == b's')) [
    | inl e ↦ rw e (str_arg-Keeps ok_go go args s hg (rw e at ok))
    | inr e ↦
        let ok' = rw e at ok in
        rw e (elim (Bool-cases (c == b'x')) [
          | inl e' ↦ rw e' (num_arg-Keeps ok_go go args s hg (rw e' at ok'))
          | inr e' ↦ rw e' (hg (c ∷ []) args s (rw e' at ok'))
        ])
  ]

  printf_from-Continues :
      (format : List ℕ) (behind : Bool)
      → Continues (accepts behind format) (printf_from device vga behind format)
  unfolding printf_from accepts
  printf_from-Continues [] false pending args s ok = put_at_cursor-Keeps 0 pending s
  printf_from-Continues [] true pending args s ok = absurd (cc ok)
  printf_from-Continues (c ∷ format) false pending args s ok =
      plain_char-Keeps (accepts true format) (accepts false format) _ _ c pending args s
        (printf_from-Continues format true) (printf_from-Continues format false) ok
  printf_from-Continues (c ∷ format) true pending args s ok =
      directive-Keeps (accepts false format) _ c pending args s (printf_from-Continues format false)
        ok

  -- On a usable screen, for a format that does not end behind a `%` and for the arguments of its
  -- directives, `console_printf` returns, whatever the cursor registers read, and it writes no byte
  -- outside the memory of the screen.
  pub console_printf-Kept :
      (format : List ℕ) (args : List Arg) (s : Screen)
      → accepts false format args ≡ true
      → Ends (Kept vga s) (console_printf device vga format args s)
  unfolding console_printf
  console_printf-Kept format args s ok = printf_from-Continues format false [] args s ok
