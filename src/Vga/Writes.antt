-- ===== src/Vga/Writes.antt =====
-- Where the display driver writes.
use opsys.Base.{
  ℕ, ◌+◌, ◌-◌, ◌*◌, ◌%◌, ◌≤◌, ◌<◌, ◌≡◌, refl, ap, ◌∙◌, ◌≢◌, ◌⊎◌, arith, ◌==◌, ne→==, Option, List,
  [], ◌∷◌, length, Result, ok, err, sym, suc, inl, inr, Bool-cases, ltb, ltb→lt, ltb-false→le,
  eq→==,
}
use native.Mathlib.Nat.{mod-lt, mod-add-mod, mod-eq_of_lt, add-mod_right}
use opsys.Base.Partial.{Ends, ends_return, ends_bind, ends_map}
use opsys.LinkedList.{put}
use opsys.Ports.{Device, char_of}
use opsys.Vga.{
  MultibootVga, Screen, cells, get_addr, set_cursor_offset, get_cursor_offset, put_lf, put_cr,
  put_char, put_str, if_put, crt_drv_put_str,
}

-- The screen has cells, and is not at address 0.
pub record Usable (vga : MultibootVga) : Type 0 where
  pub some_cells : cells vga ≢ 0
  pub width : vga.fb_w ≢ 0
  pub not_null : vga.vmem ≢ 0

-- Every byte outside the memory of the cells is as before.
abbrev pub Kept : MultibootVga → Screen → Screen → Type 0
Kept vga s t = (a : ℕ) → (a < vga.vmem) ⊎ (vga.vmem + 2 * cells vga ≤ a) → t.mem a ≡ s.mem a

put-other : (f : ℕ → ℕ) (a v x : ℕ) → (x < a) ⊎ (a < x) → put f a v x ≡ f x
unfolding put
put-other f a v x ne = ground (arith, ne)

put_self : (f : ℕ → ℕ) (a v : ℕ) → put f a v a ≡ v
unfolding put
put_self f a v = rw (eq→== a a refl) refl

apart : (x a : ℕ) → x ≢ a → (x < a) ⊎ (a < x)
apart x a ne = omega (arith, ne)

-- Fewer than `n` cells further on is another one of `n` cells.
mod-apart : (a k n : ℕ) → 0 < k → k < n → a % n ≢ (a + k) % n
mod-apart a k n pos small e =
    let below : a % n < n = mod-lt a (omega (arith, small)) in
    let whole : (a % n + k) % n ≡ (a + k) % n = mod-add-mod a n k in
    elim (Bool-cases (ltb (a % n + k) n)) [
      | inl fits ↦
          let same = mod-eq_of_lt (ltb→lt (a % n + k) n fits) in omega (arith, e, whole, same, pos)
      | inr over ↦
          let least = ltb-false→le (a % n + k) n over in
          let split : a % n + k - n + n ≡ a % n + k = omega (arith, least) in
          let turned : (a % n + k - n + n) % n ≡ (a % n + k - n) % n =
            add-mod_right (a % n + k - n) n in
          let same : (a % n + k - n) % n ≡ a % n + k - n =
            mod-eq_of_lt (omega (arith, below, small)) in
          let again = sym (ap (λ x. x % n) split) ∙ turned ∙ same in
          omega (arith, e, whole, again, small, least)
    ]

-- The address of the cell in which the character at an offset is put.
abbrev pub cell_addr : MultibootVga → ℕ → ℕ
cell_addr vga off = get_addr vga (off % cells vga)

-- The characters of a string from number `len` on are in their cells, each with the attribute 7.
unfoldable pub Shown : MultibootVga → (off len : ℕ) → List ℕ → Screen → Type 0
Shown vga off len [] s = Unit
Shown vga off len (c ∷ buf) s =
    (s.mem (cell_addr vga (off + len)) ≡ char_of c)
    × (s.mem (cell_addr vga (off + len) + 1) ≡ 0x07)
    × Shown vga off (len + 1) buf s

-- Every byte is as before but those of the cells of `n` characters from number `len` on.
abbrev pub Elsewhere : MultibootVga → (off len n : ℕ) → Screen → Screen → Type 0
Elsewhere vga off len n s t =
    (a : ℕ)
    → ((i : ℕ)
        → len ≤ i
        → i < len + n
        → (a ≢ cell_addr vga (off + i)) × (a ≢ cell_addr vga (off + i) + 1))
    → t.mem a ≡ s.mem a

-- What is written of a string whose first `len` characters were put before: if it is not longer
-- than the screen, each character is in its cell, and no other cell changes.
pub record Written (vga : MultibootVga) (off len : ℕ) (buf : List ℕ) (s t : Screen) : Type 0 where
  pub elsewhere : Elsewhere vga off len (length buf) s t
  pub shown : (cells vga < length buf) ⊎ Shown vga off len buf t

module _ (vga : MultibootVga) (usable : Usable vga) where
  pub set_cursor_offset-Kept :
      (off : ℕ) (s : Screen) → Ends (Kept vga s) (set_cursor_offset vga off s)
  unfolding set_cursor_offset
  set_cursor_offset-Kept off s =
      rw (ne→== (cells vga) 0 usable.some_cells) (ends_return _ (λ a out. refl))

  pub put_lf-Kept : (device : Device) (s : Screen) → Ends (Kept vga s) (put_lf device vga s)
  unfolding put_lf get_cursor_offset
  put_lf-Kept device s =
      let r = get_cursor_offset device s in set_cursor_offset-Kept (r.0 + vga.fb_w) r.1

  pub put_cr-Kept : (device : Device) (s : Screen) → Ends (Kept vga s) (put_cr device vga s)
  unfolding put_cr get_cursor_offset
  put_cr-Kept device s =
      let r = get_cursor_offset device s in
      rw (ne→== vga.fb_w 0 usable.width) (set_cursor_offset-Kept (r.0 - r.0 % vga.fb_w) r.1)

  -- What `put_char` does: the character and its attribute are in its cell, and no other byte is
  -- written.
  Put : ℕ → ℕ → Screen → Result ℕ × Screen → Type 0
  Put off c s r =
      (r.0 ≡ ok 1)
      × (r.1.mem (cell_addr vga off) ≡ char_of c)
      × (r.1.mem (cell_addr vga off + 1) ≡ 0x07)
      × ((a : ℕ) → a ≢ cell_addr vga off → a ≢ cell_addr vga off + 1 → r.1.mem a ≡ s.mem a)

  put_char-Put : (off c : ℕ) (s : Screen) → Ends (Put off c s) (put_char vga off c s)
  unfolding put_char Put
  put_char-Put off c s =
      let a = cell_addr vga off in
      let not_zero : (a == 0) ≡ _ = ne→== a 0 (λ e. usable.not_null (omega (arith, e))) in
      rw (ne→== (cells vga) 0 usable.some_cells) (
        rw not_zero (
          ends_return _ (
            refl,
            put-other (put s.mem a (char_of c)) (a + 1) 0x07 a (inl (omega arith))
                ∙ put_self s.mem a (char_of c),
            put_self (put s.mem a (char_of c)) (a + 1) 0x07,
            λ x ne ne'.
                put-other (put s.mem a (char_of c)) (a + 1) 0x07 x (apart x (a + 1) ne')
                ∙ put-other s.mem a (char_of c) x (apart x a ne),
          )))

  -- The characters that follow are put into other cells.
  next_cell :
      (off len n i : ℕ)
      → suc n ≤ cells vga
      → len + 1 ≤ i
      → i < len + 1 + n
      → (off + len) % cells vga ≢ (off + i) % cells vga
  next_cell off len n i fits above below e =
      let sum : off + i ≡ off + len + (i - len) = omega (arith, above) in
      mod-apart (off + len) (i - len) (cells vga) (omega (arith, above))
        (omega (arith, fits, below)) (e ∙ ap (λ k. k % cells vga) sum)

  not_touched :
      (off len n : ℕ) (t u : Screen)
      → suc n ≤ cells vga
      → Elsewhere vga off (len + 1) n t u
      → let a = cell_addr vga (off + len) in (u.mem a ≡ t.mem a) × (u.mem (a + 1) ≡ t.mem (a + 1))
  not_touched off len n t u fits other =
      let a = cell_addr vga (off + len) in
      (
        other a λ i above below.
            let ne = next_cell off len n i fits above below in
            (λ e. ne (omega (arith, e)), λ e. omega (arith, e)),
        other (a + 1) λ i above below.
            let ne = next_cell off len n i fits above below in
            (λ e. omega (arith, e), λ e. ne (omega (arith, e))),
      )

  -- A string is written if its first character is put and then the others are written.
  Written-cons :
      (off len c n : ℕ) (buf : List ℕ) (s t u : Screen)
      → Put (off + len) c s (ok n, t)
      → Written vga off (len + 1) buf t u
      → Written vga off len (c ∷ buf) s u
  unfolding Put Shown
  Written-cons off len c n buf s t u p w = record {
    elsewhere = λ a other.
        let mine = other len (omega arith) (omega arith) in
        w.elsewhere a (λ i above below. other i (omega (arith, above)) (omega (arith, below)))
        ∙ p.3 a mine.0 mine.1;
    shown = elim (Bool-cases (ltb (cells vga) (suc (length buf)))) [
      | inl long ↦ inl (ltb→lt (cells vga) (suc (length buf)) long)
      | inr fits ↦
          let room = ltb-false→le (cells vga) (suc (length buf)) fits in
          elim w.shown [
            | inl long ↦ absurd (omega (arith, long, room))
            | inr rest ↦
                let kept = not_touched off len (length buf) t u room w.elsewhere in
                inr (kept.0 ∙ p.1, kept.1 ∙ p.2, rest)
          ]
    ];
  }

  PutAll : (off len : ℕ) → List ℕ → Screen → Result ℕ × Screen → Type 0
  PutAll off len buf s r = (r.0 ≡ ok (len + length buf)) × Written vga off len buf s r.1

  if_put-PutAll :
      (off len c : ℕ) (buf : List ℕ) (s : Screen) (more : Screen → Option (Result ℕ × Screen))
      → ((t : Screen) → Ends (PutAll off (len + 1) buf t) (more t))
      → (r : Result ℕ × Screen) → Put (off + len) c s r
      → Ends (PutAll off len (c ∷ buf) s) (if_put more r)
  unfolding PutAll Put
  if_put-PutAll off len c buf s more each (err e, t) p = absurd (cc p.0)
  if_put-PutAll off len c buf s more each (ok n, t) p =
      ends_map (each t)
        λ r q. (q.0 ∙ ap ok (omega arith), Written-cons off len c n buf s t r.1 p q.1)

  put_all :
      (off : ℕ) (buf : List ℕ) (len : ℕ) (s : Screen)
      → Ends (PutAll off len buf s) (put_str vga off buf len s)
  unfolding put_str
  put_all off [] len s = ends_return _ (
      unfold PutAll Shown in
      (ap ok (omega arith), record { elsewhere = λ a other. refl; shown = inr tt }))
  put_all off (c ∷ buf) len s =
      ends_bind (put_char-Put (off + len) c s)
        (if_put-PutAll off len c buf s (put_str vga off buf (len + 1)) (put_all off buf (len + 1)))

  pub crt_drv_put_str_lem :
      (off : ℕ) (buf : List ℕ) (s : Screen)
      → Ends
          (λ r. (r.0 ≡ ok (length buf)) × Written vga off 0 buf s r.1)
          (crt_drv_put_str vga off buf s)
  crt_drv_put_str_lem off buf s =
      ends_map (put_all off buf 0 s) λ r q. unfold PutAll in (q.0 ∙ ap ok (omega arith), q.1)

  -- All of these cells are on the screen.
  pub Written-Kept :
      (off len : ℕ) (buf : List ℕ) (s t : Screen) → Written vga off len buf s t → Kept vga s t
  Written-Kept off len buf s t w a out = w.elsewhere a λ i above below.
      let positive : 0 < cells vga = omega (arith, usable.some_cells) in
      let small : (off + i) % cells vga < cells vga = mod-lt (off + i) positive in
      (λ e. omega (arith, e, out, small), λ e. omega (arith, e, out, small))
