-- ===== src/Kbd/Wait.antt =====
-- Waiting for the keyboard controller, and the bytes that are exchanged with it.
use mathlib.Core.Path.{subst}
use opsys.Base.{
  ℕ, zero, suc, ◌^◌, ◌<◌, ◌≡◌, refl, sym, inl, inr, arith, Bool, true, Bool-cases, ◌∷◌, some,
}
use opsys.Base.Partial.{Ends, ends_return, ends_bind, ends_noted}
use opsys.Kbd.{
  ioport_ctrl, ioport_encd, inbuf_free, outbuf_full, kbd_ctrl_inb, wait_until, kbd_ctrl_outb,
  kbd_enc_inb, kbd_enc_outb, kbd_ctrl_incmd,
}
use opsys.Ports.{Device, History, out, io_outb, char_of}

-- The history after `k` reads of the status register.
unfoldable pub polls : Device → ℕ → History → History
polls device zero h = h
polls device (suc k) h = polls device k (kbd_ctrl_inb device h).1

-- From the history `h` on, one of the next `n` reads of the status register passes the test.
unfoldable pub Settles : Device → (ℕ → Bool) → ℕ → History → Type 0
Settles device ready n h =
    (k : ℕ) × (k < n) × (ready (kbd_ctrl_inb device (polls device k h)).0 ≡ true)

-- The controller takes what it is given: whatever was written, its input buffer is free after at
-- most `n` reads of the status register.
abbrev pub Takes : Device → ℕ → Type 0
Takes device n = (h : History) → Settles device inbuf_free n h

-- The controller answers a command that asks for a byte: when the command has just been written,
-- its output buffer is full after at most `n` reads.
abbrev pub Answers : Device → ℕ → ℕ → Type 0
Answers device n cmd = (h : History) → Settles device outbuf_full n (io_outb ioport_ctrl cmd h)

wait_until-Ends :
    (device : Device) (ready : ℕ → Bool) (fuel k : ℕ) (h : History)
    → k < fuel
    → ready (kbd_ctrl_inb device (polls device k h)).0 ≡ true
    → Ends (λ g. Unit {0}) (wait_until device ready fuel h)
unfolding wait_until polls
wait_until-Ends device ready zero k h small e = absurd (omega arith)
wait_until-Ends device ready (suc fuel) zero h small e = ((kbd_ctrl_inb device h).1, rw e refl, tt)
wait_until-Ends device ready (suc fuel) (suc k) h small e =
    let later = wait_until-Ends device ready fuel k (kbd_ctrl_inb device h).1 (omega arith) e in
    elim (Bool-cases (ready (kbd_ctrl_inb device h).0)) [
      | inl now ↦ ((kbd_ctrl_inb device h).1, rw now refl, tt)
      | inr wait ↦ (later.0, rw wait later.1, tt)
    ]

module _ (device : Device) (fuel : ℕ) (takes : Takes device fuel) where
  waited :
      (ready : ℕ → Bool) (h : History)
      → Settles device ready fuel h
      → Ends (λ g. Unit {0}) (wait_until device ready fuel h)
  unfolding Settles
  waited ready h s = wait_until-Ends device ready fuel s.0 h s.1 s.2

  pub ctrl_outb :
      (byte : ℕ) (h : History)
      → Ends
          (λ g.
            (kbd_ctrl_outb device fuel byte h ≡ some g)
            × ((rest : History) × (g ≡ io_outb ioport_ctrl byte rest)))
          (kbd_ctrl_outb device fuel byte h)
  ctrl_outb byte h = ends_noted (written byte h)
    where
      written :
          (byte : ℕ) (h : History)
          → Ends
              (λ g. (rest : History) × (g ≡ io_outb ioport_ctrl byte rest))
              (kbd_ctrl_outb device fuel byte h)
      written byte h =
          unfold kbd_ctrl_outb in
          ends_bind (waited inbuf_free h (takes h)) λ g u. ends_return _ (g, refl)

  pub enc_outb :
      (byte : ℕ) (h : History)
      → Ends
          (λ g. (rest : History) × (g ≡ out ioport_encd (char_of byte) ∷ rest))
          (kbd_enc_outb device fuel byte h)
  unfolding kbd_enc_outb
  enc_outb byte h = ends_bind (waited inbuf_free h (takes h)) λ g u. ends_return _ (g, refl)

  enc_inb :
      (cmd : ℕ) (g rest : History)
      → Answers device fuel cmd
      → g ≡ io_outb ioport_ctrl cmd rest
      → Ends (λ r. r.0 < 2 ^ 8) (kbd_enc_inb device fuel g)
  unfolding kbd_enc_inb
  enc_inb cmd g rest answers e =
      ends_bind
        (waited outbuf_full g
          (subst (λ x. Settles device outbuf_full fuel x) (sym e) (answers rest)))
        λ g' u. ends_return _ (omega arith)

  pub incmd :
      (cmd : ℕ) (h : History)
      → Answers device fuel cmd
      → Ends (λ r. r.0 < 2 ^ 8) (kbd_ctrl_incmd device fuel cmd h)
  unfolding kbd_ctrl_incmd
  incmd cmd h answers = ends_bind (ctrl_outb cmd h) λ g w. enc_inb cmd g w.1.0 answers w.1.1
