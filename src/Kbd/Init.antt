-- ===== src/Kbd/Init.antt =====
-- Bringing up the keyboard on a controller that answers within a number of reads.
use opsys.Base.{
  ℕ, ◌^◌, ◌-◌, ◌<◌, ◌≡◌, refl, ◌≢◌, ◌∙◌, ap, ◌⊎◌, inl, inr, ◌==◌, ==→eq, eq→==, ne→==, Bool,
  eq-cases, all_below, all_below_sound, ◌∷◌, bit_and, bit_or, if◌then◌else◌, Result, ok, err, Errno,
  enodev, eio, some,
}
use opsys.Base.Partial.{◌>>=◌, Ends, ends_return, ends_bind, ends_map, ends_noted}
use opsys.Irq.{Irq, irq_handler_init, install_irq_handler}
use opsys.Kbd.{
  ioport_encd, kbd_ctrl_outb, kbd_enc_outb, kbd_ctrl_outcmd, kbd_ctrl_incmd, kbd_selftest,
  kbd_interfacetest, retry, connected, tested, set_cmdbyte, install_kbd, kbd_init, cmd_selftest,
  cmd_kbditftest, cmd_rdcmdbyte, cmd_wrcmdbyte, cmd_disablekbd, cmd_reset_kbd, cmd_enablekbd,
}
use opsys.Kbd.Wait.{Takes, Answers, ctrl_outb, enc_outb, incmd}
use opsys.Ports.{Device, History, out, char_of}

-- The test of the interface, whose last answer is `byte`: the first one, if it is 0, and otherwise
-- the one after a reset of the keyboard.
pub data Interface (device : Device) (fuel : ℕ) (h : History) : ℕ → History → Type 0 where
  at_once :
      (h1 : History)
      → kbd_ctrl_incmd device fuel cmd_kbditftest h ≡ some (0, h1)
      → Interface device fuel h 0 h1
  again :
      (byte byte' : ℕ) (h1 h2 h3 h4 h5 : History)
      → kbd_ctrl_incmd device fuel cmd_kbditftest h ≡ some (byte, h1)
      → byte ≢ 0
      → kbd_ctrl_outb device fuel cmd_disablekbd h1 ≡ some h2
      → kbd_enc_outb device fuel cmd_reset_kbd h2 ≡ some h3
      → kbd_ctrl_outb device fuel cmd_enablekbd h3 ≡ some h4
      → kbd_ctrl_incmd device fuel cmd_kbditftest h4 ≡ some (byte', h5)
      → Interface device fuel h byte' h5

-- The command byte was read and written back with interrupts on (bit 0), the auxiliary device off
-- (bit 5), the keyboard not off (bit 4) and bit 6 clear; its other bits are as they were read. The
-- byte is the last that was written.
pub record Programmed (device : Device) (fuel : ℕ) (h h' : History) : Type 0 where
  pub old : ℕ
  pub new : ℕ
  pub h1 : History
  pub h2 : History
  pub rest : History
  pub read : kbd_ctrl_incmd device fuel cmd_rdcmdbyte h ≡ some (old, h1)
  pub command : kbd_ctrl_outb device fuel cmd_wrcmdbyte h1 ≡ some h2
  pub set : bit_and new 0x71 ≡ 0x21
  pub kept : bit_and new 0x8e ≡ bit_and old 0x8e
  pub write : kbd_enc_outb device fuel new h2 ≡ some h'
  pub last : h' ≡ out ioport_encd new ∷ rest

-- How `kbd_init` returns. The self-test of a controller with its keyboard enabled does not answer
-- 0x55: -ENODEV. It does, but the last test of the interface does not answer 0: -EIO. It answers 0:
-- success, with the handler installed as far as `install_irq_handler` did it, and the controller
-- programmed. In the other two cases no handler is installed.
pub data BroughtUp (device : Device) (fuel : ℕ) (run_enable : ℕ → ℕ → Result (Unit {0}))
    (irqh func : ℕ) (irq : Irq) (h : History) : Result (Unit {0}) × Irq × History → Type 0 where
  no_device :
      (byte : ℕ) (h1 h2 : History)
      → kbd_ctrl_outb device fuel cmd_enablekbd h ≡ some h1
      → kbd_ctrl_incmd device fuel cmd_selftest h1 ≡ some (byte, h2)
      → byte ≢ 0x55
      → BroughtUp device fuel run_enable irqh func irq h (err enodev, irq, h2)
  no_interface :
      (byte : ℕ) (h1 h2 h3 : History)
      → kbd_ctrl_outb device fuel cmd_enablekbd h ≡ some h1
      → kbd_ctrl_incmd device fuel cmd_selftest h1 ≡ some (0x55, h2)
      → Interface device fuel h2 byte h3
      → byte ≢ 0
      → BroughtUp device fuel run_enable irqh func irq h (err eio, irq, h3)
  brought_up :
      (h1 h2 h3 h4 : History)
      → kbd_ctrl_outb device fuel cmd_enablekbd h ≡ some h1
      → kbd_ctrl_incmd device fuel cmd_selftest h1 ≡ some (0x55, h2)
      → Interface device fuel h2 0 h3
      → Programmed device fuel h3 h4
      → BroughtUp device fuel run_enable irqh func irq h
          (ok tt, (install_irq_handler run_enable 1 irqh (irq_handler_init irqh func irq)).1, h4)

-- The byte that `set_cmdbyte` writes for the byte that it read.
abbrev next_byte : ℕ → ℕ
next_byte old = bit_and (bit_or (bit_or old 0x01) 0x20) (255 - 0x50)

next_byte_lem :
    (old : ℕ)
    → old < 2 ^ 8
    → (bit_and (next_byte old) 0x71 ≡ 0x21)
      × (bit_and (next_byte old) 0x8e ≡ bit_and old 0x8e)
      × (char_of (next_byte old) ≡ next_byte old)
unfolding all_below
next_byte_lem old h = (
  ==→eq _ _ (all_below_sound 256 set old refl h),
  ==→eq _ _ (all_below_sound 256 kept old refl h),
  ==→eq _ _ (all_below_sound 256 fits old refl h),
)
  where
    set : ℕ → Bool
    set b = bit_and (next_byte b) 0x71 == 0x21

    kept : ℕ → Bool
    kept b = bit_and (next_byte b) 0x8e == bit_and b 0x8e

    fits : ℕ → Bool
    fits b = char_of (next_byte b) == next_byte b

module _ (device : Device) (fuel : ℕ) (takes : Takes device fuel) where
  -- What a test returns for the byte that the controller answers to `cmd`.
  Tested : (cmd good : ℕ) → Errno → History → Result (Unit {0}) × History → Type 0
  Tested cmd good e h r =
      (byte : ℕ) × (kbd_ctrl_incmd device fuel cmd h ≡ some (byte, r.1))
      × (((byte ≡ good) × (r.0 ≡ ok tt)) ⊎ ((byte ≢ good) × (r.0 ≡ err e)))

  run_test :
      (cmd good : ℕ) (e : Errno) (h : History)
      → Answers device fuel cmd
      → Ends (Tested cmd good e h) (
          kbd_ctrl_incmd device fuel cmd h >>= λ r.
          some ((if r.0 == good then ok tt else err e), r.1))
  unfolding Tested
  run_test cmd good e h answers =
      ends_bind (ends_noted (incmd device fuel takes cmd h answers)) λ r p.
        elim (eq-cases r.0 good) [
          | inl is ↦ rw (eq→== r.0 good is) (ends_return _ (r.0, p.0, inl (is, refl)))
          | inr ne ↦ rw (ne→== r.0 good ne) (ends_return _ (r.0, p.0, inr (ne, refl)))
        ]

  cmdbyte :
      (h : History)
      → Answers device fuel cmd_rdcmdbyte
      → Ends (Programmed device fuel h) (set_cmdbyte device fuel h)
  unfolding set_cmdbyte kbd_ctrl_outcmd
  cmdbyte h answers =
      ends_bind (ends_noted (incmd device fuel takes cmd_rdcmdbyte h answers)) λ r p.
        ends_bind (ctrl_outb device fuel takes cmd_wrcmdbyte r.1) λ g w.
          ends_map (ends_noted (enc_outb device fuel takes (next_byte r.0) g)) λ g' v.
            let byte = next_byte_lem r.0 p.1 in
            record {
              old = r.0;
              new = next_byte r.0;
              h1 = r.1;
              h2 = g;
              rest = v.1.0;
              read = p.0;
              command = w.0;
              set = byte.0;
              kept = byte.1;
              write = v.0;
              last = v.1.1 ∙ ap (λ b. out ioport_encd b ∷ v.1.0) byte.2;
            }

  module _ (tests : Answers device fuel cmd_kbditftest) where
    -- The outcome of both tests of the interface.
    Retried : History → Result (Unit {0}) × History → Type 0
    Retried h t =
        ((t.0 ≡ ok tt) × Interface device fuel h 0 t.1)
        ⊎ ((t.0 ≡ err eio) × ((byte : ℕ) × (byte ≢ 0) × Interface device fuel h byte t.1))

    second :
        (h : History) (byte : ℕ) (h1 h2 h3 h4 : History)
        → kbd_ctrl_incmd device fuel cmd_kbditftest h ≡ some (byte, h1)
        → byte ≢ 0
        → kbd_ctrl_outb device fuel cmd_disablekbd h1 ≡ some h2
        → kbd_enc_outb device fuel cmd_reset_kbd h2 ≡ some h3
        → kbd_ctrl_outb device fuel cmd_enablekbd h3 ≡ some h4
        → Ends (Retried h) (kbd_interfacetest device fuel h4)
    unfolding kbd_interfacetest Tested Retried
    second h byte h1 h2 h3 h4 e ne off reset on =
        ends_map (run_test cmd_kbditftest 0 eio h4 tests) λ r (byte', e', res).
          let test : (b : ℕ) → byte' ≡ b → Interface device fuel h b r.1 = λ b same.
            again byte b h1 h2 h3 h4 r.1 e ne off reset on (e' ∙ ap (λ b. some (b, r.1)) same) in
          elim res [
            | inl (is, good) ↦ inl (good, test 0 is)
            | inr (bad, failed) ↦ inr (failed, (byte', bad, test byte' refl))
          ]

    retried :
        (h : History) (r : Result (Unit {0}) × History)
        → Tested cmd_kbditftest 0 eio h r
        → Ends (Retried h) (retry device fuel r)
    unfolding retry Tested Retried
    retried h (ok u, g) (byte, e, inl (is, good)) =
        ends_return _ (inl (refl, at_once g (e ∙ ap (λ b. some (b, g)) is)))
    retried h (ok u, g) (byte, e, inr (bad, failed)) = absurd (cc failed)
    retried h (err x, g) (byte, e, inl (is, good)) = absurd (cc good)
    retried h (err x, g) (byte, e, inr (bad, failed)) =
        ends_bind (ctrl_outb device fuel takes cmd_disablekbd g) λ g1 off.
          ends_bind (ends_noted (enc_outb device fuel takes cmd_reset_kbd g1)) λ g2 reset.
            ends_bind (ctrl_outb device fuel takes cmd_enablekbd g2)
              λ g3 on. second h byte g g1 g2 g3 e bad off.0 reset.0 on.0

    module _ (selftests : Answers device fuel cmd_selftest)
        (reads : Answers device fuel cmd_rdcmdbyte) (run_enable : ℕ → ℕ → Result (Unit {0}))
        (irqh func : ℕ) (irq : Irq) where
      if_connected :
          (h h1 h2 : History) (t : Result (Unit {0}) × History)
          → kbd_ctrl_outb device fuel cmd_enablekbd h ≡ some h1
          → kbd_ctrl_incmd device fuel cmd_selftest h1 ≡ some (0x55, h2)
          → Retried h2 t
          → Ends
              (BroughtUp device fuel run_enable irqh func irq h)
              (connected device fuel run_enable irqh func irq t)
      unfolding connected install_kbd Retried
      if_connected h h1 h2 (ok u, g) on self (inl (good, test)) =
          ends_bind (cmdbyte g reads) λ g' p. ends_return _ (brought_up h1 h2 g g' on self test p)
      if_connected h h1 h2 (ok u, g) on self (inr (failed, (byte, bad, test))) = absurd (cc failed)
      if_connected h h1 h2 (err x, g) on self (inl (good, test)) = absurd (cc good)
      if_connected h h1 h2 (err x, g) on self (inr (failed, (byte, bad, test))) =
          (_, refl, rw failed (no_interface byte h1 h2 g on self test bad))

      if_tested :
          (h h1 : History) (r : Result (Unit {0}) × History)
          → kbd_ctrl_outb device fuel cmd_enablekbd h ≡ some h1
          → Tested cmd_selftest 0x55 enodev h1 r
          → Ends
              (BroughtUp device fuel run_enable irqh func irq h)
              (tested device fuel run_enable irqh func irq r)
      unfolding tested Tested kbd_interfacetest
      if_tested h h1 (ok u, g) on (byte, e, inl (is, good)) =
          ends_bind (run_test cmd_kbditftest 0 eio g tests) λ r p.
            ends_bind (retried g r p)
              λ t q. if_connected h h1 g t on (e ∙ ap (λ b. some (b, g)) is) q
      if_tested h h1 (ok u, g) on (byte, e, inr (bad, failed)) = absurd (cc failed)
      if_tested h h1 (err x, g) on (byte, e, inl (is, good)) = absurd (cc good)
      if_tested h h1 (err x, g) on (byte, e, inr (bad, failed)) =
          (_, refl, rw failed (no_device byte h1 g on e bad))

      -- On a controller that takes each byte and answers each of the three commands that ask for
      -- one, within `fuel` reads of the status register, `kbd_init` with that fuel for each of its
      -- loops returns. With the keyboard enabled, it returns -ENODEV if the self-test does not
      -- answer 0x55, and otherwise -EIO if the test of the interface answers other than 0, also
      -- again after a reset of the keyboard; the interrupt handlers are unchanged then. Otherwise
      -- it returns 0, with whatever `install_irq_handler` left; the last byte written is the
      -- command byte, as it was read but with interrupts on, the auxiliary device off, the keyboard
      -- on and bit 6 clear.
      pub kbd_init-BroughtUp :
          (h : History)
          → Ends
              (BroughtUp device fuel run_enable irqh func irq h)
              (kbd_init device fuel run_enable irqh func irq h)
      unfolding kbd_init kbd_selftest
      kbd_init-BroughtUp h = ends_bind (ctrl_outb device fuel takes cmd_enablekbd h) λ g on.
          ends_bind (run_test cmd_selftest 0x55 enodev g selftests) λ r p. if_tested h g r on.0 p
