-- ===== src/Kbd.antt =====
-- The keyboard controller: src/kernel/bin/drivers/i8042/kbd.c. The loops that wait for the status
-- register run on fuel. The message that the interrupt handler prints is left out.
pub mod Wait
pub mod Init
mod Examples
use opsys.Base.{
  ℕ, zero, suc, ◌+◌, ◌-◌, Bool, not, Option, none, some, ◌==◌, if◌then◌else◌, bit_and, bit_or,
  Result, ok, err, enodev, eio,
}
use opsys.Base.Partial.{◌>>=◌}
use opsys.Irq.{Irq, IrqStatus, irq_handled, irq_handler_init, install_irq_handler}
use opsys.Ports.{Device, History, io_outb, io_inb}

abbrev pub ioport_ctrl : ℕ
ioport_ctrl = 0x64

abbrev pub ioport_encd : ℕ
ioport_encd = 0x60

abbrev pub cmd_rdcmdbyte : ℕ
cmd_rdcmdbyte = 0x20

abbrev pub cmd_wrcmdbyte : ℕ
cmd_wrcmdbyte = 0x60

abbrev pub cmd_selftest : ℕ
cmd_selftest = 0xaa

abbrev pub cmd_kbditftest : ℕ
cmd_kbditftest = 0xab

abbrev pub cmd_disablekbd : ℕ
cmd_disablekbd = 0xad

abbrev pub cmd_enablekbd : ℕ
cmd_enablekbd = 0xae

abbrev pub cmd_reset_kbd : ℕ
cmd_reset_kbd = 0xff

-- Bit 1 of the status register, and bit 0.
abbrev pub inbuf_free : ℕ → Bool
inbuf_free status = bit_and status 0x2 == 0

abbrev pub outbuf_full : ℕ → Bool
outbuf_full status = not (bit_and status 0x1 == 0)

module _ (device : Device) where
  abbrev pub kbd_ctrl_inb : History → ℕ × History
  kbd_ctrl_inb h = io_inb device ioport_ctrl h

  -- The loop that reads the status register until it passes the test.
  unfoldable pub wait_until : (ℕ → Bool) → ℕ → History → Option History
  wait_until ready zero h = none
  wait_until ready (suc fuel) h =
      let r = kbd_ctrl_inb h in
      let rest = wait_until ready fuel r.1 in if ready r.0 then some r.1 else rest

  module _ (fuel : ℕ) where
    unfoldable pub kbd_ctrl_outb : ℕ → History → Option History
    kbd_ctrl_outb byte h = wait_until inbuf_free fuel h >>= λ g. some (io_outb ioport_ctrl byte g)

    unfoldable pub kbd_enc_inb : History → Option (ℕ × History)
    kbd_enc_inb h = wait_until outbuf_full fuel h >>= λ g. some (io_inb device ioport_encd g)

    unfoldable pub kbd_enc_outb : ℕ → History → Option History
    kbd_enc_outb byte h = wait_until inbuf_free fuel h >>= λ g. some (io_outb ioport_encd byte g)

    unfoldable pub kbd_ctrl_outcmd : ℕ → ℕ → History → Option History
    kbd_ctrl_outcmd cmd byte h = kbd_ctrl_outb cmd h >>= λ g. kbd_enc_outb byte g

    unfoldable pub kbd_ctrl_incmd : ℕ → History → Option (ℕ × History)
    kbd_ctrl_incmd cmd h = kbd_ctrl_outb cmd h >>= λ g. kbd_enc_inb g

    unfoldable pub kbd_selftest : History → Option (Result (Unit {0}) × History)
    kbd_selftest h = kbd_ctrl_incmd cmd_selftest h >>= λ r.
        some ((if r.0 == 0x55 then ok tt else err enodev), r.1)

    unfoldable pub kbd_interfacetest : History → Option (Result (Unit {0}) × History)
    kbd_interfacetest h =
        kbd_ctrl_incmd cmd_kbditftest h >>= λ r. some ((if r.0 == 0 then ok tt else err eio), r.1)

    -- The second test, after a reset, where the first one failed.
    unfoldable pub retry : Result (Unit {0}) × History → Option (Result (Unit {0}) × History)
    retry (ok u, h) = some (ok u, h)
    retry (err e, h) = kbd_ctrl_outb cmd_disablekbd h >>= λ g.
        kbd_enc_outb cmd_reset_kbd g >>= λ g'.
        kbd_ctrl_outb cmd_enablekbd g' >>= λ g''. kbd_interfacetest g''

    -- Reads the command byte and writes it back with interrupts on, and with the auxiliary device
    -- off, and with the keyboard on and the set of scan codes chosen.
    unfoldable pub set_cmdbyte : History → Option History
    set_cmdbyte h = kbd_ctrl_incmd cmd_rdcmdbyte h >>= λ r.
        kbd_ctrl_outcmd cmd_wrcmdbyte (bit_and (bit_or (bit_or r.0 0x01) 0x20) (255 - 0x50)) r.1

    -- The handler's result is dropped, as the result of `install_irq_handler` is.
    unfoldable pub install_kbd :
        (ℕ → ℕ → Result (Unit {0}))
        → (irqh func : ℕ) → Irq
        → History
        → Option (Result (Unit {0}) × Irq × History)
    install_kbd run_enable irqh func irq h = set_cmdbyte h >>= λ g.
        some (ok tt, (install_irq_handler run_enable 1 irqh (irq_handler_init irqh func irq)).1, g)

    module _ (run_enable : ℕ → ℕ → Result (Unit {0})) (irqh func : ℕ) (irq : Irq) where
      -- What follows the test of the interface, and what follows the self-test.
      unfoldable pub connected :
          Result (Unit {0}) × History → Option (Result (Unit {0}) × Irq × History)
      connected (err e, h) = some (err e, irq, h)
      connected (ok u, h) = install_kbd run_enable irqh func irq h

      unfoldable pub tested :
          Result (Unit {0}) × History → Option (Result (Unit {0}) × Irq × History)
      tested (err e, h) = some (err e, irq, h)
      tested (ok u, h) = kbd_interfacetest h >>= λ r. retry r >>= λ t. connected t

      -- `irqh` is the address of the handler's list node and `func` the handler.
      unfoldable pub kbd_init : History → Option (Result (Unit {0}) × Irq × History)
      kbd_init h = kbd_ctrl_outb cmd_enablekbd h >>= λ g. kbd_selftest g >>= λ r. tested r

  unfoldable pub kbd_get_scancode : History → ℕ × History
  kbd_get_scancode h = io_inb device ioport_encd h

  unfoldable pub irq_handler_func : History → IrqStatus × History
  irq_handler_func h = let r = kbd_get_scancode h in (irq_handled, r.1)
