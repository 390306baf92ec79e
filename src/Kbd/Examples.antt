-- ===== src/Kbd/Examples.antt =====
-- A controller that answers at once, and only commands that ask for a byte: 0x55 to the self-test,
-- 0 to the others.
use opsys.Base.{
  ℕ, refl, ◌==◌, ◌||◌, arith, if◌then◌else◌, Bool, Bool-cases, inl, inr, [], ◌∷◌, true, false, ok,
}
use opsys.Base.Partial.{Ends}
use opsys.Irq.{Irq}
use opsys.Kbd.{kbd_init, ioport_ctrl, ioport_encd, cmd_selftest, cmd_kbditftest, cmd_rdcmdbyte}
use opsys.Kbd.Init.{kbd_init-BroughtUp, BroughtUp}
use opsys.Kbd.Wait.{Takes, Answers, Settles, polls}
use opsys.Ports.{Device, History, out, inp}

abbrev last_written : History → ℕ
last_written [] = 0
last_written (out port byte ∷ h) = byte
last_written (inp port byte ∷ h) = last_written h

-- An answer that was not read yet.
abbrev pending : History → Bool
pending [] = false
pending (out port byte ∷ h) =
    byte == cmd_selftest || byte == cmd_kbditftest || byte == cmd_rdcmdbyte
pending (inp port byte ∷ h) = if port == ioport_encd then false else pending h

abbrev device : Device
device h port =
    if port == ioport_ctrl
    then (if pending h then 0x01 else 0x00)
    else (if last_written h == cmd_selftest then 0x55 else 0)

abbrev irq : Irq
irq = record {
  links = record { next = λ a. a; prev = λ a. a };
  irqh = 64;
  func = λ a. 0;
  enable_irq = 0;
  disable_irq = 0;
  ints = true;
  pic = [];
  called = [];
}

takes : Takes device 1
unfolding Settles polls
takes h = elim (Bool-cases (pending h)) [
  | inl full ↦ (0, omega arith, rw full refl)
  | inr idle ↦ (0, omega arith, rw idle refl)
]

tests : Answers device 1 cmd_kbditftest
unfolding Settles polls
tests h = (0, omega arith, refl)

selftests : Answers device 1 cmd_selftest
unfolding Settles polls
selftests h = (0, omega arith, refl)

reads : Answers device 1 cmd_rdcmdbyte
unfolding Settles polls
reads h = (0, omega arith, refl)

kbd_init-BroughtUp_example :
    Ends
      (BroughtUp device 1 (λ func irqno. ok tt) 8 100 irq [])
      (kbd_init device 1 (λ func irqno. ok tt) 8 100 irq [])
kbd_init-BroughtUp_example =
    kbd_init-BroughtUp device 1 takes tests selftests reads (λ func irqno. ok tt) 8 100 irq []
