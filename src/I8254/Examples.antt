-- ===== src/I8254/Examples.antt =====
-- The timer at 100 Hz, with the alarm 2 at time 10 on the list 1.
use opsys.Base.{ℕ, ◌+◌, ◌*◌, ◌≤◌, ◌<◌, ◌≡◌, arith, some, [], ◌∷◌, get_or, true}
use opsys.I8254.{Pit, i8254_install_timer, i8254_ticks_per_s, i8254_cmd}
use opsys.I8254.Rate.{i8254_install_timer_lem}
use opsys.Irq.{Irq}
use opsys.LinkedList.{Links, put}
use opsys.Ports.{out}
use opsys.Timer.{Timer, unset}

abbrev ring : Links
ring = record { next = put (put (λ a. 0) 1 2) 2 1; prev = put (put (λ a. 0) 1 2) 2 1 }

abbrev timer : Timer
timer = record {
  links = ring;
  head = 1;
  timestamp_ns = 0;
  stamp = put (λ a. 0) 2 10;
  fired = [];
  driver = unset;
}

abbrev irq : Irq
irq = record {
  links = ring;
  irqh = 64;
  func = λ a. 0;
  enable_irq = 0;
  disable_irq = 0;
  ints = true;
  pic = [];
  called = [];
}

abbrev pit : Pit
pit = record {
  i8254 = record {
    drv = record { set_timeout = 0; clear_timeout = 0 };
    counter_freq = 100 ∷ 0 ∷ 0 ∷ [];
    irq_handler = 8;
    timestamp = 0;
  };
  irq = irq;
  timer = timer;
  ports = [];
}

i8254_install_timer_example :
    (lsb : ℕ) × (msb : ℕ) × (t : Pit) × (i8254_install_timer 100 pit ≡ some t)
    × (t.ports ≡ out 0x40 msb ∷ out 0x40 lsb ∷ out i8254_cmd 0x34 ∷ [])
    × ((lsb + 256 * msb) * 100 ≤ i8254_ticks_per_s)
    × (i8254_ticks_per_s < (lsb + 256 * msb + 1) * 100)
    × (get_or t.i8254.counter_freq 0 0 ≡ 100)
    × (t.irq ≡ irq)
i8254_install_timer_example = i8254_install_timer_lem 100 pit (omega arith) (omega arith)
