-- ===== src/I8254.antt =====
-- The interval timer: src/kernel/bin/drivers/i8254/i8254.c and i8254.h, with
-- src/kernel/bin/drivers/timer/timer.c. The driver's interrupt handler and the timer of timer.c
-- keep separate lists. A division by zero, which stops the processor, is `none`.
pub mod Rate
mod Examples
use opsys.Base.{
  ℕ, zero, ◌+◌, ◌*◌, ◌/◌, ◌%◌, ◌^◌, Bool, Option, none, some, ◌==◌, if◌then◌else◌, List, [], ◌∷◌,
  set, get_or, replicate, bit_and, bit_or, Result, ok, err,
}
use opsys.Irq.{Irq, irq_handler_init, install_irq_handler, remove_irq_handler, cli_if_on, sti_if_on}
use opsys.Ports.{History, short_of, char_of, io_outb}
use opsys.Timer.{Timer, init_timer, handle_timeout}

abbrev pub i8254_counter_timer : ℕ
i8254_counter_timer = 0

abbrev pub i8254_mode_rategen : ℕ
i8254_mode_rategen = 2

abbrev pub i8254_irqno : ℕ
i8254_irqno = 0

abbrev pub i8254_cmd : ℕ
i8254_cmd = 0x43

abbrev pub i8254_ticks_per_s : ℕ
i8254_ticks_per_s = 1193182

abbrev pub i8254_data : ℕ → ℕ
i8254_data counter = 0x40 + bit_and counter 0x03

-- `S_TO_NS(1)`.
abbrev pub ns_per_s : ℕ
ns_per_s = 1000 * (1000 * (1000 * 1))

-- `struct timer_drv`: the two function pointers.
pub record TimerDrv : Type 0 where
  pub set_timeout : ℕ
  pub clear_timeout : ℕ

-- `irq_handler` is the address of the list node of the handler.
pub record I8254 : Type 0 where
  pub drv : TimerDrv
  pub counter_freq : List ℕ
  pub irq_handler : ℕ
  pub timestamp : ℕ

-- The driver with what it works on: the handlers, the timer and the port instructions so far.
pub record Pit : Type 0 where
  pub i8254 : I8254
  pub irq : Irq
  pub timer : Timer
  pub ports : History

-- `timer_drv_init` always returns 0, as `init_timer` does.
abbrev pub timer_drv_init : ℕ → ℕ → TimerDrv
timer_drv_init set_timeout clear_timeout = record {
  set_timeout = set_timeout;
  clear_timeout = clear_timeout;
}

-- The control word: least significant byte first.
abbrev pub control_word : ℕ → ℕ → ℕ
control_word counter mode =
    char_of (bit_or (bit_or (bit_and counter 0x3 * 2 ^ 6) 0x30) (bit_and mode 0x7 * 2))

unfoldable pub wreg_ticks : ℕ → ℕ → ℕ → Irq × History → Irq × History
wreg_ticks counter mode ticks0 (irq, h) =
    let ticks = short_of ticks0 in
    let lsb = char_of (bit_and ticks 0x00ff) in
    let msb = char_of (bit_and ticks 0xff00 / 2 ^ 8) in
    let saved = cli_if_on irq in
    let h1 = io_outb i8254_cmd (control_word counter mode) h in
    let h2 = io_outb (i8254_data counter) lsb h1 in
    let h3 = io_outb (i8254_data counter) msb h2 in (sti_if_on saved.0 saved.1, h3)

-- The body of the interrupt handler, with the callbacks of the alarms and fuel for their loop.
unfoldable pub irq_handler_func : (ℕ → ℕ) → ℕ → Pit → Option Pit
irq_handler_func func fuel s =
    let freq = get_or s.i8254.counter_freq i8254_counter_timer 0 in
    let now = (s.i8254.timestamp + ns_per_s / freq) % 2 ^ 32 in
    if freq == 0 then none else (elim (handle_timeout func fuel now s.timer) [
      | none ↦ none
      | some timer ↦ some (record s { i8254 = record s.i8254 { timestamp = now }; timer = timer })
    ])

-- `set_timeout`, `clear_timeout` and `func` are function pointers, `alarm_list` the address of the
-- list head of timer.c, `run_enable` the results of the interrupt controller. `uninit_timer` and
-- `timer_drv_uninit` do nothing.
unfoldable pub i8254_init :
    (ℕ → ℕ → Result (Unit {0}))
    → (set_timeout clear_timeout func alarm_list : ℕ) → Pit
    → Result (Unit {0}) × Pit
i8254_init run_enable set_timeout clear_timeout func alarm_list s =
    let irqh = s.i8254.irq_handler in
    let r = install_irq_handler run_enable i8254_irqno irqh (irq_handler_init irqh func s.irq) in
    (
      r.0,
      record s {
        i8254 = record s.i8254 {
          drv = timer_drv_init set_timeout clear_timeout;
          counter_freq = replicate 3 0;
        };
        timer = init_timer alarm_list s.timer;
        irq = r.1;
      },
    )

unfoldable pub i8254_uninit : Pit → Pit
i8254_uninit s = record s { irq = remove_irq_handler i8254_irqno s.i8254.irq_handler s.irq }

unfoldable pub i8254_install_timer : ℕ → Pit → Option Pit
i8254_install_timer freq s =
    let r =
      wreg_ticks i8254_counter_timer i8254_mode_rategen (i8254_ticks_per_s / freq)
        (s.irq, s.ports) in
    let counters = set s.i8254.counter_freq i8254_counter_timer freq in
    if freq == 0
    then none
    else some
        (record s { i8254 = record s.i8254 { counter_freq = counters }; irq = r.0; ports = r.1 })
