-- ===== src/I8254/Rate.antt =====
-- The rate of the timer's interrupts and the time that they count.
use opsys.Base.{
  ℕ, ◌+◌, ◌*◌, ◌/◌, ◌%◌, ◌^◌, ◌≤◌, ◌<◌, ◌≡◌, refl, ◌≢◌, arith, ne→==, some, List, ◌∷◌, ◌++◌, get_or,
  set, bit_and, bit_and_255, bit_and_high_byte, get_or-set_self, length, Bool, true, false,
}
use native.Mathlib.Nat.{mul-div-le, div-add-mod, mod-lt, mul-le-mul_right, mul_comm}
use opsys.Irq.{Irq, cli_if_on, sti_if_on}
use opsys.LinkedList.Chain.{IsRing}
use opsys.I8254.{
  Pit, wreg_ticks, i8254_install_timer, irq_handler_func, i8254_ticks_per_s, i8254_counter_timer,
  i8254_mode_rategen, ns_per_s, i8254_cmd,
}
use opsys.Ports.{out}
use opsys.Timer.Handle.{Fired, OneShots, Waits, handle_timeout-Fired}

flag_kept : (irq : Irq) → let saved = cli_if_on irq in sti_if_on saved.0 saved.1 ≡ irq
unfolding cli_if_on sti_if_on
flag_kept irq = go irq.ints
  where
    go :
        (ints : Bool)
        → let s = record irq { ints = ints } in
          let saved = cli_if_on s in sti_if_on saved.0 saved.1 ≡ s
    go true = refl
    go false = refl

-- For a frequency from 19 Hz on, `i8254_install_timer` writes the control word and two bytes, low
-- byte first, that make the largest number of ticks with which the timer is not slower than asked;
-- it keeps the frequency and leaves the interrupt flag and the rest of the handlers' state.
pub i8254_install_timer_lem :
    (freq : ℕ) (s : Pit)
    → 19 ≤ freq
    → 0 < length s.i8254.counter_freq
    → (lsb : ℕ) × (msb : ℕ) × (t : Pit) × (i8254_install_timer freq s ≡ some t)
      × (t.ports ≡ out 0x40 msb ∷ out 0x40 lsb ∷ out i8254_cmd 0x34 ∷ s.ports)
      × ((lsb + 256 * msb) * freq ≤ i8254_ticks_per_s)
      × (i8254_ticks_per_s < (lsb + 256 * msb + 1) * freq)
      × (get_or t.i8254.counter_freq 0 0 ≡ freq)
      × (t.irq ≡ s.irq)
unfolding i8254_install_timer wreg_ticks
i8254_install_timer_lem freq s h k =
    let positive : 0 < freq = omega arith in
    let q = i8254_ticks_per_s / freq in
    let low : freq * q ≤ i8254_ticks_per_s = mul-div-le i8254_ticks_per_s freq in
    let high : i8254_ticks_per_s < freq * q + freq =
      omega (arith, div-add-mod i8254_ticks_per_s freq, mod-lt i8254_ticks_per_s positive) in
    let fits : q < 2 ^ 16 = omega (arith, mul-le-mul_right q h) in
    let whole : q % 2 ^ 16 ≡ q = omega arith in
    let lsb = bit_and (q % 2 ^ 16) 0xff % 2 ^ 8 % 2 ^ 8 in
    let msb = bit_and (q % 2 ^ 16) 0xff00 / 2 ^ 8 % 2 ^ 8 % 2 ^ 8 in
    let joined : lsb + 256 * msb ≡ q =
      rw whole (omega (arith, bit_and_255 q, bit_and_high_byte q)) in
    let written = wreg_ticks i8254_counter_timer i8254_mode_rategen q (s.irq, s.ports) in
    let counters = set s.i8254.counter_freq 0 freq in
    let t = record s {
      i8254 = record s.i8254 { counter_freq = counters };
      irq = written.0;
      ports = written.1;
    } in
    (
      lsb,
      msb,
      t,
      rw (ne→== freq 0 (λ e. omega (arith, e))) refl,
      refl,
      rw joined (omega (arith, mul_comm q freq)),
      rw joined (omega (arith, mul_comm (q + 1) freq, high)),
      get_or-set_self s.i8254.counter_freq 0 freq 0 k,
      flag_kept s.irq,
    )

abbrev pub timer_freq : Pit → ℕ
timer_freq s = get_or s.i8254.counter_freq 0 0

-- The time stamp of the driver after one more interrupt.
abbrev pub next_stamp : Pit → ℕ
next_stamp s = (s.i8254.timestamp + ns_per_s / timer_freq s) % 2 ^ 32

-- At a frequency that is not 0, the interrupt handler of the driver advances its time stamp by one
-- period modulo 2^32 and runs exactly the alarms `xs` at the front of its list, in order, where
-- each of them has expired at the new stamp and asks for no other call, and the next one waits;
-- the alarms behind that one are not looked at. With fuel above the number of `xs` it ends, and it changes neither handlers nor ports nor frequencies.
pub irq_handler_func-Fired :
    (func : ℕ → ℕ) (fuel : ℕ) (s : Pit) (xs ys : List ℕ)
    → timer_freq s ≢ 0
    → IsRing s.timer.links s.timer.head (xs ++ ys)
    → OneShots func s.timer.stamp (next_stamp s) xs
    → Waits s.timer.stamp (next_stamp s) ys
    → length xs < fuel
    → (t : Pit) × (irq_handler_func func fuel s ≡ some t)
      × Fired s.timer (next_stamp s) xs ys (some t.timer)
      × (t.i8254.timestamp ≡ next_stamp s)
      × (t.i8254.counter_freq ≡ s.i8254.counter_freq)
      × (t.irq ≡ s.irq)
      × (t.ports ≡ s.ports)
unfolding irq_handler_func
irq_handler_func-Fired func fuel s xs ys ne ring one wait enough =
    let now = next_stamp s in
    let fired = handle_timeout-Fired func now fuel s.timer xs ys ring one wait enough in
    let t : Pit = record s { i8254 = record s.i8254 { timestamp = now }; timer = fired.t' } in
    let again : Fired s.timer now xs ys (some fired.t') = record {
      t' = fired.t';
      returns = refl;
      alarms = fired.alarms;
      calls = fired.calls;
      stamps = fired.stamps;
      driver = fired.driver;
    } in
    (t, rw (ne→== (timer_freq s) 0 ne) (rw fired.returns refl), again, refl, refl, refl, refl)
