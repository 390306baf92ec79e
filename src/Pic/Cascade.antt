-- ===== src/Pic/Cascade.antt =====
-- When a change at the second interrupt controller reaches the first one.
use opsys.Base.{
  ℕ, ◌-◌, ◌^◌, ◌<◌, ◌≡◌, refl, ◌≢◌, ◌⊎◌, inl, inr, arith, ◌==◌, ltb, lt→ltb, ne→==, eq→==,
  all_below, all_below_sound, ltb→lt, ◌∷◌, eq-cases, bit_or, bit_or_above, bit_and,
}
use opsys.Pic.{mask_irq, unmask_irq, update_imr, bit_of, pic1_data, pic2_data}
use opsys.Ports.{Device, History, out, inp, char_of}

-- The events of an update of the mask `b` of the controller at `port` to the mask `imr`.
abbrev pub updated : ℕ → ℕ → ℕ → History → History
updated port b imr h = out port (char_of imr) ∷ inp port b ∷ h

high_bit_pos : (irqno : ℕ) → irqno < 16 → 0 < char_of (2 ^ (irqno - 8))
unfolding all_below
high_bit_pos irqno h =
    ltb→lt 0 _ (all_below_sound 16 (λ i. ltb 0 (char_of (2 ^ (i - 8)))) irqno refl h)

-- With a line of the second controller, `mask_irq` sets the bit of the line in the mask of that
-- controller and never touches the first one, whatever the mask is; `unmask_irq` clears the bit,
-- and then also clears bit 2 in the mask of the first controller if and only if the new mask of
-- the second one is not 0.
pub cascade_lem :
    (device : Device) (irqno : ℕ) (h : History)
    → 7 < irqno
    → irqno < 16
    → let b = char_of (device h pic2_data) in
      let cleared = bit_and b (255 - bit_of irqno) in
      let second = updated pic2_data b cleared h in
      let c = char_of (device second pic1_data) in
      (mask_irq device irqno h ≡ updated pic2_data b (bit_or b (bit_of irqno)) h)
      × ((cleared ≡ 0) × (unmask_irq device irqno h ≡ second)
          ⊎ (cleared ≢ 0)
            × (unmask_irq device irqno h ≡ updated pic1_data c (bit_and c (255 - bit_of 2)) second))
unfolding mask_irq unmask_irq update_imr
cascade_lem device irqno h above below =
    let b = char_of (device h pic2_data) in
    let bit = char_of (2 ^ (irqno - 8)) in
    let slave = lt→ltb 7 irqno above in
    let pos = high_bit_pos irqno below in
    let kept : (bit_or b bit == 0) ≡ _ =
      ne→== _ 0 (λ e. omega (arith, e, bit_or_above b bit, pos)) in
    rw slave (
      rw kept refl,
      elim (eq-cases (bit_and b (255 - bit)) 0) [
        | inl e ↦ inl (e, rw (eq→== _ 0 e) refl)
        | inr ne ↦ inr (ne, rw (ne→== _ 0 ne) refl)
      ],
    )
