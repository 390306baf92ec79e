-- ===== src/Pic/Examples.antt =====
-- Line 9 of the second controller on a device that reads every register as 0xfd: that line is the
-- only open one.
use opsys.Base.{ℕ, ◌≡◌, ◌≢◌, ◌⊎◌, arith, []}
use opsys.Pic.Cascade.{cascade_lem, updated}
use opsys.Pic.{mask_irq, unmask_irq, pic1_data, pic2_data}
use opsys.Ports.{Device, History}

abbrev device : Device
device h port = 0xfd

-- The mask after bit 1 was cleared, which it was already.
abbrev imr : ℕ
imr = 0xfd

abbrev closed : History
closed = updated pic2_data 0xfd 0xff []

abbrev opened : History
opened = updated pic2_data 0xfd 0xfd []

cascade_example :
    (mask_irq device 9 [] ≡ closed)
    × ((imr ≡ 0) × (unmask_irq device 9 [] ≡ opened)
        ⊎ (imr ≢ 0) × (unmask_irq device 9 [] ≡ updated pic1_data 0xfd 0xf9 opened))
cascade_example = cascade_lem device 9 [] (omega arith) (omega arith)
