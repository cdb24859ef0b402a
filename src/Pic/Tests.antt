-- ===== src/Pic/Tests.antt =====
-- Witnesses of the properties of the interrupt controllers and the timer.
use toutatis.Common.{ℕ, []}
use toutatis.Pic.{Pic, Pit}

abbrev closed : Pic
closed = record { mask_master = 251; mask_slave = 255; bad_irqs = 0; writes = [] }

abbrev rate : ℕ
rate = 1000

abbrev line : ℕ
line = 7

abbrev stopped : Pit
stopped = record { ticks = 5; divisor_low = 0; divisor_high = 0 }
