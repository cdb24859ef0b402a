-- ===== src/Pic.antt =====
-- The interrupt controllers, kernel/pic.c, and the timer, kernel/pit.c. The mask registers of the two
-- controllers are bytes that are read back as they were written.
pub mod Masks
mod Tests
use toutatis.Common.{
  ℕ, zero, suc, ◌+◌, ◌-◌, ◌*◌, ◌/◌, ◌%◌, ◌^◌, Bool, true, false, ◌&&◌, ◌||◌, List, [], ◌∷◌, ◌++◌,
  ◌==◌, ltb, leb, if◌then◌else◌,
}
use toutatis.Common.Bits.{bit, set_bit, clear_bit}

-- `writes` are the values written to the command and data ports of an initialization and of an
-- acknowledgement, first to last.
pub record Pic : Type 0 where
  pub mask_master : ℕ
  pub mask_slave : ℕ
  pub bad_irqs : ℕ
  pub writes : List (ℕ × ℕ)

abbrev pub pic_master_ctrl : ℕ
pic_master_ctrl = 32

abbrev pub pic_slave_ctrl : ℕ
pic_slave_ctrl = 160

abbrev pub pic_master_data : ℕ
pic_master_data = 33

abbrev pub pic_slave_data : ℕ
pic_slave_data = 161

abbrev pub pic_eoi : ℕ
pic_eoi = 32

abbrev pub write_port : Pic → ℕ → ℕ → Pic
write_port s port value = record s { writes = s.writes ++ ((port, value) ∷ []) }

-- `mask` joins two bytes with no digit in common; each is written back with its low 8 bits. The vectors
-- are moved to 32 and 40.
pub pic_remap : Pic → Pic
pic_remap s =
    let mask = s.mask_master + s.mask_slave * 256 in
    let s1 = write_port (write_port s pic_master_ctrl 17) pic_slave_ctrl 17 in
    let s2 = write_port (write_port s1 pic_master_data 32) pic_slave_data 40 in
    let s3 = write_port (write_port s2 pic_master_data 4) pic_slave_data 2 in
    let s4 = write_port (write_port s3 pic_master_data 1) pic_slave_data 1 in
    record s4 { mask_master = mask % 256; mask_slave = mask / 256 % 256 }

-- All lines but 2, where the second controller stands.
pub pic_disable : Pic → Pic
pic_disable s = record s { mask_master = 251; mask_slave = 255 }

pub pic_disable_irq : Pic → ℕ → Pic
pic_disable_irq s irq =
    if ltb irq 8
    then record s { mask_master = set_bit s.mask_master irq }
    else record s { mask_slave = set_bit s.mask_slave (irq - 8) }

pub pic_enable_irq : Pic → ℕ → Pic
pic_enable_irq s irq =
    if ltb irq 8
    then record s { mask_master = clear_bit s.mask_master irq }
    else record s { mask_slave = clear_bit s.mask_slave (irq - 8) }

-- The in-service register: the second controller's byte above the first one's.
unfoldable pub pic_get_isr : ℕ → ℕ → ℕ
pic_get_isr master slave = slave * 256 + master

unfoldable pub pic_is_spurious_seven : ℕ → ℕ → Bool
unfolding pic_get_isr
pic_is_spurious_seven master slave = bit (pic_get_isr master slave) 7 == 0

unfoldable pub pic_is_spurious_fifteen : ℕ → ℕ → Bool
unfolding pic_get_isr
pic_is_spurious_fifteen master slave = bit (pic_get_isr master slave) 15 == 0

-- `master` and `slave` are the in-service bytes that the controllers return. The number is 1 for an
-- interrupt that nothing raised.
unfoldable pub pic_acknowledge : Pic → ℕ → ℕ → ℕ → Pic × ℕ
unfolding pic_is_spurious_seven pic_is_spurious_fifteen
pic_acknowledge s master slave irq =
    let bad = (s.bad_irqs + 1) % 2 ^ 32 in
    if irq == 7 && pic_is_spurious_seven master slave
    then (record s { bad_irqs = bad }, 1)
    else (if irq == 15 && pic_is_spurious_fifteen master slave
        then (record (write_port s pic_master_ctrl pic_eoi) { bad_irqs = bad }, 1)
        else (let s1 = if leb 8 irq then write_port s pic_slave_ctrl pic_eoi else s in
            (write_port s1 pic_master_ctrl pic_eoi, 0)))

pub pic_get_bad_irqs : Pic → ℕ
pic_get_bad_irqs s = s.bad_irqs

-- The timer: the ticks, and the two bytes of the divisor that it was given.
pub record Pit : Type 0 where
  pub ticks : ℕ
  pub divisor_low : ℕ
  pub divisor_high : ℕ

pub pit_handler : Pit → Pit
pit_handler p = record p { ticks = (p.ticks + 1) % 2 ^ 32 }

-- The handler is attached and line 0 enabled; a frequency of 0 changes nothing.
pub pit_init : Pit → Pic → ℕ → Pit × Pic
unfolding pic_enable_irq
pit_init p s freq =
    if freq == 0
    then (p, s)
    else (let divisor = 1193182 / freq % 2 ^ 16 in
        (
          record { ticks = 0; divisor_low = divisor % 256; divisor_high = divisor / 256 % 256 },
          pic_enable_irq s 0,
        ))

pub pit_get_ticks : Pit → ℕ
pit_get_ticks p = p.ticks

pub pit_set_ticks : Pit → ℕ → Pit
pit_set_ticks p val = record p { ticks = val }
