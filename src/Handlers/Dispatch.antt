-- ===== src/Handlers/Dispatch.antt =====
-- `isr_handler` and `irq_handler` of kernel/system.c: the handlers of a vector are called in the order of
-- the list. What a handler does is an argument, `call`: its address, that of the registers, and the
-- machine; `W` is the part of the machine that only the handlers know. With these the functions of
-- kernel/system.c that pass a call on to the interrupt controller and the timer.
use toutatis.Common.{
  ℕ, zero, suc, ◌+◌, ◌%◌, ◌^◌, Bool, true, not, ◌&&◌, ◌||◌, Option, none, some, ◌==◌, ltb, leb,
  if◌then◌else◌,
}
use toutatis.Handlers.{Row, get_interrupt_handler}
use toutatis.Pic.{
  Pic, Pit, pic_acknowledge, pic_enable_irq, pic_disable_irq, pic_disable, pit_get_ticks,
}
use toutatis.Scheduler.{Sched, schedule_tick}

-- One row of handlers for each vector.
pub record Machine (W : Type 0) : Type 0 where
  pub rows : ℕ → Row
  pub pic : Pic
  pub sched : Sched
  pub scheduling : Bool
  pub world : W

-- `IRQ(x)` and SYSCALL_VECTOR
abbrev pub irq_vector : ℕ → ℕ
irq_vector x = x + 32

abbrev pub syscall_number : ℕ
syscall_number = 128

-- How an interrupt ends: with a stack pointer to go on with, or never.
pub data Outcome (W : Type 0) : Type 0 where
  returned : ℕ → Machine W → Outcome W
  halted : Machine W → Outcome W

-- The cycle counter as `schedule_tick` reads it.
pub record Cycles : Type 0 where
  pub start : ℕ
  pub now : ℕ
  pub end : ℕ

unfoldable pub enable_irq : Pic → ℕ → Pic
enable_irq s irq = pic_enable_irq s irq

unfoldable pub disable_irq : Pic → ℕ → Pic
disable_irq s irq = pic_disable_irq s irq

unfoldable pub disable_irqs : Pic → Pic
disable_irqs s = pic_disable s

unfoldable pub get_ticks_count : Pit → ℕ
get_ticks_count p = pit_get_ticks p

module _ {W : Type 0} (call : ℕ → ℕ → Machine W → Machine W) where
  -- `while (h) { h->handler(regs); h = h->next; }`; `none` means that the fuel ran out.
  unfoldable pub run_handlers : ℕ → ℕ → ℕ → Option ℕ → Machine W → Option (Machine W)
  run_handlers fuel num regs none m = some m
  run_handlers zero num regs (some h) m = none
  run_handlers (suc fuel) num regs (some h) m =
      let m1 = call ((m.rows num).handler h) regs m in
      run_handlers fuel num regs ((m1.rows num).next h) m1

  -- Without a handler, for a double fault, and for a vector that no exception has.
  unfoldable pub must_stop : Option ℕ → ℕ → Bool
  must_stop none int_no = true
  must_stop (some h) int_no =
      int_no == 8 || leb (irq_vector 0) int_no && not (int_no == syscall_number)

  unfoldable pub isr_handler : ℕ → ℕ → ℕ → Machine W → Option (Outcome W)
  isr_handler fuel regs int_no m =
      let h = get_interrupt_handler (m.rows (int_no % 256)) in
      elim (run_handlers fuel (int_no % 256) regs h m) [
        | none ↦ none
        | some m1 ↦ some (if must_stop h int_no then halted m1 else returned regs m1)
      ]

  -- The scheduler's part of an interrupt, for the timer.
  unfoldable pub tick : ℕ → ℕ → ℕ → Cycles → Machine W → Option (ℕ × Machine W)
  tick fuel regs irq c m =
      if m.scheduling && irq == 0
      then elim (schedule_tick fuel m.sched regs c.start c.now c.end) [
        | none ↦ none
        | some (esp, s) ↦ some (esp, record m { sched = s })
      ]
      else some (regs, m)

  -- `master` and `slave` are the in-service bytes of the interrupt controllers. The result is the stack
  -- pointer to go on with.
  unfoldable pub irq_handler : ℕ → ℕ → ℕ → ℕ → ℕ → Cycles → Machine W → Option (ℕ × Machine W)
  irq_handler fuel regs irq master slave c m =
      let (pic1, spurious) = pic_acknowledge m.pic master slave irq in
      let m1 : Machine W = record m { pic = pic1 } in
      if not (spurious == 0) then some (regs, m1) else elim (tick fuel regs irq c m1) [
        | none ↦ none
        | some (esp, m2) ↦
            elim (run_handlers fuel (irq_vector irq % 256) regs
              (get_interrupt_handler (m2.rows (irq_vector irq % 256))) m2) [
                | none ↦ none
                | some m3 ↦ some (esp, m3)
              ]
      ]

-- `current + ms` is a word. `ticks k` is the counter at the test of round `k`; the result is the number
-- of rounds.
unfoldable pub sleep_loop : ℕ → (ℕ → ℕ) → ℕ → ℕ → Option ℕ
sleep_loop zero ticks until k = none
sleep_loop (suc fuel) ticks until k =
    let rest = sleep_loop fuel ticks until (k + 1) in if ltb (ticks k) until then rest else some k

unfoldable pub sleep : ℕ → (ℕ → ℕ) → ℕ → ℕ → Option ℕ
sleep fuel ticks current ms = sleep_loop fuel ticks ((current + ms) % 2 ^ 32) 0
