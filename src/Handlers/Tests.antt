-- ===== src/Handlers/Tests.antt =====
-- Runs of the interrupt handler table and witnesses of its properties.
use toutatis.Common.{
  ℕ, ◌+◌, ◌%◌, ◌^◌, ◌≡◌, inr, true, List, refl, arith, Option, none, some, [], ◌∷◌, ◌==◌,
  if◌then◌else◌,
}
use toutatis.Common.Store.{update}
use toutatis.Handlers.{
  Row, tail, attach_interrupt_handler, detach_back, detach_interrupt_handler, get_interrupt_handler,
  max_handlers,
}
use toutatis.Common.Bits.{bit}
use toutatis.Handlers.Chain.{IsChain}
use toutatis.Handlers.Dispatch.{Machine, halted, Cycles, isr_handler, irq_handler, sleep}
use toutatis.Handlers.Order.{Lists, calls, isr_handler-calls, irq_handler-calls, sleep-rounds}
use toutatis.Threads.{zero_thread}
use toutatis.Handlers.Attach.{
  Attached, attach_interrupt_handler-Attached, detach_interrupt_handler-lost,
}

-- One handler, in slot 1.
abbrev single : Row
single = record {
  handler = λ i. if i == 1 then 700 else 0;
  index = λ i. 1;
  next = λ i. none;
  prev = λ i. none;
  head = 1;
}

single-IsChain : IsChain single none (1 ∷ [])
single-IsChain = (λ e. absurd (omega arith), refl, refl, tt, tt)

-- Two handlers attached to an empty row stand in the slots 0 and 1; when the first is detached the head
-- is slot 1.
abbrev then_get : Option Row → Option ℕ
then_get none = none
then_get (some r) = get_interrupt_handler r

abbrev then_detach : Option Row → ℕ → Option Row
then_detach none h = none
then_detach (some r) h = detach_interrupt_handler r h

abbrev then_attach : Option Row → ℕ → Option Row
then_attach none h = none
then_attach (some r) h = attach_interrupt_handler r h

abbrev empty : Row
empty = record { handler = λ i. 0; index = λ i. 0; next = λ i. none; prev = λ i. none; head = 0 }

detach_run : then_get (then_detach (then_attach (attach_interrupt_handler empty 7) 9) 7) ≡ some 1
unfolding attach_interrupt_handler detach_interrupt_handler detach_back get_interrupt_handler tail
    update toutatis.Handlers.free_slot toutatis.Handlers.place_first toutatis.Handlers.place_behind
detach_run = refl

attach_interrupt_handler-Attached_example :
    (r' : Row) × (attach_interrupt_handler single 9 ≡ some r') × Attached single 9 [] r'
attach_interrupt_handler-Attached_example =
    attach_interrupt_handler-Attached single 9 [] single-IsChain (omega arith)
      (λ e. absurd (omega arith))

detach_interrupt_handler-lost_example :
    (r1 : Row) × (detach_interrupt_handler single 700 ≡ some r1)
    × ((r2 : Row) × (attach_interrupt_handler r1 9 ≡ some r2)
        × (r2.handler 0 ≡ 9)
        × (get_interrupt_handler r2 ≡ none))
detach_interrupt_handler-lost_example = detach_interrupt_handler-lost single 9 single-IsChain refl

-- The handlers of the keyboard's vector write their addresses down.
abbrev note : ℕ → ℕ → Machine (List ℕ) → Machine (List ℕ)
note v regs m = record m { world = v ∷ m.world }

abbrev idle : Machine (List ℕ)
idle = record {
  rows = λ v. if v == 33 then single else empty;
  pic = record { mask_master = 251; mask_slave = 255; bad_irqs = 0; writes = [] };
  sched = record {
    threads = λ p. zero_thread;
    current_thread = 0;
    kernel_thread = 0;
    num_threads = 0;
    freed = [];
    esp0 = 0;
    current_directory = 0;
    old_cycles_count = 0;
  };
  scheduling = true;
  world = [];
}

abbrev no_cycles : Cycles
no_cycles = record { start = 0; now = 0; end = 0 }

single-Lists : Lists single (1 ∷ [])
unfolding get_interrupt_handler
single-Lists = record { chain = single-IsChain; start = refl }

irq_handler-calls_example :
    irq_handler note 5 4096 1 2 0 no_cycles idle
    ≡ some (
      4096,
      record idle {
        pic = record { mask_master = 251; mask_slave = 255; bad_irqs = 0; writes = (32, 32) ∷ [] };
        world = 700 ∷ [];
      },
    )
unfolding calls bit
irq_handler-calls_example =
    irq_handler-calls note 5 4096 1 2 0 no_cycles (1 ∷ []) idle 4096 idle.sched (omega arith)
      (omega arith) (omega arith) (λ v regs m. refl) single-Lists (omega arith)
      (inr (refl, refl, refl))

isr_handler-calls_example :
    isr_handler note 5 4096 33 idle ≡ some (halted (record idle { world = 700 ∷ [] }))
unfolding calls
isr_handler-calls_example =
    isr_handler-calls note 5 4096 33 (1 ∷ []) idle (λ v regs m. refl) single-Lists (omega arith)

sleep-rounds_example : sleep 10 (λ j. (4294967290 + j) % 2 ^ 32) 4294967290 8 ≡ some 0
sleep-rounds_example =
    sleep-rounds 10 4294967290 8 (λ j. (4294967290 + j) % 2 ^ 32) (λ j. refl) (omega arith)
      (omega arith) (omega arith)
