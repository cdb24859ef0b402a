-- ===== src/Handlers/Order.antt =====
-- Interrupts and `sleep` of kernel/system.c: which handlers are called, and in which order.
use toutatis.Common.{
  ℕ, zero, suc, ◌+◌, ◌%◌, ◌^◌, ◌≤◌, ◌<◌, ◌≡◌, ◌⊎◌, inl, inr, refl, ◌∙◌, ap, arith, Bool, true,
  false, not, ◌&&◌, ◌||◌, Bool-cases, Option, none, some, List, [], ◌∷◌, ◌++◌, length, ◌==◌, ltb,
  leb, if◌then◌else◌,
}
use native.Mathlib.Decide.{dec_lt}
use toutatis.Handlers.{Row, get_interrupt_handler}
use toutatis.Handlers.Chain.{IsChain, first}
use toutatis.Common.Bits.{bit, bit-lt}
use toutatis.Pic.{pic_acknowledge}
use toutatis.Pic.Masks.{pic_acknowledge-writes}
use toutatis.Scheduler.{Sched, schedule_tick}
use toutatis.Handlers.Dispatch.{
  Machine, irq_vector, returned, halted, Cycles, run_handlers, must_stop, isr_handler, tick,
  irq_handler, sleep_loop, sleep,
}

-- The slots `xs` hold the handlers of the row, first to last.
pub record Lists (r : Row) (xs : List ℕ) : Type 0 where
  pub chain : IsChain r none xs
  pub start : get_interrupt_handler r ≡ first xs

-- Without handlers or for these vectors the kernel stops.
abbrev pub is_fatal : List ℕ → ℕ → Bool
is_fatal [] int_no = true
is_fatal (x ∷ xs) int_no = int_no == 8 || leb 32 int_no && not (int_no == 128)

module _ {W : Type 0} (call : ℕ → ℕ → Machine W → Machine W) where
  -- One call for each slot, in the order of the list.
  unfoldable pub calls : Row → ℕ → List ℕ → Machine W → Machine W
  calls r regs [] m = m
  calls r regs (x ∷ xs) m = calls r regs xs (call (r.handler x) regs m)

  -- No handler changes the row.
  abbrev pub Keeps : ℕ → Type 0
  Keeps num = (v regs : ℕ) (m : Machine W) → (call v regs m).rows num ≡ m.rows num

  run_handlers-calls :
      (fuel num regs : ℕ) (r : Row) (p : Option ℕ) (xs : List ℕ) (m : Machine W)
      → Keeps num
      → IsChain r p xs
      → m.rows num ≡ r
      → length xs ≤ fuel
      → run_handlers call fuel num regs (first xs) m ≡ some (calls r regs xs m)
  unfolding run_handlers calls
  run_handlers-calls fuel num regs r p [] m keeps chain e h = refl
  run_handlers-calls zero num regs r p (x ∷ xs) m keeps chain e h = absurd (omega arith)
  run_handlers-calls (suc fuel) num regs r p (x ∷ xs) m keeps (used, back, forth, apart, rest) e h =
      let m1 = call (r.handler x) regs m in
      let row : m1.rows num ≡ r = keeps (r.handler x) regs m ∙ e in
      rw (e, row, forth)
        (run_handlers-calls fuel num regs r (some x) xs m1 keeps rest row (omega arith))

  must_stop-is_fatal :
      (xs : List ℕ) (int_no : ℕ) → must_stop call (first xs) int_no ≡ is_fatal xs int_no
  unfolding must_stop
  must_stop-is_fatal [] int_no = refl
  must_stop-is_fatal (x ∷ xs) int_no = refl

  -- Every handler of an exception is called once, in the order of the list, and then the kernel goes on
  -- where it was, or stops.
  pub isr_handler-calls :
      (fuel regs int_no : ℕ) (xs : List ℕ) (m : Machine W)
      → Keeps (int_no % 256)
      → Lists (m.rows (int_no % 256)) xs
      → length xs ≤ fuel
      → isr_handler call fuel regs int_no m
        ≡ some (
            if is_fatal xs int_no
            then halted (calls (m.rows (int_no % 256)) regs xs m)
            else returned regs (calls (m.rows (int_no % 256)) regs xs m))
  unfolding isr_handler
  isr_handler-calls fuel regs int_no xs m keeps lists h =
      let run =
        run_handlers-calls fuel (int_no % 256) regs (m.rows (int_no % 256)) none xs m keeps
          lists.chain refl h in
      let stop : must_stop call (get_interrupt_handler (m.rows (int_no % 256))) int_no
          ≡ is_fatal xs int_no =
        ap (λ h. must_stop call h int_no) lists.start ∙ must_stop-is_fatal xs int_no in
      rw (lists.start, run, isr_handler, stop) refl

  -- What the timer's part of an interrupt leaves: the scheduler's result, or nothing is changed.
  abbrev pub Ticked : ℕ → ℕ → ℕ → Cycles → Machine W → ℕ → Sched → Type 0
  Ticked fuel regs irq c m esp s =
      ((irq ≡ 0)
        × (m.scheduling ≡ true)
        × (schedule_tick fuel m.sched regs c.start c.now c.end ≡ some (esp, s)))
      ⊎ (((m.scheduling && irq == 0) ≡ false) × (esp ≡ regs) × (s ≡ m.sched))

  tick-Ticked :
      (fuel regs irq : ℕ) (c : Cycles) (m : Machine W) (esp : ℕ) (s : Sched)
      → Ticked fuel regs irq c m esp s
      → tick call fuel regs irq c m ≡ some (esp, record m { sched = s })
  unfolding tick
  tick-Ticked fuel regs irq c m esp s (inl (z, on, run)) =
      let timer : (m.scheduling && irq == 0) ≡ true = rw (on, z) refl in rw (timer, run) refl
  tick-Ticked fuel regs irq c m esp s (inr (other, e, f)) = rw (other, e, f) refl

  irq_handler-dispatch :
      (fuel regs irq master slave : ℕ) (c : Cycles) (xs : List ℕ) (m : Machine W) (esp : ℕ)
      (s : Sched)
      → irq < 16
      → Keeps (irq_vector irq)
      → Lists (m.rows (irq_vector irq)) xs
      → length xs ≤ fuel
      → Ticked fuel regs irq c m esp s
      → irq_handler call fuel regs irq master slave c m
        ≡ some (
            if not ((pic_acknowledge m.pic master slave irq).1 == 0)
            then (regs, record m { pic = (pic_acknowledge m.pic master slave irq).0 })
            else (
              esp,
              calls
                  (m.rows (irq_vector irq))
                  regs
                  xs
                  (record m { pic = (pic_acknowledge m.pic master slave irq).0; sched = s }),
            ))
  unfolding irq_handler
  irq_handler-dispatch fuel regs irq master slave c xs m esp s low keeps lists h ticked =
      let (pic1, spurious) = pic_acknowledge m.pic master slave irq in
      let m1 : Machine W = record m { pic = pic1 } in
      let m2 : Machine W = record m { pic = pic1; sched = s } in
      let vector : irq_vector irq % 256 ≡ irq_vector irq = omega arith in
      let run =
        run_handlers-calls fuel (irq_vector irq) regs (m.rows (irq_vector irq)) none xs m2 keeps
          lists.chain refl h in
      let t = tick-Ticked fuel regs irq c m1 esp s ticked in
      elim (Bool-cases (not (spurious == 0))) [
        | inl yes_spurious ↦ rw yes_spurious refl
        | inr not_spurious ↦ rw (not_spurious, t, irq_handler, vector, lists.start, run) refl
      ]

  -- Interrupt 7 without its bit in the byte of the first controller only counts as a bad one, and 15
  -- without its bit in the byte of the second one counts and is answered by 0x20 at the first
  -- controller's port 0x20; then nothing else happens. Any other interrupt is answered by 0x20 at port
  -- 0xa0 if it is 8 or above, and then at port 0x20; the timer's calls the scheduler, which gives the
  -- stack pointer to go on with, and every handler is called once, in the order of the list. No handler
  -- changes the row, and the scheduler ends.
  pub irq_handler-calls :
      (fuel regs irq master slave : ℕ) (c : Cycles) (xs : List ℕ) (m : Machine W) (esp : ℕ)
      (s : Sched)
      → irq < 16
      → master < 256
      → slave < 256
      → Keeps (irq_vector irq)
      → Lists (m.rows (irq_vector irq)) xs
      → length xs ≤ fuel
      → Ticked fuel regs irq c m esp s
      → irq_handler call fuel regs irq master slave c m
        ≡ some (
            if irq == 7 && bit master 7 == 0
            then (
              regs,
              record m { pic = record m.pic { bad_irqs = (m.pic.bad_irqs + 1) % 2 ^ 32 } },
            )
            else if irq == 15 && bit slave 7 == 0
            then (
              regs,
              record m {
                pic = record m.pic {
                  bad_irqs = (m.pic.bad_irqs + 1) % 2 ^ 32;
                  writes = m.pic.writes ++ ((32, 32) ∷ []);
                };
              },
            )
            else (
              esp,
              calls (m.rows (irq_vector irq)) regs xs (record m {
                pic = record m.pic {
                  writes =
                      (if leb 8 irq then m.pic.writes ++ ((160, 32) ∷ []) else m.pic.writes)
                      ++ ((32, 32) ∷ []);
                };
                sched = s;
              }),
            ))
  irq_handler-calls fuel regs irq master slave c xs m esp s low hm hs keeps lists h ticked =
      let run =
        irq_handler-dispatch fuel regs irq master slave c xs m esp s low keeps lists h ticked in
      let (first_bad, second_bad, raised) = pic_acknowledge-writes m.pic master slave irq hm hs in
      elim (Bool-cases (irq == 7 && bit master 7 == 0)) [
        | inl a ↦ let ack = first_bad (ground arith) (ground arith) in rw a (rw ack at run)
        | inr a ↦ elim (Bool-cases (irq == 15 && bit slave 7 == 0)) [
          | inl b ↦ let ack = second_bad (ground arith) (ground arith) in rw (a, b) (rw ack at run)
          | inr b ↦
              let ack =
                raised (λ e. let below = bit-lt master 7 in ground arith)
                  (λ e. let below = bit-lt slave 7 in ground arith) in
              rw (a, b) (rw ack at run)
        ]
      ]

sleep_loop-rounds :
    (left fuel k current until : ℕ) (ticks : ℕ → ℕ)
    → ((j : ℕ) → ticks j ≡ (current + j) % 2 ^ 32)
    → until < 2 ^ 32
    → current + k + left ≡ until
    → left < fuel
    → sleep_loop fuel ticks until k ≡ some (k + left)
unfolding sleep_loop
sleep_loop-rounds left zero k current until ticks one low e h = absurd (omega arith)
sleep_loop-rounds zero (suc fuel) k current until ticks one low e h =
    let over : ltb (ticks k) until ≡ false = rw (one k) (ground arith) in
    let z : k + 0 ≡ k = omega arith in rw (over, z) refl
sleep_loop-rounds (suc left) (suc fuel) k current until ticks one low e h =
    let more : ltb (ticks k) until ≡ true = rw (one k) (ground arith) in
    let next : k + 1 + left ≡ k + suc left = omega arith in
    rw more (
      rw next at (
        sleep_loop-rounds left fuel (k + 1) current until ticks one low (omega arith)
          (omega arith)))

sleep_loop-over :
    (fuel current until : ℕ) (ticks : ℕ → ℕ)
    → ticks 0 ≡ current
    → until ≤ current
    → 0 < fuel
    → sleep_loop fuel ticks until 0 ≡ some 0
unfolding sleep_loop
sleep_loop-over zero current until ticks e le h = absurd (omega arith)
sleep_loop-over (suc fuel) current until ticks e le h =
    let over : ltb (ticks 0) until ≡ false = rw e (ground arith) in rw over refl

-- With one tick in each round `sleep` ends after `ms` rounds, but at once if the sum of the counter and
-- `ms` wraps around.
pub sleep-rounds :
    (fuel current ms : ℕ) (ticks : ℕ → ℕ)
    → ((j : ℕ) → ticks j ≡ (current + j) % 2 ^ 32)
    → current < 2 ^ 32
    → ms < 2 ^ 32
    → ms < fuel
    → sleep fuel ticks current ms ≡ some (if ltb (current + ms) (2 ^ 32) then ms else 0)
unfolding sleep
sleep-rounds fuel current ms ticks one low small h = elim (dec_lt (current + ms) (2 ^ 32)) [
  | yes fits ↦
      let e : (current + ms) % 2 ^ 32 ≡ current + ms = omega arith in
      let t : ltb (current + ms) (2 ^ 32) ≡ true = ground arith in
      let z : 0 + ms ≡ ms = omega arith in
      rw (e, t)
        (rw z at
          (sleep_loop-rounds ms fuel 0 current (current + ms) ticks one fits (omega arith) h))
  | no wraps ↦
      let t : ltb (current + ms) (2 ^ 32) ≡ false = ground arith in
      rw t (
        sleep_loop-over fuel current ((current + ms) % 2 ^ 32) ticks (one 0 ∙ omega arith)
          (omega arith) (omega arith))
]
