-- ===== src/Syscalls/Exit.antt =====
-- The system call that ends a thread, `thread_exit` of kernel/thread.c behind kernel/syscall.c.
use toutatis.Common.{
  ℕ, ◌<◌, ◌≡◌, ◌≢◌, refl, sym, ◌∙◌, ap, arith, true, false, List, [], ◌∷◌, ◌++◌, length, some, ◌==◌,
}
use toutatis.Common.Store.{update, update_self, update_ne}
use toutatis.Scheduler.{
  Sched, Thread, TaskState, running, finished, is_sleep, is_finished, next_of, prev_of, set_state,
  schedule_tick,
}
use toutatis.Scheduler.Ring.{NotIn}
use toutatis.Scheduler.Links.{IsRing}
use toutatis.Scheduler.Tick.{AllSleep, IsRing-same, member-ne, schedule_tick-Switched}
use toutatis.Threads.{Raised, Tasks, switch_next, thread_exit}
use toutatis.Syscalls.{
  Registers, Kernel, leaves, syscalls, syscall_handler, trap0, syscall_thread_exit,
}

set_state-links :
    (s : Sched) (c y : ℕ) (st : TaskState)
    → (next_of (set_state s c st) y ≡ next_of s y) × (prev_of (set_state s c st) y ≡ prev_of s y)
unfolding set_state update
set_state-links s c y st = (ground arith, ground arith)

set_state_ne :
    (s : Sched) (c y : ℕ) (st : TaskState) → y ≢ c → (set_state s c st).threads y ≡ s.threads y
unfolding set_state
set_state_ne s c y st ne = update_ne s.threads c y (record (s.threads c) { state = st }) ne

set_state_self : (s : Sched) (c : ℕ) (st : TaskState) → ((set_state s c st).threads c).state ≡ st
unfolding set_state
set_state_self s c st =
    ap (λ (t : Thread). t.state) (update_self s.threads c (record (s.threads c) { state = st }))

sleep-on :
    (s : Sched) (c : ℕ) (ys rest : List ℕ)
    → NotIn c (ys ++ rest)
    → AllSleep s ys
    → AllSleep (set_state s c finished) ys
sleep-on s c [] rest out sl = tt
sleep-on s c (y ∷ ys) rest out sl = (
  ap (λ (t : Thread). is_sleep t.state) (set_state_ne s c y finished (λ e. out.0 (sym e))) ∙ sl.0,
  sleep-on s c ys rest out.1 sl.1,
)

exit_run :
    (fuel : ℕ) (irq : Raised) (t : Tasks) (esp : ℕ) (s : Sched)
    → t.scheduling ≡ true
    → schedule_tick fuel
        (set_state t.sched t.sched.current_thread finished)
        irq.regs
        irq.start
        irq.now
        irq.end
      ≡ some (esp, s)
    → thread_exit fuel irq t ≡ some (esp, record t { sched = s })
unfolding thread_exit switch_next
exit_run fuel irq t esp s on run =
    rw (on, run) (ap (λ b. some (esp, record t { sched = s; scheduling = b })) on)

left_for :
    (fuel : ℕ) (irq : Raised) (buffer ret : ℕ) (regs : Registers) (k : Kernel) (esp target : ℕ)
    (t : Tasks)
    → thread_exit fuel irq k.tasks ≡ some (esp, t)
    → esp ≡ target
    → target ≢ irq.regs
    → syscall_thread_exit fuel irq buffer ret regs k
      ≡ some (trap0 0 regs, leaves target (record k { tasks = t }))
unfolding syscall_thread_exit syscall_handler syscalls
left_for fuel irq buffer ret regs k esp target t run e away =
    let gone : (target == irq.regs) ≡ false = ground arith in rw (run, e, gone) refl

-- With the scheduler on, in a ring where the running thread is not the kernel's, and where some thread
-- `x` behind sleeping threads `ys` is awake, with another stack pointer than the registers that the
-- switch saves: the system call thread_exit does not come back. The processor goes on with `x` at its
-- saved stack pointer, `x` runs, the thread that called is out of the ring, and the registers of the
-- call are not changed.
pub syscall_thread_exit-leaves :
    (fuel : ℕ) (irq : Raised) (buffer ret : ℕ) (regs : Registers) (k : Kernel) (x : ℕ)
    (ys zs : List ℕ)
    → k.tasks.scheduling ≡ true
    → IsRing k.tasks.sched k.tasks.sched.current_thread (ys ++ x ∷ zs)
    → AllSleep k.tasks.sched ys
    → is_sleep (k.tasks.sched.threads x).state ≡ false
    → length ys < fuel
    → k.tasks.sched.current_thread ≢ k.tasks.sched.kernel_thread
    → (k.tasks.sched.threads x).esp ≢ irq.regs
    → (s : Sched) × (syscall_thread_exit fuel irq buffer ret regs k
        ≡ some (
          trap0 0 regs,
          leaves (k.tasks.sched.threads x).esp (record k { tasks = record k.tasks { sched = s } }),
        ))
      × (s.current_thread ≡ x)
      × ((s.threads x).state ≡ running)
      × IsRing s x (zs ++ ys)
unfolding set_state
syscall_thread_exit-leaves fuel irq buffer ret regs k x ys zs on ring sl aw enough other away =
    let s = k.tasks.sched in
    let c = s.current_thread in
    let s1 = set_state s c finished in
    let cx : c ≢ x = member-ne c x ys zs ring.1.0 in
    let same : s1.threads x ≡ s.threads x = set_state_ne s c x finished (λ e. cx (sym e)) in
    let ring1 =
      IsRing-same s s1 c (ys ++ x ∷ zs) (λ y. (set_state-links s c y finished).0)
        (λ y. (set_state-links s c y finished).1) ring in
    let done_state = set_state_self s c finished in
    let ended : is_finished (s1.threads c).state ≡ true = ap is_finished done_state in
    let (out, run, sw) =
      schedule_tick-Switched fuel s1 irq.regs irq.start irq.now irq.end x ys zs ring1
        (sleep-on s c ys (x ∷ zs) ring.1.0 sl) (ap (λ (t : Thread). is_sleep t.state) same ∙ aw)
        enough (λ e. other) in
    let esp : out.0 ≡ (s.threads x).esp = sw.resumes ∙ ap (λ (t : Thread). t.esp) same in
    let exit = exit_run fuel irq k.tasks out.0 out.1 on run in
    let members : IsRing out.1 x (zs ++ ys) = rw ended at (sw.ring) in
    (
      out.1,
      left_for fuel irq buffer ret regs k out.0 (s.threads x).esp (record k.tasks { sched = out.1 })
          exit esp away,
      sw.current,
      sw.runs,
      members,
    )
