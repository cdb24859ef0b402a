-- ===== src/Scheduler.antt =====
-- The scheduler: kernel/scheduler.c over the threads of kernel/thread.h, with `destroy_thread` of
-- kernel/thread.c. Threads stand at addresses, 0 is NULL, and `freed` collects what `kfree` is given.
-- Saving and restoring the interrupt flag has no effect that the model shows.
pub mod Ring
pub mod Links
pub mod Tick
pub mod Registered
mod Tests
use toutatis.Common.{
  ℕ, zero, suc, ◌+◌, ◌-◌, ◌%◌, ◌^◌, Bool, true, false, not, ◌&&◌, ◌||◌, Option, none, some, List,
  [], ◌∷◌, ◌==◌, if◌then◌else◌,
}
use toutatis.Common.Store.{update}

-- TASK_SLEEP, TASK_READY, TASK_RUNNING, TASK_FINISHED
pub data TaskState : Type 0 where
  sleep ready running finished : TaskState

abbrev pub is_sleep : TaskState → Bool
is_sleep sleep = true
is_sleep _ = false

abbrev pub is_finished : TaskState → Bool
is_finished finished = true
is_finished _ = false

-- `thread_t`, less the fields that the scheduler never reads.
pub record Thread : Type 0 where
  pub esp : ℕ
  pub kstack : ℕ
  pub ustack : ℕ
  pub page_dir : ℕ
  pub id : ℕ
  pub state : TaskState
  pub runtime : ℕ
  pub next : ℕ
  pub prev : ℕ

pub record Sched : Type 0 where
  pub threads : ℕ → Thread
  pub current_thread : ℕ
  pub kernel_thread : ℕ
  pub num_threads : ℕ
  pub freed : List ℕ
  pub esp0 : ℕ
  pub current_directory : ℕ
  pub old_cycles_count : ℕ

abbrev pub next_of : Sched → ℕ → ℕ
next_of s p = (s.threads p).next

abbrev pub prev_of : Sched → ℕ → ℕ
prev_of s p = (s.threads p).prev

pub set_next : Sched → ℕ → ℕ → Sched
set_next s p q = record s { threads = update s.threads p (record (s.threads p) { next = q }) }

pub set_prev : Sched → ℕ → ℕ → Sched
set_prev s p q = record s { threads = update s.threads p (record (s.threads p) { prev = q }) }

unfoldable pub set_state : Sched → ℕ → TaskState → Sched
set_state s p st = record s { threads = update s.threads p (record (s.threads p) { state = st }) }

-- The first thread, which links to itself.
abbrev pub start_ring : Sched → ℕ → Sched
start_ring s thread =
    set_next (set_prev (record s { kernel_thread = thread; current_thread = thread }) thread thread)
      thread thread

-- `thread` goes in before `c`.
abbrev pub insert_before : Sched → ℕ → ℕ → Sched
insert_before s thread c =
    let s1 = set_prev s thread (prev_of s c) in
    let s2 = set_next s1 thread c in
    let s3 = set_next s2 (prev_of s2 c) thread in set_prev s3 c thread

-- The first thread becomes the ring, any other goes in before the current one.
pub schedule_thread : Sched → ℕ → Sched
unfolding set_next set_prev set_state
schedule_thread s thread =
    let s1 = set_prev (set_next (set_state s thread ready) thread 0) thread 0 in
    if thread == 0
    then s
    else (if s.kernel_thread == 0
        then start_ring s1 thread
        else insert_before s1 thread s.current_thread)

abbrev pub unlink : Sched → ℕ → Sched
unlink s thread =
    let s1 =
      if prev_of s thread == 0 then s else set_next s (prev_of s thread) (next_of s thread) in
    if next_of s1 thread == 0 then s1 else set_prev s1 (next_of s1 thread) (prev_of s1 thread)

pub unschedule_thread : Sched → ℕ → Sched
unfolding set_next set_prev
unschedule_thread s thread = if thread == 0 || thread == s.kernel_thread then s else unlink s thread

-- The loop of `next_ready_thread`, with fuel; `none` means that the fuel ran out.
pub skip_sleeping : ℕ → Sched → ℕ → Option ℕ
skip_sleeping zero s thread = none
skip_sleeping (suc fuel) s thread =
    let rest = skip_sleeping fuel s (next_of s thread) in
    if not (thread == 0) && is_sleep (s.threads thread).state then rest else some thread

pub next_ready_thread : ℕ → Sched → Option ℕ
unfolding skip_sleeping
next_ready_thread fuel s =
    if s.current_thread == 0 then some 0 else skip_sleeping fuel s (next_of s s.current_thread)

-- kernel/thread.c; the latest freed address comes first.
pub destroy_thread : Sched → ℕ → Sched
destroy_thread s thread =
    let th = s.threads thread in
    let stacks = if th.ustack == 0 then th.kstack ∷ s.freed else th.ustack ∷ th.kstack ∷ s.freed in
    if thread == 0
    then s
    else record s { num_threads = (s.num_threads + 2 ^ 32 - 1) % 2 ^ 32; freed = thread ∷ stacks }

-- What becomes of the thread that was running.
pub leave : Sched → ℕ → ℕ → Sched
unfolding unschedule_thread destroy_thread
leave s old_esp cycles =
    let c = s.current_thread in
    let saved = record (s.threads c) {
      esp = old_esp;
      state = ready;
      runtime = ((s.threads c).runtime + cycles) % 2 ^ 64;
    } in
    if is_finished (s.threads c).state
    then destroy_thread (unschedule_thread s c) c
    else record s { threads = update s.threads c saved }

-- The switch to `next`; a page directory that is NULL is not loaded.
pub enter : Sched → ℕ → Sched
unfolding set_state
enter s next =
    let s1 = record s { esp0 = (s.threads next).esp } in
    let s2 = record (set_state s1 next running) { current_thread = next } in
    let d = (s2.threads next).page_dir in if d == 0 then s2 else record s2 { current_directory = d }

-- `start`, `now` and `end` are the three readings of the cycle counter, `old_esp` is the address of
-- the saved registers. The result is the stack pointer to go on with.
pub schedule_tick : ℕ → Sched → ℕ → ℕ → ℕ → ℕ → Option (ℕ × Sched)
unfolding next_ready_thread leave enter
schedule_tick fuel s old_esp start now end =
    let old = if s.old_cycles_count == 0 then start else s.old_cycles_count in
    let cycles = (now + 2 ^ 64 - old) % 2 ^ 64 in
    elim (next_ready_thread fuel s) [
      | none ↦ none
      | some next ↦
          let s1 = leave s old_esp cycles in
          if next == 0 || next == s.current_thread
          then some (old_esp, record s { old_cycles_count = end })
          else some ((s1.threads next).esp, record (enter s1 next) { old_cycles_count = end })
    ]

pub getpid : Sched → ℕ
getpid s = if s.current_thread == 0 then 0 else (s.threads s.current_thread).id
