-- ===== src/Scheduler/Tests.antt =====
-- A ring of three threads, and the theorems at its states.
use toutatis.Common.{ℕ, ◌+◌, ◌≡◌, refl, arith, [], ◌∷◌, ◌==◌, if◌then◌else◌, some}
use toutatis.Common.Store.{update}
use toutatis.Scheduler.{
  Thread, Sched, TaskState, ready, running, finished, schedule_thread, unschedule_thread,
  schedule_tick, getpid,
}
use toutatis.Scheduler.Links.{IsRing, schedule_thread-IsRing, unschedule_thread-IsRing}
use toutatis.Scheduler.Tick.{Switched, schedule_tick-Switched}

abbrev thread : ℕ → TaskState → ℕ → ℕ → Thread
thread i st n p = record {
  esp = 0x1000 + i;
  kstack = 0x2000 + i;
  ustack = 0;
  page_dir = 0x3000;
  id = i;
  state = st;
  runtime = 0;
  next = n;
  prev = p;
}

-- The threads 1, 2 and 3, of which 1 runs, in the state `st`, and is the kernel thread if `k` is 1.
abbrev three : TaskState → ℕ → Sched
three st k = record {
  threads = λ p.
      if p == 1
      then thread 1 st 2 3
      else (if p == 2
          then thread 2 ready 3 1
          else (if p == 3 then thread 3 ready 1 2 else thread p ready 0 0));
  current_thread = 1;
  kernel_thread = k;
  num_threads = 3;
  freed = [];
  esp0 = 0;
  current_directory = 0x3000;
  old_cycles_count = 10;
}

three-IsRing : (st : TaskState) (k : ℕ) → IsRing (three st k) 1 (2 ∷ 3 ∷ [])
three-IsRing st k = ((refl, refl, (refl, refl, (refl, refl))), omega arith, omega arith)

schedule_thread-IsRing_example :
    IsRing (schedule_thread (three running 1) 7) 1 (2 ∷ 3 ∷ 7 ∷ [])
    × ((schedule_thread (three running 1) 7).current_thread ≡ 1)
    × (((schedule_thread (three running 1) 7).threads 7).state ≡ ready)
schedule_thread-IsRing_example =
    schedule_thread-IsRing (three running 1) 7 (2 ∷ 3 ∷ []) (omega arith) (omega arith)
      (omega arith) (three-IsRing running 1)

abbrev empty : Sched
empty = record (three running 0) { current_thread = 0; num_threads = 0 }

unschedule_thread-IsRing_example : IsRing (unschedule_thread (three finished 9) 1) 2 (3 ∷ [])
unschedule_thread-IsRing_example =
    unschedule_thread-IsRing (three finished 9) 1 2 (3 ∷ []) (omega arith) (three-IsRing finished 9)

schedule_tick-Switched_example :
    (out : ℕ × Sched) × (schedule_tick 4 (three running 1) 0x1ff0 0 25 30 ≡ some out)
    × Switched (three running 1) 0x1ff0 2 [] (3 ∷ []) out
schedule_tick-Switched_example =
    schedule_tick-Switched 4 (three running 1) 0x1ff0 0 25 30 2 [] (3 ∷ []) (three-IsRing running 1)
      tt refl (omega arith) (λ e. cc)

-- A finished thread is unlinked and freed, and the next one runs.
tick_frees :
    (out : ℕ × Sched) × (schedule_tick 4 (three finished 9) 0x1ff0 0 25 30 ≡ some out)
    × (out.0 ≡ 0x1002)
    × (out.1.freed ≡ 1 ∷ 0x2001 ∷ [])
    × (out.1.num_threads ≡ 2)
    × (getpid out.1 ≡ 2)
unfolding schedule_tick getpid update
tick_frees = (_, refl, refl, refl, refl, refl)
