-- ===== src/Threads.antt =====
-- kernel/thread.c and kernel/process.c: how threads and processes come into being and go. The addresses
-- that kmalloc returns are arguments, 0 is NULL, and `freed` of the scheduler collects what kfree is
-- given. The stacks are words under their addresses.
pub mod Stacks
pub mod Created
mod Tests
use toutatis.Common.{
  ℕ, zero, suc, ◌+◌, ◌-◌, ◌%◌, ◌^◌, Bool, true, false, not, ◌&&◌, ◌||◌, Option, none, some, List,
  [], ◌∷◌, ◌++◌, ◌==◌, ltb, if◌then◌else◌,
}
use toutatis.Common.Store.{update}
use toutatis.CString.{Memory, strncpy}
use toutatis.Scheduler.{Thread, Sched, sleep, finished, set_state, schedule_thread, schedule_tick}

-- `process_t`; its name stands in memory at its address, and the links are never used.
pub record Process : Type 0 where
  pub id : ℕ
  pub priority : ℕ
  pub page_dir : ℕ

-- The fields of `thread_t` that the scheduler does not read.
pub record Rest : Type 0 where
  pub ss : ℕ
  pub process : ℕ
  pub priority : ℕ

pub record Tasks : Type 0 where
  pub sched : Sched
  pub words : ℕ → ℕ
  pub bytes : Memory
  pub rest : ℕ → Rest
  pub processes : ℕ → Process
  pub last_thread_id : ℕ
  pub last_process_id : ℕ
  pub scheduling : Bool

abbrev pub stack_size : ℕ
stack_size = 8192

abbrev pub stack_top : ℕ → ℕ
stack_top s = (s + stack_size) % 2 ^ 32

-- `request_thread_id` and `request_process_id`
abbrev pub next_id : ℕ → ℕ
next_id id = (id + 1) % 2 ^ 32

-- `PUSH`: the words, and the address of the last one.
unfoldable pub push : (ℕ → ℕ) → ℕ → ℕ → (ℕ → ℕ) × ℕ
push words stack x = let at = (stack + 2 ^ 32 - 4) % 2 ^ 32 in (update words at x, at)

unfoldable pub push_all : (ℕ → ℕ) → ℕ → List ℕ → (ℕ → ℕ) × ℕ
push_all words stack [] = (words, stack)
push_all words stack (x ∷ xs) = let (words1, at) = push words stack x in push_all words1 at xs

abbrev pub data_segment : Bool → ℕ
data_segment user = if user then 35 else 16

abbrev pub code_segment : Bool → ℕ
code_segment user = if user then 27 else 8

-- Interrupts are on; user code has the privilege level 3, and vm86 sets bit 17.
abbrev pub eflags : Bool → Bool → ℕ
eflags user vm = (if user then 12802 else 514) + (if vm then 131072 else 0)

-- What is pushed on the kernel stack behind the first two words: the flags, the code segment and the
-- entry, an error code and an interrupt number, seven registers, and the data segment four times.
abbrev pub saved_registers : Bool → Bool → ℕ → List ℕ
saved_registers user vm entry =
    eflags user vm
    ∷ code_segment user
    ∷ entry
    ∷ 0
    ∷ 0
    ∷ 0
    ∷ 0
    ∷ 0
    ∷ 0
    ∷ 0
    ∷ 0
    ∷ 0
    ∷ data_segment user
    ∷ data_segment user
    ∷ data_segment user
    ∷ data_segment user
    ∷ []

-- The words of a new thread's stacks, and its stack pointer. `exit` is the address of thread_exit.
unfoldable pub build_stacks : (ℕ → ℕ) → ℕ → ℕ → Bool → Bool → ℕ → ℕ → ℕ → (ℕ → ℕ) × ℕ
build_stacks words kstack ustack user vm entry args exit =
    let (words1, esp) = push_all words (stack_top ustack) (args ∷ 3735931594 ∷ []) in
    if user
    then push_all words1 (stack_top kstack) (35 ∷ esp ∷ saved_registers user vm entry)
    else push_all words (stack_top kstack) (args ∷ exit ∷ saved_registers user vm entry)

-- `memset(thread, 0, sizeof(thread_t))`
abbrev pub zero_thread : Thread
zero_thread = record {
  esp = 0;
  kstack = 0;
  ustack = 0;
  page_dir = 0;
  id = 0;
  state = sleep;
  runtime = 0;
  next = 0;
  prev = 0;
}

abbrev pub put_thread : Tasks → ℕ → Thread → Rest → Tasks
put_thread t thread th r = record t {
  sched = record (t.sched) { threads = update t.sched.threads thread th };
  rest = update t.rest thread r;
}

-- The thread is counted and registered.
unfoldable pub register_thread : Tasks → ℕ → Tasks
register_thread t thread =
    let s = record (t.sched) { num_threads = (t.sched.num_threads + 1) % 2 ^ 32 } in
    record t { sched = schedule_thread s thread; last_thread_id = next_id t.last_thread_id }

unfoldable pub get_num_threads : Tasks → ℕ
get_num_threads t = t.sched.num_threads

unfoldable pub create_kernel_thread : Tasks → ℕ → Tasks
create_kernel_thread t thread =
    let th = record zero_thread {
      id = next_id t.last_thread_id;
      page_dir = t.sched.current_directory;
    } in
    if thread == 0
    then t
    else register_thread (put_thread t thread th (record { ss = 0; process = 0; priority = 0 }))
        thread

-- `thread`, `kstack` and `ustack` are what the calls of kmalloc return. If a stack is missing the thread
-- is given up, and nothing is given back. A priority is at most that of the process, which is read even
-- if there is no process.
unfoldable pub create_thread : ℕ → ℕ → ℕ → ℕ → ℕ → Tasks → ℕ → ℕ → ℕ → ℕ → Bool → Bool → ℕ × Tasks
create_thread thread kstack ustack exit kernel_directory t process entry args priority user vm =
    let parent = t.processes process in
    let no_rest : Rest = record { ss = 0; process = 0; priority = 0 } in
    let bare = record zero_thread { kstack = kstack } in
    let (words1, esp) = build_stacks t.words kstack ustack user vm entry args exit in
    let th = record zero_thread {
      esp = esp;
      kstack = kstack;
      ustack = if user then ustack else 0;
      page_dir = if process == 0 then kernel_directory else parent.page_dir;
      id = next_id t.last_thread_id;
    } in
    let r : Rest = record {
      ss = data_segment user;
      process = process;
      priority = if ltb priority parent.priority then priority else parent.priority;
    } in
    if thread == 0
    then (0, t)
    else (if kstack == 0 || (user && ustack == 0)
        then (0, put_thread t thread bare no_rest)
        else (th.id, register_thread (put_thread (record t { words = words1 }) thread th r) thread))

-- The timer's interrupt that `switch_next` raises: the address of the registers that it saves, and the
-- three readings of the cycle counter.
pub record Raised : Type 0 where
  pub regs : ℕ
  pub start : ℕ
  pub now : ℕ
  pub end : ℕ

-- Of what irq_handler does for line 0 only the call of the scheduler touches the threads. The result is
-- the stack pointer to go on with, and `switch_next` returns only if it is that of the saved registers.
unfoldable pub switch_next : ℕ → Raised → Tasks → Option (ℕ × Tasks)
switch_next fuel i t =
    if t.scheduling
    then elim (schedule_tick fuel t.sched i.regs i.start i.now i.end) [
      | none ↦ none
      | some (esp, s) ↦ some (esp, record t { sched = s })
    ]
    else some (i.regs, t)

-- The interrupts are off while the state is set.
unfoldable pub thread_exit : ℕ → Raised → Tasks → Option (ℕ × Tasks)
thread_exit fuel i t =
    switch_next fuel i (record t { sched = set_state t.sched t.sched.current_thread finished })

-- `sizeof(name)` is that of a pointer. `clone` is what clone_page_directory returns.
unfoldable pub create_process : ℕ → ℕ → Tasks → ℕ → ℕ → ℕ × Tasks
create_process process clone t name priority =
    let made : Process = record {
      id = next_id t.last_process_id;
      priority = priority;
      page_dir = clone;
    } in
    if process == 0 then (0, t) else (
      process,
      record t {
        bytes = strncpy t.bytes process name 4;
        processes = update t.processes process made;
        last_process_id = next_id t.last_process_id;
      },
    )

unfoldable pub destroy_process : Tasks → ℕ → Tasks
destroy_process t process =
    if process == 0
    then t
    else record t { sched = record (t.sched) { freed = process ∷ t.sched.freed } }

unfoldable pub scheduling_init : Tasks → ℕ → Tasks
scheduling_init t thread =
    let t1 = if t.sched.current_thread == 0 then create_kernel_thread t thread else t in
    record t1 { scheduling = true }

unfoldable pub scheduling_finish : Tasks → Tasks
scheduling_finish t = record t { scheduling = false }
