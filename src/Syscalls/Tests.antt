-- ===== src/Syscalls/Tests.antt =====
-- Witnesses of the properties of the system calls.
use toutatis.Common.{◌+◌, ◌-◌, ◌≡◌, refl, inl, arith, true, some, [], ◌∷◌, ◌==◌, if◌then◌else◌}
use toutatis.Scheduler.{Sched, ready, running}
use toutatis.Scheduler.Links.{IsRing}
use toutatis.Threads.{Raised, zero_thread}
use toutatis.Vga.{Screen}
use toutatis.Vga.Number.{Printed}
use toutatis.Syscalls.{
  Registers, Kernel, leaves, trap0, trap1, syscall_thread_exit, syscall_vga_print_dec,
  syscall_vga_print_hex,
}
use toutatis.Syscalls.Calls.{served, syscall-Served}
use toutatis.Syscalls.Exit.{syscall_thread_exit-leaves}

abbrev user : Registers
user = record {
  gs = 35;
  fs = 35;
  es = 35;
  ds = 35;
  ebp = 0;
  edi = 1;
  esi = 2;
  edx = 3;
  ecx = 4;
  ebx = 5;
  eax = 6;
  int_no = 0;
  err_code = 0;
  eip = 4096;
  cs = 27;
  eflags = 512;
  esp = 8192;
  ss = 35;
}

abbrev quiet : Kernel
quiet = record {
  tasks = record {
    sched = record {
      threads = λ q. zero_thread;
      current_thread = 7;
      kernel_thread = 7;
      num_threads = 1;
      freed = [];
      esp0 = 0;
      current_directory = 0;
      old_cycles_count = 0;
    };
    words = λ q. 0;
    bytes = λ q. 0;
    rest = λ q. record { ss = 0; process = 0; priority = 0 };
    processes = λ q. record { id = 0; priority = 0; page_dir = 0 };
    last_thread_id = 0;
    last_process_id = 0;
    scheduling = true;
  };
  screen = record {
    memory = λ x. 0;
    xpos = 79;
    ypos = 24;
    attribute = 3840;
    cursor_high = 0;
    cursor_low = 0;
  };
}

-- The interrupt saves its registers at 3000.
abbrev timer : Raised
timer = record { regs = 3000; start = 0; now = 25; end = 30 }

syscall-Served_example :
    ((s : Screen) × Printed quiet.screen 500 700 10 s
      × (syscall_vga_print_dec 9 timer 500 80 user quiet 700
          ≡ some (served (trap1 2 700 user) quiet 80 s)))
    × ((s : Screen) × Printed quiet.screen 500 700 16 s
        × (syscall_vga_print_hex 9 timer 500 80 user quiet 700
            ≡ some (served (trap1 3 700 user) quiet 80 s)))
syscall-Served_example =
    syscall-Served 9 timer 500 80 700 user quiet
      (record { xpos_below = omega arith; ypos_below = omega arith }) (omega arith)
      (λ i h. inl (omega arith))

-- The thread 1 runs, and the threads 2 and 3 wait; the kernel's thread is 3.
abbrev busy : Kernel
busy = record quiet {
  tasks = record quiet.tasks {
    sched = record quiet.tasks.sched {
      threads = λ q. record zero_thread {
        esp = 4096 + q;
        state = ready;
        next = if q == 3 then 1 else q + 1;
        prev = if q == 1 then 3 else q - 1;
      };
      current_thread = 1;
      kernel_thread = 3;
      num_threads = 3;
    };
  };
}

syscall_thread_exit-leaves_example :
    (s : Sched) × (syscall_thread_exit 9 timer 500 80 user busy
      ≡ some (trap0 0 user, leaves 4098 (record busy { tasks = record busy.tasks { sched = s } })))
    × (s.current_thread ≡ 2)
    × ((s.threads 2).state ≡ running)
    × IsRing s 2 (3 ∷ [])
syscall_thread_exit-leaves_example =
    syscall_thread_exit-leaves 9 timer 500 80 user busy 2 [] (3 ∷ []) refl
      ((refl, refl, (refl, refl, (refl, refl))), omega arith, omega arith) tt refl (omega arith)
      (omega arith) (omega arith)
