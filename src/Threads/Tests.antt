-- ===== src/Threads/Tests.antt =====
-- A thread for user code with no other thread beside it.
use toutatis.Common.{false, []}
use toutatis.Threads.{Tasks, zero_thread}

abbrev idle : Tasks
idle = record {
  sched = record {
    threads = λ q. zero_thread;
    current_thread = 0;
    kernel_thread = 0;
    num_threads = 0;
    freed = [];
    esp0 = 0;
    current_directory = 0;
    old_cycles_count = 0;
  };
  words = λ q. 0;
  bytes = λ q. 0;
  rest = λ q. record { ss = 0; process = 0; priority = 0 };
  processes = λ q. record { id = 1; priority = 3; page_dir = 4096 };
  last_thread_id = 0;
  last_process_id = 1;
  scheduling = false;
}
