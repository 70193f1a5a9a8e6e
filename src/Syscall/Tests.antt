-- ===== src/Syscall/Tests.antt =====
-- A system call on a small process, for interrupts.cpp.
use venom_os.Base.{◌+◌, ◌==◌, if◌then◌else◌, true, false, some, none, [], arith}
use venom_os.Task.{Task, State}
use venom_os.Task.Life.{Kernel, no_cleanup}
use venom_os.Fs.{empty_entry}
use venom_os.Syscall.{System, InterruptFrame, handle_syscall, sys_read}
use venom_os.Syscall.Ends.{IsHandled, handle_syscall-IsHandled}

abbrev process : Task
process = record {
  rsp = 0;
  stack_base = 0x20_0000;
  entry = 0;
  state = State.running;
  pid = 257;
  generation = 1;
  parent_pid = 0;
  first_child = 0;
  next_sibling = 0;
  exit_code = 0;
  wake_tick = 0;
  name = 0;
  cr3 = 0x1000;
  user_entry = 0;
  user_stack_top = 0;
}

-- One process without children, whose first page of user space is mapped for reading and writing.
abbrev kernel : Kernel
kernel = record {
  table = record {
    tasks = λ i. if i == 0 then process else record process { state = State.dead };
    current_index = some 0;
    kernel_cr3 = 0x8000;
    loaded_cr3 = 0x1000;
  };
  init_pid = 0;
  pending_cleanup = no_cleanup;
  heap = record { blocks = []; heap_min = 0; heap_max = 0 };
  machine = record {
    tables = λ table index.
        if table == 0x1000
        then (if index == 0 then 0x2007 else 0)
        else (if table == 0x2000
            then (if index == 1 then 0x3007 else 0)
            else (if table == 0x3000
                then (if index == 0 then 0x4007 else 0)
                else (if table == 0x4000 then (if index == 0 then 0x5007 else 0) else 0)));
    pmm = record { bitmap = λ i. 0xff; free_count = 0 };
  };
}

abbrev system : System
system = record {
  kernel = kernel;
  keyboard = record {
    queue = λ i. 97 + i;
    queue_head = 2;
    queue_tail = 0;
    shift_down = false;
    caps_lock = false;
    extended_sequence = false;
  };
  vga = record { buffer = λ i. 0; cursor_row = 0; cursor_col = 0; current_color = 7 };
  fs = record {
    file_table = λ i. empty_entry;
    bitmap = λ i. 0;
    drive = record { sectors = λ at i. 0; answers = λ n. true; waits = 0; fault_countdown = none };
  };
  user = λ a. if a == 0x4000_0000 then 97 else 0;
  timer_ticks = 12;
}

-- The process reads two characters from the keyboard into its page.
abbrev frame : InterruptFrame
frame = record { rax = sys_read; rdi = 0; rsi = 0x4000_0100; rdx = 2 }

handle_syscall-IsHandled_example : IsHandled sys_read system (handle_syscall frame system)
handle_syscall-IsHandled_example =
    handle_syscall-IsHandled frame [] system (omega arith) (omega arith)
      (λ e c cur. absurd (omega arith)) (omega arith)
