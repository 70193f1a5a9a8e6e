-- ===== src/Task/Life/Tests.antt =====
-- A task with a parent that exits, for task.cpp.
use venom_os.Base.{◌+◌, ◌==◌, if◌then◌else◌, ◌≡◌, ℕ, true, some, none, [], ◌∷◌, refl, arith}
use venom_os.Heap.{magic_freed}
use venom_os.Task.{Table, Task, State, find_by_pid, pid_slot_index}
use venom_os.Task.Life.{Kernel, no_cleanup, exit_current}
use venom_os.Task.Life.Exit.{HasExited, exit_current-HasExited}

abbrev member : ℕ → State → Task
member i s = record {
  rsp = 0;
  stack_base = 0x20_0000 + i;
  entry = 0;
  state = s;
  pid = i + 257;
  generation = 1;
  parent_pid = 257;
  first_child = if i == 0 then 259 else (if i == 2 then 260 else 0);
  next_sibling = 0;
  exit_code = 0;
  wake_tick = 0;
  name = 0;
  cr3 = 0x5000;
  user_entry = 0;
  user_stack_top = 0;
}

-- Slot 0 is the parent of slot 2, which runs and is the parent of slot 3; slot 1 is init.
abbrev family : Table
family = record {
  tasks = λ i.
      if i == 2
      then member 2 State.running
      else (if i == 3
          then record (member 3 State.ready) { parent_pid = 259 }
          else (if i == 1
              then member 1 State.sleeping
              else (if i == 0 then member 0 State.blocked else member i State.dead)));
  current_index = some 2;
  kernel_cr3 = 0x1000;
  loaded_cr3 = 0x5000;
}

abbrev kernel : Kernel
kernel = record {
  table = family;
  init_pid = 258;
  pending_cleanup = no_cleanup;
  heap = record { blocks = []; heap_min = 0; heap_max = 0 };
  machine = record { tables = λ t i. 0; pmm = record { bitmap = λ i. 0xff; free_count = 0 } };
}

exit_current-HasExited_example :
    (k' : Kernel) × (exit_current 7 kernel ≡ some k') × HasExited 2 7 (member 2 State.running) k'
unfolding find_by_pid pid_slot_index
exit_current-HasExited_example =
    exit_current-HasExited 7 2 (3 ∷ []) kernel refl (refl, refl, refl) (omega arith)

-- A kernel with a heap of one large block, and with no task but dead ones of a generation.
abbrev fresh : ℕ → Kernel
fresh generation = record kernel {
  table = record family {
    tasks = λ i. record (member i State.dead) { generation = generation };
    current_index = none;
  };
  heap = record {
    blocks = record { addr = 0x20_0000; size = 0x8000; free = true; magic = magic_freed } ∷ [];
    heap_min = 0x20_0000;
    heap_max = 0x20_9000;
  };
}
