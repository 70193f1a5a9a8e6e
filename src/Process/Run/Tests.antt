-- ===== src/Process/Run/Tests.antt =====
-- A start of a program that is not on the disk, for `run` of process.cpp.
use venom_os.Base.{ℕ, ◌≡◌, ◌==◌, ◌⊎◌, if◌then◌else◌, true, some, none, []}
use venom_os.Base.Result.{ok, err}
use venom_os.Task.{Task, State}
use venom_os.Task.Life.{no_cleanup}
use venom_os.Fs.{empty_entry}
use venom_os.Process.Run.{World, RunError, run}
use venom_os.Process.Run.Started.{HasRun, run-HasRun}

abbrev shell : Task
shell = record {
  rsp = 0;
  stack_base = 0;
  entry = 0;
  state = State.running;
  pid = 257;
  generation = 1;
  parent_pid = 0;
  first_child = 0;
  next_sibling = 0;
  exit_code = 0;
  wake_tick = 0;
  name = 0;
  cr3 = 0;
  user_entry = 0;
  user_stack_top = 0;
}

-- The file `a` has 600 bytes that are no image.
abbrev world : World
world = record {
  kernel = record {
    table = record {
      tasks = λ i. if i == 0 then shell else record shell { state = State.dead };
      current_index = some 0;
      kernel_cr3 = 0x1000;
      loaded_cr3 = 0x1000;
    };
    init_pid = 0;
    pending_cleanup = no_cleanup;
    heap = record { blocks = []; heap_min = 0; heap_max = 0 };
    machine = record { tables = λ t i. 0; pmm = record { bitmap = λ i. 0; free_count = 262144 } };
  };
  memory = λ a. 0;
  fs = record {
    file_table = λ i.
        if i == 0
        then (record {
          name = λ k. if k == 0 then 97 else 0;
          size_bytes = 600;
          extent_count = 1;
          used = 1;
          extents = λ e. record { start_lba = 274; block_count = 2 };
        })
        else empty_entry;
    bitmap = λ i. if i == 0 then 3 else 0;
    drive = record { sectors = λ at i. 0; answers = λ n. true; waits = 0; fault_countdown = none };
  };
}

abbrev letter_a : ℕ → ℕ
letter_a i = if i == 0 then 97 else 0

run-HasRun_example :
    (let o = run 0x10_0000 0x10_2000 letter_a [] [] (λ b. 0) (λ b. 0) world in
      ((e : RunError) × (o.0 ≡ err e))
      ⊎ ((slot : ℕ) × (o.0 ≡ ok slot) × HasRun letter_a (λ b. 0) world slot o.1))
run-HasRun_example = run-HasRun 0x10_0000 0x10_2000 letter_a [] [] (λ b. 0) (λ b. 0) world
