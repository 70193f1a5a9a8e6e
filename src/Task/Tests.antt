-- ===== src/Task/Tests.antt =====
-- Three tasks for task.cpp and scheduler.cpp.
use venom_os.Task.Fair.{distance, reschedule_times, reschedule-reaches_ready}
use venom_os.Base.{
  ℕ, ◌≤◌, ◌≡◌, ◌≢◌, ◌<◌, ◌^◌, ◌==◌, if◌then◌else◌, ◌⊎◌, some, refl, arith, false, true,
}
use venom_os.Task.{
  Table, Task, State, dead, ready, running, max_tasks, no_pid, make_pid, pid_slot_index,
  pid_generation, is_ready, is_running, reschedule, switch_to, start_index,
}
use venom_os.Task.Pid.{make_pid_lem}
use venom_os.Task.Schedule.{Nearest, RunsOnly, reschedule_lem, switch_to-RunsOnly}

abbrev in_state : State → Task
in_state s = record {
  rsp = 0;
  stack_base = 0;
  entry = 0;
  state = s;
  pid = 0;
  generation = 1;
  parent_pid = 0;
  first_child = 0;
  next_sibling = 0;
  exit_code = 0;
  wake_tick = 0;
  name = 0;
  cr3 = 0;
  user_entry = 0;
  user_stack_top = 0;
}

-- Slot 3 runs, slots 1 and 7 are ready.
abbrev three : Table
three = record {
  tasks = λ i.
      in_state
        (if i == 3 then running else (if i == 1 then ready else (if i == 7 then ready else dead)));
  current_index = some 3;
  kernel_cr3 = 0x1000;
  loaded_cr3 = 0x1000;
}

make_pid_lem_example :
    (pid_slot_index (make_pid 3 5) ≡ some 3)
    × (pid_generation (make_pid 3 5) ≡ 5)
    × (make_pid 3 5 ≢ no_pid)
    × (make_pid 3 5 < 2 ^ 64)
make_pid_lem_example = make_pid_lem 3 5 (omega arith) (omega arith)

reschedule_lem_example :
    ((i : ℕ) × Nearest three (start_index three) 1 129 i × (reschedule three ≡ switch_to i three))
    ⊎ (((j : ℕ) → j < max_tasks → is_ready (three.tasks j).state ≡ false)
        × (reschedule three ≡ three))
reschedule_lem_example = reschedule_lem three

three-RunsOnly : RunsOnly 3 three
three-RunsOnly j ne = ground arith

switch_to-RunsOnly_example :
    (◌≢◌ {A = ℕ} 7 3
      → ((switch_to 7 three).current_index ≡ some 7)
        × (is_running ((switch_to 7 three).tasks 7).state ≡ true)
        × RunsOnly 7 (switch_to 7 three))
    × (◌≡◌ {A = ℕ} 7 3 → switch_to 7 three ≡ three)
switch_to-RunsOnly_example = switch_to-RunsOnly 7 3 three refl three-RunsOnly

reschedule-reaches_ready_example :
    (m : ℕ) × (m ≤ distance 3 1) × (m ≤ 128) × ((reschedule_times m three).current_index ≡ some 1)
reschedule-reaches_ready_example = reschedule-reaches_ready three 3 1 refl (omega arith) refl
