-- ===== src/Task.antt =====
-- kernel/task.cpp and kernel/scheduler.cpp: the table of tasks, process identifiers, and the choice of
-- the task that runs next. A task is named by its slot. `switch_context`, which swaps the stacks,
-- and the control registers are outside: `switch_to` is what the table holds when they are called.
pub mod Pid
pub mod Schedule
pub mod Life
pub mod Fair
mod Tests
use venom_os.Base.{
  ℕ, zero, suc, ◌+◌, ◌-◌, ◌*◌, ◌/◌, ◌%◌, ◌^◌, ◌==◌, if◌then◌else◌, Bool, true, false, ◌&&◌, ◌||◌,
  ltb, leb, Option, none, some,
}
use venom_os.Base.Memory.{update, u64, sub64}

abbrev pub max_tasks : ℕ
max_tasks = 128

abbrev pub no_pid : ℕ
no_pid = 0

abbrev pub pid_generation_max : ℕ
pid_generation_max = 2 ^ 64 - 1

pub data State : Type 0 where
  dead new ready running blocked sleeping zombie : State

pub record Task : Type 0 where
  pub rsp : ℕ
  pub stack_base : ℕ
  pub entry : ℕ
  pub state : State
  pub pid : ℕ
  pub generation : ℕ
  pub parent_pid : ℕ
  pub first_child : ℕ
  pub next_sibling : ℕ
  pub exit_code : ℕ
  pub wake_tick : ℕ
  pub name : ℕ
  pub cr3 : ℕ
  pub user_entry : ℕ
  pub user_stack_top : ℕ

-- `tasks`, `current_index` (none before `init`), and the page tables in use.
pub record Table : Type 0 where
  pub tasks : ℕ → Task
  pub current_index : Option ℕ
  pub kernel_cr3 : ℕ
  pub loaded_cr3 : ℕ

abbrev pub is_dead : State → Bool
is_dead dead = true
is_dead _ = false

abbrev pub is_ready : State → Bool
is_ready ready = true
is_ready _ = false

abbrev pub is_running : State → Bool
is_running running = true
is_running _ = false

abbrev pub is_blocked : State → Bool
is_blocked blocked = true
is_blocked _ = false

abbrev pub is_sleeping : State → Bool
is_sleeping sleeping = true
is_sleeping _ = false

-- `(generation << 8) | (slot_index + 1)`; the low eight bits of the first part are 0.
pub make_pid : ℕ → ℕ → ℕ
make_pid slot_index generation = u64 (generation * 256) + (slot_index + 1)

-- `none` is the slot -1.
pub pid_slot_index : ℕ → Option ℕ
pid_slot_index pid = if pid % 256 == 0 then none else some (pid % 256 - 1)

pub pid_generation : ℕ → ℕ
pid_generation pid = pid / 256

abbrev pub set_state : Table → ℕ → State → Table
set_state t i s = record t { tasks = update t.tasks i (record (t.tasks i) { state = s }) }

-- The first free slot from `i` on, with the rounds left.
pub free_slot_from : ℕ → ℕ → Table → Option ℕ
free_slot_from zero i t = none
free_slot_from (suc left) i t =
    let later = free_slot_from left (i + 1) t in
    if is_dead (t.tasks i).state
      && (if (t.tasks i).generation == pid_generation_max then false else true)
    then some i
    else later

pub find_free_slot : Table → Option ℕ
find_free_slot t = free_slot_from max_tasks 0 t

abbrev pub find_at : Table → ℕ → Option ℕ → Option ℕ
find_at t pid none = none
find_at t pid (some i) =
    if leb max_tasks i
    then none
    else (if is_dead (t.tasks i).state
        then none
        else (if (t.tasks i).pid == pid then some i else none))

unfoldable pub find_by_pid : Table → ℕ → Option ℕ
find_by_pid t pid = if pid == no_pid then none else find_at t pid (pid_slot_index pid)

-- The child becomes the first of its siblings.
pub add_child : ℕ → ℕ → Table → Table
add_child parent child t =
    let t₁ = record t {
      tasks =
          update t.tasks child
            (record (t.tasks child) { next_sibling = (t.tasks parent).first_child });
    } in
    record t₁ {
      tasks =
          update t₁.tasks parent (record (t₁.tasks parent) { first_child = (t₁.tasks child).pid });
    }

abbrev pub unblock_at : Option ℕ → Table → Table
unblock_at none t = t
unblock_at (some i) t = if is_blocked (t.tasks i).state then set_state t i ready else t

pub unblock : ℕ → Table → Table
unblock pid t = unblock_at (find_by_pid t pid) t

-- A running task goes back to the ready ones.
abbrev pub put_back : Option ℕ → Table → Table
put_back none t = t
put_back (some prev) t = if is_running (t.tasks prev).state then set_state t prev ready else t

abbrev pub target_cr3 : Table → ℕ → ℕ
target_cr3 t next = if (t.tasks next).cr3 == 0 then t.kernel_cr3 else (t.tasks next).cr3

abbrev pub is_current : Option ℕ → ℕ → Bool
is_current none next = false
is_current (some c) next = c == next

-- `switch_to` a slot of the table.
pub switch_to : ℕ → Table → Table
switch_to next t =
    if is_current t.current_index next
    then t
    else (let t₁ = set_state (put_back t.current_index t) next running in
        record t₁ { current_index = some next; loaded_cr3 = target_cr3 t₁ next })

abbrev pub start_index : Table → ℕ
start_index t = elim t.current_index [ none ↦ 0 | some c ↦ c ]

-- The first ready slot of those at the offsets from `offset` on, with the rounds left.
pub pick : ℕ → ℕ → ℕ → Table → Option ℕ
pick zero offset start t = none
pick (suc left) offset start t =
    let later = pick left (offset + 1) start t in
    if is_ready (t.tasks ((start + offset) % max_tasks)).state
    then some ((start + offset) % max_tasks)
    else later

abbrev pub switch_if : Option ℕ → Table → Table
switch_if none t = t
switch_if (some i) t = switch_to i t

pub reschedule : Table → Table
reschedule t = switch_if (pick max_tasks 1 (start_index t) t) t

-- The loop of `wake_sleeping_tasks` at the time `now`, with the rounds left.
pub wake_from : ℕ → ℕ → ℕ → Table → Table
wake_from zero i now t = t
wake_from (suc left) i now t = wake_from left (i + 1) now (
    if is_sleeping (t.tasks i).state && leb (t.tasks i).wake_tick now
    then set_state t i ready
    else t)

pub wake_sleeping_tasks : ℕ → Table → Table
wake_sleeping_tasks now t = wake_from max_tasks 0 now t

-- `tick`, with `tick_counter`.
pub tick : ℕ → ℕ → Table → ℕ × Table
tick now tick_counter t =
    let woken = wake_sleeping_tasks now t in
    if ltb (tick_counter + 1) 5 then (tick_counter + 1, woken) else (0, reschedule woken)

abbrev pub change_current : Table → (ℕ → Table) → Table
change_current t k = elim t.current_index [ none ↦ t | some c ↦ k c ]

pub block_current : Table → Table
block_current t = change_current t λ c. reschedule (set_state t c blocked)

pub sleep_current : ℕ → ℕ → Table → Table
sleep_current now ticks_to_sleep t = change_current t λ c. reschedule (record t {
  tasks =
      update t.tasks c
        (record (t.tasks c) { wake_tick = u64 (now + ticks_to_sleep); state = sleeping });
})
