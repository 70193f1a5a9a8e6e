-- ===== src/Task/Life.antt =====
-- kernel/task.cpp: the creation and the end of tasks, with their kernel stacks and address spaces. What
-- `init_common_slot` writes on the new stack is not part of the model, nor is the loop that a task
-- runs once it has exited.
mod Tests
pub mod Fields
pub mod Exit
pub mod Family
pub mod Pids
pub mod Create
use venom_os.Base.{
  ℕ, zero, suc, ◌+◌, ◌-◌, ◌*◌, ◌==◌, if◌then◌else◌, Bool, true, false, ◌&&◌, ◌||◌, Option, none,
  some,
}
use venom_os.Base.Memory.{update, u64}
use venom_os.Heap.{Heap, kmalloc, kfree}
use venom_os.Paging.{Machine, destroy_address_space}
use venom_os.Task.{
  Table, Task, State, no_pid, max_tasks, make_pid, find_free_slot, find_by_pid, add_child, unblock,
  reschedule, is_dead,
}

abbrev pub task_stack_size : ℕ
task_stack_size = 16384

-- The stack and the address space of a task that has exited; 0 where there is none.
pub record PendingCleanup : Type 0 where
  pub stack_base : ℕ
  pub cr3 : ℕ
  pub active : Bool

pub record Kernel : Type 0 where
  pub table : Table
  pub init_pid : ℕ
  pub pending_cleanup : PendingCleanup
  pub heap : Heap
  pub machine : Machine

abbrev pub no_cleanup : PendingCleanup
no_cleanup = record { stack_base = 0; cr3 = 0; active = false }

-- `kfree` ignores a null pointer, as the test before its call does.
pub reap_pending_cleanup : Kernel → Kernel
reap_pending_cleanup k =
    let c = k.pending_cleanup in
    if c.active
    then (record k {
      pending_cleanup = no_cleanup;
      heap = (kfree c.stack_base k.heap).1;
      machine = if c.cr3 == 0 then k.machine else destroy_address_space c.cr3 k.machine;
    })
    else k

abbrev pub set_task : ℕ → Task → Table → Table
set_task i x t = record t { tasks = update t.tasks i x }

abbrev pub with_table : (Table → Table) → Kernel → Kernel
with_table f k = record k { table = f k.table }

abbrev pub parent_of : Table → ℕ
parent_of t = elim t.current_index [ none ↦ no_pid | some c ↦ (t.tasks c).pid ]

abbrev pub join_parent : ℕ → Table → Table
join_parent i t = elim t.current_index [ none ↦ t | some c ↦ add_child c i t ]

-- The slot of a new task that has its stack. `join_parent` comes before the last three stores in the
-- code as it does here.
abbrev pub fill_slot : ℕ → ℕ → ℕ → ℕ → Table → Table
fill_slot i stack entry name t =
    let x = t.tasks i in
    let t₁ =
      set_task i
        (record x {
          state = State.new;
          rsp = u64 (stack + task_stack_size - 64);
          stack_base = stack;
          entry = entry;
          generation = u64 (x.generation + 1);
          pid = make_pid i (u64 (x.generation + 1));
          parent_pid = parent_of t;
          first_child = no_pid;
          next_sibling = no_pid;
        })
        t in
    let t₂ = join_parent i t₁ in
    set_task i (record (t₂.tasks i) { exit_code = 0; wake_tick = 0; name = name }) t₂

abbrev pub with_stack : ℕ → ℕ → ℕ → ℕ → Kernel → Option ℕ × Kernel
with_stack i stack entry name k =
    if stack == 0 then (none, k) else (some i, with_table (fill_slot i stack entry name) k)

pub init_common_slot : ℕ → ℕ → Kernel → Option ℕ × Kernel
init_common_slot entry name k = elim (find_free_slot k.table) [
  | none ↦ (none, k)
  | some i ↦
      let (stack, heap, pmm) = kmalloc task_stack_size k.heap k.machine.pmm in
      with_stack i stack entry name
        (record k { heap = heap; machine = record k.machine { pmm = pmm } })
]

abbrev pub make_ready : (Task → Task) → Option ℕ × Kernel → Option ℕ × Kernel
make_ready f (none, k) = (none, k)
make_ready f (some i, k) =
    (some i, with_table (λ t. set_task i (record (f (t.tasks i)) { state = State.ready }) t) k)

pub create : ℕ → ℕ → Kernel → Option ℕ × Kernel
create entry name k = make_ready (λ x. record x { cr3 = 0 }) (init_common_slot entry name k)

pub create_process : ℕ → ℕ → ℕ → ℕ → ℕ → Kernel → Option ℕ × Kernel
create_process entry name cr3 user_entry user_stack_top k =
    make_ready
      (λ x. record x { cr3 = cr3; user_entry = user_entry; user_stack_top = user_stack_top })
      (init_common_slot entry name k)

-- What comes after a child in the list of its siblings.
abbrev pub next_of : Option ℕ → Table → ℕ
next_of none t = no_pid
next_of (some i) t = (t.tasks i).next_sibling

-- The loop of `remove_child`, with the rounds left.
pub unlink : ℕ → ℕ → ℕ → Table → Table
unlink zero prev_pid child_pid t = t
unlink (suc left) prev_pid child_pid t = elim (find_by_pid t prev_pid) [
  | none ↦ t
  | some prev ↦
      let rest = unlink left (t.tasks prev).next_sibling child_pid t in
      if (t.tasks prev).next_sibling == child_pid
      then set_task prev
          (record (t.tasks prev) { next_sibling = next_of (find_by_pid t child_pid) t }) t
      else rest
]

pub remove_child : ℕ → ℕ → Table → Table
remove_child parent child_pid t =
    if (t.tasks parent).first_child == child_pid
    then set_task parent
        (record (t.tasks parent) { first_child = next_of (find_by_pid t child_pid) t }) t
    else unlink max_tasks (t.tasks parent).first_child child_pid t

abbrev pub is_zombie : State → Bool
is_zombie State.zombie = true
is_zombie _ = false

-- One pass of `wait_for_child` over the children: the first that is a zombie, with the rounds left.
pub find_zombie : ℕ → ℕ → Table → Option ℕ
find_zombie zero child_pid t = none
find_zombie (suc left) child_pid t = elim (find_by_pid t child_pid) [
  | none ↦ none
  | some i ↦
      let rest = find_zombie left (t.tasks i).next_sibling t in
      if is_zombie (t.tasks i).state then some i else rest
]

-- `wait_for_child` up to its first wait: the pid and the exit code of a child that has ended, or none
-- and the next task runs.
pub data Waited : Type 0 where
  no_children : Waited
  ended : ℕ → ℕ → Table → Waited
  blocks : Waited

pub collect : ℕ → ℕ → Table → Waited
collect self i t =
    let x = t.tasks i in
    let t₁ = remove_child self x.pid t in
    Waited.ended x.pid x.exit_code
      (set_task i (record (t₁.tasks i) { state = State.dead; parent_pid = no_pid }) t₁)

pub wait_for_child : ℕ → Table → Waited
wait_for_child self t =
    if (t.tasks self).first_child == no_pid
    then Waited.no_children
    else (elim (find_zombie max_tasks (t.tasks self).first_child t) [
      | none ↦ Waited.blocks
      | some i ↦ collect self i t
    ])

abbrev pub adopt : Option ℕ → ℕ → Table → Table
adopt none child t = t
adopt (some i) child t = add_child i child t

-- A child becomes one of init's, which is woken when it waits.
abbrev pub hand_over : ℕ → ℕ → Table → Table
hand_over init_pid i t = unblock init_pid (
    adopt (find_by_pid t init_pid) i
      (set_task i (record (t.tasks i) { parent_pid = init_pid; next_sibling = no_pid }) t))

-- The loop of `exit_current` that gives the children to init, on the rounds that it is given; `none`
-- when they are used up and a child is left.
pub reparent : ℕ → ℕ → ℕ → Table → Option Table
reparent zero init_pid child_pid t = elim (find_by_pid t child_pid) [
  | none ↦ some t
  | some i ↦ none
]
reparent (suc left) init_pid child_pid t = elim (find_by_pid t child_pid) [
  | none ↦ some t
  | some i ↦ reparent left init_pid (t.tasks i).next_sibling (hand_over init_pid i t)
]

abbrev pub no_children_left : ℕ → Option Table → Option Table
no_children_left c none = none
no_children_left c (some t) = some (set_task c (record (t.tasks c) { first_child = no_pid }) t)

abbrev pub leave_children : ℕ → ℕ → Table → Option Table
leave_children init_pid c t =
    if init_pid == no_pid || (t.tasks c).pid == init_pid
    then some t
    else no_children_left c (reparent max_tasks init_pid (t.tasks c).first_child t)

-- A zombie waits for its parent; without one the slot is free.
pub end_task : ℕ → Table → Table
end_task c t = elim (find_by_pid t (t.tasks c).parent_pid) [
  | none ↦ set_task c (record (t.tasks c) { state = State.dead; parent_pid = no_pid }) t
  | some p ↦
      unblock (t.tasks c).parent_pid (set_task c (record (t.tasks c) { state = State.zombie }) t)
]

abbrev pub cleanup_of : Task → PendingCleanup
cleanup_of x = record {
  stack_base = x.stack_base;
  cr3 = x.cr3;
  active = (if x.stack_base == 0 then false else true) || (if x.cr3 == 0 then false else true);
}

abbrev pub ended_with : ℕ → PendingCleanup → Kernel → Option Table → Option Kernel
ended_with c cleanup k none = none
ended_with c cleanup k (some t) =
    some (record k { pending_cleanup = cleanup; table = reschedule (end_task c t) })

-- `exit_current` for the task in slot `c`, up to the switch to the next task.
pub leave : ℕ → ℕ → Kernel → Option Kernel
leave exit_code c k =
    let x = k.table.tasks c in
    let t₁ = set_task c (record x { stack_base = 0; cr3 = 0; exit_code = exit_code }) k.table in
    ended_with c (cleanup_of x) k (leave_children k.init_pid c t₁)

-- The state in which the next task runs, or the processor halts when there is none; the caller never
-- runs again. `none` when the loop over the children is not over after as many rounds as there are slots.
pub exit_current : ℕ → Kernel → Option Kernel
exit_current exit_code k = elim k.table.current_index [
  | none ↦ some (with_table reschedule k)
  | some c ↦ leave exit_code c k
]
