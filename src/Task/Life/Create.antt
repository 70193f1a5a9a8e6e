-- ===== src/Task/Life/Create.antt =====
-- What `create_process` of task.cpp leaves of a new task.
use venom_os.Base.{
  ℕ, ◌==◌, ◌≡◌, Option, none, some, refl, ap, subst, arith, inl, inr, Bool-cases, Option-cases,
}
use venom_os.Heap.{kmalloc}
use venom_os.Task.{State, Task, Table, find_free_slot}
use venom_os.Task.Life.{
  Kernel, create_process, init_common_slot, make_ready, with_stack, set_task, with_table,
  task_stack_size,
}

-- What a call that makes a process leaves in its slot, with the page tables as they were.
pub record IsMade (pml4 entry sp : ℕ) (k : Kernel) (slot : ℕ) (k' : Kernel) : Type 0 where
  pub ready : (k'.table.tasks slot).state ≡ State.ready
  pub at_entry : (k'.table.tasks slot).user_entry ≡ entry
  pub at_stack : (k'.table.tasks slot).user_stack_top ≡ sp
  pub space : (k'.table.tasks slot).cr3 ≡ pml4
  pub tables : k'.machine.tables ≡ k.machine.tables

with_stack-tables :
    (i stack code title : ℕ) (k : Kernel)
    → (with_stack i stack code title k).1.machine.tables ≡ k.machine.tables
with_stack-tables i stack code title k = elim (Bool-cases (stack == 0)) [
  | inl missing ↦ rw missing refl
  | inr there ↦ rw there refl
]

init_common_slot-tables :
    (code title : ℕ) (k : Kernel)
    → (init_common_slot code title k).1.machine.tables ≡ k.machine.tables
unfolding init_common_slot
init_common_slot-tables code title k = elim (Option-cases (find_free_slot k.table)) [
  | inl full ↦ rw (full, init_common_slot) refl
  | inr (i, free) ↦
      let (stack, heap, pmm) = kmalloc task_stack_size k.heap k.machine.pmm in
      rw (free, init_common_slot)
        (with_stack-tables i stack code title
          (record k { heap = heap; machine = record k.machine { pmm = pmm } }))
]

stored_task : (i : ℕ) (x : Task) (t : Table) → (set_task i x t).tasks i ≡ x
stored_task i x t = ground arith

make_ready-IsMade :
    (pml4 entry sp : ℕ) (k₀ : Kernel) (r : Option ℕ × Kernel) (slot : ℕ)
    → r.1.machine.tables ≡ k₀.machine.tables
    → (let made =
          make_ready (λ x. record x { cr3 = pml4; user_entry = entry; user_stack_top = sp }) r in
        made.0 ≡ some slot → IsMade pml4 entry sp k₀ slot made.1)
make_ready-IsMade pml4 entry sp k₀ (none, k) slot same e = absurd (ground arith)
make_ready-IsMade pml4 entry sp k₀ (some i, k) slot same e =
    let t = k.table in
    let x = record (t.tasks i) {
      cr3 = pml4;
      user_entry = entry;
      user_stack_top = sp;
      state = State.ready;
    } in
    let here = stored_task i x t in
    let at : i ≡ slot = ground arith in
    subst (λ n. IsMade pml4 entry sp k₀ n (with_table (set_task i x) k)) at
      (record {
        ready = ap (λ (y : Task). y.state) here;
        at_entry = ap (λ (y : Task). y.user_entry) here;
        at_stack = ap (λ (y : Task). y.user_stack_top) here;
        space = ap (λ (y : Task). y.cr3) here;
        tables = same;
      })

pub create_process-IsMade :
    (code title pml4 entry sp : ℕ) (k : Kernel) (slot : ℕ)
    → (create_process code title pml4 entry sp k).0 ≡ some slot
    → IsMade pml4 entry sp k slot (create_process code title pml4 entry sp k).1
unfolding create_process
create_process-IsMade code title pml4 entry sp k slot e =
    make_ready-IsMade pml4 entry sp k (init_common_slot code title k) slot
      (init_common_slot-tables code title k) e
