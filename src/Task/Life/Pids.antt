-- ===== src/Task/Life/Pids.antt =====
-- The identifiers that `init_common_slot` of task.cpp gives.
use venom_os.Base.{
  ℕ, ◌+◌, ◌-◌, ◌==◌, ◌≡◌, Option, none, some, refl, sym, ◌∙◌, subst, arith, inl, inr, Bool-cases,
  Option-cases,
}
use venom_os.Base.Memory.{u64}
use venom_os.Heap.{kmalloc}
use venom_os.Task.{State, Task, Table, make_pid, no_pid, find_free_slot, add_child}
use venom_os.Task.Life.{
  Kernel, init_common_slot, with_stack, fill_slot, join_parent, parent_of, set_task,
  task_stack_size,
}
use venom_os.Task.Life.Fields.{AgreeOn, AgreeOn-refl, add_child-AgreeOn}

stored_pid : (i : ℕ) (x : Task) (t : Table) → ((set_task i x t).tasks i).pid ≡ x.pid
stored_pid i x t = ground arith

join_parent-AgreeOn : (i : ℕ) (t : Table) (k : ℕ) → AgreeOn (t.tasks k) ((join_parent i t).tasks k)
join_parent-AgreeOn i t k = elim (Option-cases t.current_index) [
  | inl idle ↦
      subst (λ o. AgreeOn (t.tasks k) ((joined o).tasks k)) (sym idle) (AgreeOn-refl (t.tasks k))
  | inr (c, cur) ↦
      subst (λ o. AgreeOn (t.tasks k) ((joined o).tasks k)) (sym cur) (add_child-AgreeOn c i t k)
]
  where
    joined : Option ℕ → Table
    joined o = elim o [ none ↦ t | some c ↦ add_child c i t ]

fill_slot-pid :
    (i stack entry name : ℕ) (t : Table)
    → ((fill_slot i stack entry name t).tasks i).pid ≡ make_pid i (u64 ((t.tasks i).generation + 1))
fill_slot-pid i stack entry name t =
    let x = t.tasks i in
    let x₁ : Task = record x {
      state = State.new;
      rsp = u64 (stack + task_stack_size - 64);
      stack_base = stack;
      entry = entry;
      generation = u64 (x.generation + 1);
      pid = make_pid i (u64 (x.generation + 1));
      parent_pid = parent_of t;
      first_child = no_pid;
      next_sibling = no_pid;
    } in
    let t₁ = set_task i x₁ t in
    let t₂ = join_parent i t₁ in
    stored_pid i (record (t₂.tasks i) { exit_code = 0; wake_tick = 0; name = name }) t₂
    ∙ (join_parent-AgreeOn i t₁ i).pid
    ∙ stored_pid i x₁ t

with_stack-pid :
    (i j stack entry name : ℕ) (k : Kernel)
    → (with_stack j stack entry name k).0 ≡ some i
    → ((with_stack j stack entry name k).1.table.tasks i).pid
      ≡ make_pid i (u64 ((k.table.tasks i).generation + 1))
with_stack-pid i j stack entry name k e = elim (Bool-cases (stack == 0)) [
  | inl missing ↦ absurd (ground arith)
  | inr there ↦
      let same : j ≡ i = ground arith in
      rw there (
        subst
          (λ n.
            ((fill_slot n stack entry name k.table).tasks i).pid
            ≡ make_pid i (u64 ((k.table.tasks i).generation + 1)))
          (sym same) (fill_slot-pid i stack entry name k.table))
]

-- A new task has the identifier of its slot and of the generation after the one before.
pub init_common_slot-pid :
    (entry name i : ℕ) (k : Kernel)
    → (init_common_slot entry name k).0 ≡ some i
    → ((init_common_slot entry name k).1.table.tasks i).pid
      ≡ make_pid i (u64 ((k.table.tasks i).generation + 1))
unfolding init_common_slot
init_common_slot-pid entry name i k e = elim (Option-cases (find_free_slot k.table)) [
  | inl full ↦
      let never : none ≡ some i = sym (rw (full, init_common_slot) refl) ∙ e in
      absurd (ground arith)
  | inr (j, free) ↦
      let (stack, heap, pmm) = kmalloc task_stack_size k.heap k.machine.pmm in
      let k₁ = record k { heap = heap; machine = record k.machine { pmm = pmm } } in
      let ok : (with_stack j stack entry name k₁).0 ≡ some i =
        sym (rw (free, init_common_slot) refl) ∙ e in
      rw (free, init_common_slot) (with_stack-pid i j stack entry name k₁ ok)
]
