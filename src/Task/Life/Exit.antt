-- ===== src/Task/Life/Exit.antt =====
-- What `exit_current` of task.cpp leaves of a task.
use venom_os.Base.{
  ℕ, ◌≡◌, ◌≢◌, Bool, true, ◌||◌, Option, none, some, refl, sym, ◌∙◌, ap, subst, arith, inl, inr,
  Bool-cases, Option-cases, suc, ◌≤◌, ◌==◌, List, [], ◌∷◌, length,
}
use venom_os.Task.{
  Table, Task, State, no_pid, find_by_pid, is_current, unblock, reschedule, is_dead, is_blocked,
  is_running, is_ready, set_state, unblock_at, switch_to, put_back, max_tasks,
}
use venom_os.Task.Schedule.{reschedule_lem}
use venom_os.Task.Life.{
  with_table, Kernel, leave_children, end_task, cleanup_of, leave, exit_current, set_task,
  is_zombie, no_children_left, ended_with,
}
use venom_os.Task.Life.Family.{AreKept, set_task-AreKept, find_by_pid-same, Siblings, reparent-ends}
use venom_os.Task.Life.Fields.{AgreeOn, AgreeOn-then, leave_children-AgreeOn}

-- The task has ended.
abbrev pub is_over : State → Bool
is_over s = is_dead s || is_zombie s

-- The slot of a task that has ended, with what it left.
record IsOver (x y : Task) : Type 0 where
  pub over : is_over y.state ≡ true
  pub same : AgreeOn x y

stored :
    (c : ℕ) (x : Task) (t : Table)
    → is_over x.state ≡ true
    → AgreeOn (t.tasks c) x
    → IsOver (t.tasks c) ((set_task c x t).tasks c)
stored c x t over agree =
    let here : (set_task c x t).tasks c ≡ x = ground arith in
    subst (IsOver (t.tasks c)) (sym here) (record { over = over; same = agree })

over-blocked : (s : State) → is_over s ≡ true → is_blocked s ≢ true
over-blocked State.dead o b = ground arith
over-blocked State.zombie o b = ground arith
over-blocked State.new o b = ground arith
over-blocked State.ready o b = ground arith
over-blocked State.running o b = ground arith
over-blocked State.blocked o b = ground arith
over-blocked State.sleeping o b = ground arith

over-running : (s : State) → is_over s ≡ true → is_running s ≢ true
over-running State.dead o b = ground arith
over-running State.zombie o b = ground arith
over-running State.new o b = ground arith
over-running State.ready o b = ground arith
over-running State.running o b = ground arith
over-running State.blocked o b = ground arith
over-running State.sleeping o b = ground arith

over-ready : (s : State) → is_over s ≡ true → is_ready s ≢ true
over-ready State.dead o b = ground arith
over-ready State.zombie o b = ground arith
over-ready State.new o b = ground arith
over-ready State.ready o b = ground arith
over-ready State.running o b = ground arith
over-ready State.blocked o b = ground arith
over-ready State.sleeping o b = ground arith

set_state-other :
    (t : Table) (i : ℕ) (s : State) (c : ℕ) → i ≢ c → (set_state t i s).tasks c ≡ t.tasks c
set_state-other t i s c ne = ground arith

-- A slot that passes a test which no task that has ended passes is another slot.
differs :
    (test : State → Bool) (t : Table) (i c : ℕ)
    → ((s : State) → is_over s ≡ true → test s ≢ true)
    → is_over (t.tasks c).state ≡ true
    → test (t.tasks i).state ≡ true
    → i ≢ c
differs test t i c never over is_it same =
    never (t.tasks c).state over (ap (λ j. test (t.tasks j).state) (sym same) ∙ is_it)

unblock_at-over :
    (o : Option ℕ) (t : Table) (c : ℕ)
    → is_over (t.tasks c).state ≡ true
    → (unblock_at o t).tasks c ≡ t.tasks c
unblock_at-over none t c over = refl
unblock_at-over (some i) t c over = elim (Bool-cases (is_blocked (t.tasks i).state)) [
  | inl waits ↦
      rw waits
        (set_state-other t i State.ready c (differs is_blocked t i c over-blocked over waits))
  | inr moves ↦ rw moves refl
]

put_back-over :
    (o : Option ℕ) (t : Table) (c : ℕ)
    → is_over (t.tasks c).state ≡ true
    → (put_back o t).tasks c ≡ t.tasks c
put_back-over none t c over = refl
put_back-over (some i) t c over = elim (Bool-cases (is_running (t.tasks i).state)) [
  | inl runs ↦
      rw runs (set_state-other t i State.ready c (differs is_running t i c over-running over runs))
  | inr rests ↦ rw rests refl
]

switch_to-over :
    (next : ℕ) (t : Table) (c : ℕ)
    → is_over (t.tasks c).state ≡ true
    → is_ready (t.tasks next).state ≡ true
    → (switch_to next t).tasks c ≡ t.tasks c
unfolding switch_to
switch_to-over next t c over picked = elim (Bool-cases (is_current t.current_index next)) [
  | inl same ↦ rw same refl
  | inr other ↦ rw other (
      set_state-other (put_back t.current_index t) next State.running c
        (differs is_ready t next c over-ready over picked)
      ∙ put_back-over t.current_index t c over)
]

reschedule-over :
    (t : Table) (c : ℕ) → is_over (t.tasks c).state ≡ true → (reschedule t).tasks c ≡ t.tasks c
reschedule-over t c over = elim (reschedule_lem t) [
  | inl (i, n, e) ↦ ap (λ (u : Table). u.tasks c) e ∙ switch_to-over i t c over n.is_it
  | inr (idle, e) ↦ ap (λ (u : Table). u.tasks c) e
]

end_task-IsOver : (c : ℕ) (t : Table) → IsOver (t.tasks c) ((end_task c t).tasks c)
unfolding end_task unblock
end_task-IsOver c t = elim (Option-cases (find_by_pid t (t.tasks c).parent_pid)) [
  | inl orphan ↦
      rw (orphan, end_task)
        (stored c (record (t.tasks c) { state = State.dead; parent_pid = no_pid }) t refl
          (record { exit_code = refl; stack_base = refl; cr3 = refl; pid = refl }))
  | inr (p, parent) ↦
      let t₁ = set_task c (record (t.tasks c) { state = State.zombie }) t in
      let done =
        stored c (record (t.tasks c) { state = State.zombie }) t refl
          (record { exit_code = refl; stack_base = refl; cr3 = refl; pid = refl }) in
      rw (parent, end_task)
        (subst (IsOver (t.tasks c))
          (sym (unblock_at-over (find_by_pid t₁ (t.tasks c).parent_pid) t₁ c done.over)) done)
]

-- What the kernel knows of a task once it has called `exit_current`.
pub record HasExited (c exit_code : ℕ) (x : Task) (k : Kernel) : Type 0 where
  pub over : is_over (k.table.tasks c).state ≡ true
  pub code : (k.table.tasks c).exit_code ≡ exit_code
  pub no_stack : (k.table.tasks c).stack_base ≡ 0
  pub no_space : (k.table.tasks c).cr3 ≡ 0
  pub pid : (k.table.tasks c).pid ≡ x.pid
  pub pending : k.pending_cleanup ≡ cleanup_of x

exit_current-leave :
    (exit_code c : ℕ) (k : Kernel)
    → k.table.current_index ≡ some c
    → exit_current exit_code k ≡ leave exit_code c k
unfolding exit_current
exit_current-leave exit_code c k cur =
    ap (λ o. elim o [ none ↦ some (with_table reschedule k) | some c' ↦ leave exit_code c' k ]) cur

-- The table when a task starts to leave.
abbrev leaving : ℕ → ℕ → Table → Table
leaving exit_code c t =
    set_task c (record (t.tasks c) { stack_base = 0; cr3 = 0; exit_code = exit_code }) t

leaving-AreKept : (exit_code c i : ℕ) (t : Table) → AreKept i t (leaving exit_code c t)
leaving-AreKept exit_code c i t =
    set_task-AreKept i c (record (t.tasks c) { stack_base = 0; cr3 = 0; exit_code = exit_code }) t
      (record { pid = refl; dead = refl; sibling = λ n. refl })

Siblings-leaving :
    (exit_code c : ℕ) (slots : List ℕ) (pid : ℕ) (t : Table)
    → Siblings t pid slots
    → Siblings (leaving exit_code c t) pid slots
Siblings-leaving exit_code c [] pid t s =
    find_by_pid-same c pid t (leaving exit_code c t) (leaving-AreKept exit_code c c t) ∙ s
Siblings-leaving exit_code c (j ∷ slots) pid t (found, alone, rest) =
    let t₁ = leaving exit_code c t in
    let next : (t₁.tasks j).next_sibling ≡ (t.tasks j).next_sibling =
      (leaving-AreKept exit_code c (suc j) t j).sibling (omega arith) in
    (
      find_by_pid-same c pid t t₁ (leaving-AreKept exit_code c c t) ∙ found,
      alone,
      subst (λ p. Siblings t₁ p slots) (sym next)
          (Siblings-leaving exit_code c slots (t.tasks j).next_sibling t rest),
    )

-- The children are left, whether there is an init or not.
leave_children-ends :
    (init_pid c : ℕ) (slots : List ℕ) (t : Table)
    → Siblings t (t.tasks c).first_child slots
    → length slots ≤ max_tasks
    → (t' : Table) × (leave_children init_pid c t ≡ some t')
leave_children-ends init_pid c slots t s le =
    let (t', e) = reparent-ends slots max_tasks init_pid (t.tasks c).first_child t s le in
    elim (Bool-cases (init_pid == no_pid || (t.tasks c).pid == init_pid)) [
      | inl kept ↦ (t, rw kept refl)
      | inr given ↦ (
        set_task c (record (t'.tasks c) { first_child = no_pid }) t',
        rw given (ap (no_children_left c) e),
      )
    ]

left-HasExited :
    (exit_code c : ℕ) (k : Kernel) (t : Table)
    → leave_children k.init_pid c (leaving exit_code c k.table) ≡ some t
    → HasExited c exit_code (k.table.tasks c) (record k {
      pending_cleanup = cleanup_of (k.table.tasks c);
      table = reschedule (end_task c t);
    })
left-HasExited exit_code c k t left =
    let x = k.table.tasks c in
    let y = record x { stack_base = 0; cr3 = 0; exit_code = exit_code } in
    let t₁ = leaving exit_code c k.table in
    let here : t₁.tasks c ≡ y = ground arith in
    let e = end_task-IsOver c t in
    let kept =
      AgreeOn-then (t₁.tasks c) (t.tasks c) ((end_task c t).tasks c)
        (leave_children-AgreeOn k.init_pid c t₁ t c left) e.same in
    let all = subst (λ z. AgreeOn z ((end_task c t).tasks c)) here kept in
    let after = reschedule-over (end_task c t) c e.over in
    record {
      over = ap (λ (z : Task). is_over z.state) after ∙ e.over;
      code = ap (λ (z : Task). z.exit_code) after ∙ all.exit_code;
      no_stack = ap (λ (z : Task). z.stack_base) after ∙ all.stack_base;
      no_space = ap (λ (z : Task). z.cr3) after ∙ all.cr3;
      pid = ap (λ (z : Task). z.pid) after ∙ all.pid;
      pending = refl;
    }

-- A task that calls `exit_current`, with children of which each occurs once in its list and at most
-- `max_tasks` in all, comes to the switch to the next task: by then it is a zombie or dead, it keeps its
-- pid and its exit code, and its stack and its address space are no longer its own but wait for the next
-- task to free them.
pub exit_current-HasExited :
    (exit_code c : ℕ) (slots : List ℕ) (k : Kernel)
    → k.table.current_index ≡ some c
    → Siblings k.table (k.table.tasks c).first_child slots
    → length slots ≤ max_tasks
    → (k' : Kernel) × (exit_current exit_code k ≡ some k')
      × HasExited c exit_code (k.table.tasks c) k'
unfolding leave
exit_current-HasExited exit_code c slots k cur s le =
    let x = k.table.tasks c in
    let t₁ = leaving exit_code c k.table in
    let first : (t₁.tasks c).first_child ≡ x.first_child = ground arith in
    let (t, left) =
      leave_children-ends k.init_pid c slots t₁
        (subst (λ p. Siblings t₁ p slots) (sym first)
          (Siblings-leaving exit_code c slots x.first_child k.table s))
        le in
    (
      record k { pending_cleanup = cleanup_of x; table = reschedule (end_task c t) },
      exit_current-leave exit_code c k cur ∙ ap (ended_with c (cleanup_of x) k) left,
      left-HasExited exit_code c k t left,
    )

-- The call comes to its end with or without a task that runs.
pub exit_current-ends :
    (exit_code : ℕ) (slots : List ℕ) (k : Kernel)
    → ((c : ℕ)
        → k.table.current_index ≡ some c
        → Siblings k.table (k.table.tasks c).first_child slots)
    → length slots ≤ max_tasks
    → (k' : Kernel) × (exit_current exit_code k ≡ some k')
unfolding exit_current
exit_current-ends exit_code slots k s le = elim (Option-cases k.table.current_index) [
  | inl idle ↦ (
    with_table reschedule k,
    ap (λ o. elim o [ none ↦ some (with_table reschedule k) | some c ↦ leave exit_code c k ]) idle,
  )
  | inr (c, cur) ↦
      let (k', e, left) = exit_current-HasExited exit_code c slots k cur (s c cur) le in (k', e)
]
