-- ===== src/Task/Life/Fields.antt =====
-- The fields of a task that the changes of task.cpp to the family of a task leave alone.
use venom_os.Base.{
  ℕ, zero, suc, ◌==◌, ◌≡◌, ◌||◌, Option, none, some, refl, sym, ◌∙◌, ap, subst, arith, inl, inr,
  Bool-cases, Option-cases, ℕ_discrete,
}
use venom_os.Task.{
  Table, Task, State, no_pid, max_tasks, find_by_pid, add_child, unblock, is_blocked, unblock_at,
}
use venom_os.Task.Life.{reparent, leave_children, no_children_left, hand_over, set_task, adopt}

some-injective : {A : Type 0} {a b : A} → some a ≡ some b → a ≡ b
some-injective {A} {a} {b} e = ap (λ o. elim o [ none ↦ a | some x ↦ x ]) e

-- The same exit code, stack and address space in both tasks.
pub record AgreeOn (x y : Task) : Type 0 where
  pub exit_code : y.exit_code ≡ x.exit_code
  pub stack_base : y.stack_base ≡ x.stack_base
  pub cr3 : y.cr3 ≡ x.cr3
  pub pid : y.pid ≡ x.pid

pub AgreeOn-refl : (x : Task) → AgreeOn x x
AgreeOn-refl x = record { exit_code = refl; stack_base = refl; cr3 = refl; pid = refl }

pub AgreeOn-then : (x y z : Task) → AgreeOn x y → AgreeOn y z → AgreeOn x z
AgreeOn-then x y z a b = record {
  exit_code = b.exit_code ∙ a.exit_code;
  stack_base = b.stack_base ∙ a.stack_base;
  cr3 = b.cr3 ∙ a.cr3;
  pid = b.pid ∙ a.pid;
}

-- A store to one slot keeps the others, and that slot where the fields agree.
pub set_task-AgreeOn :
    (i : ℕ) (x : Task) (t : Table) (k : ℕ)
    → AgreeOn (t.tasks i) x
    → AgreeOn (t.tasks k) ((set_task i x t).tasks k)
set_task-AgreeOn i x t k a = elim (ℕ_discrete i k) [
  | yes same ↦
      let here : (set_task i x t).tasks k ≡ x = ground arith in
      subst (λ j. AgreeOn (t.tasks j) ((set_task i x t).tasks k)) same
        (subst (AgreeOn (t.tasks i)) (sym here) a)
  | no other ↦ subst (AgreeOn (t.tasks k)) (ground arith) (AgreeOn-refl (t.tasks k))
]

pub add_child-AgreeOn :
    (p i : ℕ) (t : Table) (k : ℕ) → AgreeOn (t.tasks k) ((add_child p i t).tasks k)
unfolding add_child
add_child-AgreeOn p i t k =
    let x = record (t.tasks i) { next_sibling = (t.tasks p).first_child } in
    let t₁ = set_task i x t in
    AgreeOn-then (t.tasks k) (t₁.tasks k) ((add_child p i t).tasks k)
      (set_task-AgreeOn i x t k
        (record { exit_code = refl; stack_base = refl; cr3 = refl; pid = refl }))
      (set_task-AgreeOn p (record (t₁.tasks p) { first_child = (t₁.tasks i).pid }) t₁ k
        (record { exit_code = refl; stack_base = refl; cr3 = refl; pid = refl }))

pub unblock_at-AgreeOn :
    (o : Option ℕ) (t : Table) (k : ℕ) → AgreeOn (t.tasks k) ((unblock_at o t).tasks k)
unblock_at-AgreeOn none t k = AgreeOn-refl (t.tasks k)
unblock_at-AgreeOn (some i) t k = elim (Bool-cases (is_blocked (t.tasks i).state)) [
  | inl yes_blocked ↦ rw yes_blocked (
      set_task-AgreeOn i (record (t.tasks i) { state = State.ready }) t k
        (record { exit_code = refl; stack_base = refl; cr3 = refl; pid = refl }))
  | inr no_blocked ↦ rw no_blocked (AgreeOn-refl (t.tasks k))
]

pub unblock-AgreeOn : (pid : ℕ) (t : Table) (k : ℕ) → AgreeOn (t.tasks k) ((unblock pid t).tasks k)
unfolding unblock
unblock-AgreeOn pid t k = unblock_at-AgreeOn (find_by_pid t pid) t k

pub adopt-AgreeOn :
    (o : Option ℕ) (i : ℕ) (t : Table) (k : ℕ) → AgreeOn (t.tasks k) ((adopt o i t).tasks k)
adopt-AgreeOn none i t k = AgreeOn-refl (t.tasks k)
adopt-AgreeOn (some p) i t k = add_child-AgreeOn p i t k

pub hand_over-AgreeOn :
    (init_pid i : ℕ) (t : Table) (k : ℕ) → AgreeOn (t.tasks k) ((hand_over init_pid i t).tasks k)
hand_over-AgreeOn init_pid i t k =
    let x = record (t.tasks i) { parent_pid = init_pid; next_sibling = no_pid } in
    let t₁ = set_task i x t in
    let t₂ = adopt (find_by_pid t init_pid) i t₁ in
    AgreeOn-then (t.tasks k) (t₁.tasks k) ((hand_over init_pid i t).tasks k)
      (set_task-AgreeOn i x t k
        (record { exit_code = refl; stack_base = refl; cr3 = refl; pid = refl }))
      (AgreeOn-then (t₁.tasks k) (t₂.tasks k) ((hand_over init_pid i t).tasks k)
        (adopt-AgreeOn (find_by_pid t init_pid) i t₁ k) (unblock-AgreeOn init_pid t₂ k))

pub reparent-AgreeOn :
    (left init_pid child : ℕ) (t t' : Table) (k : ℕ)
    → reparent left init_pid child t ≡ some t'
    → AgreeOn (t.tasks k) (t'.tasks k)
unfolding reparent
reparent-AgreeOn zero init_pid child t t' k e = elim (Option-cases (find_by_pid t child)) [
  | inl missing ↦
      let same : some t ≡ some t' = sym (rw (missing, reparent) refl) ∙ e in
      subst (λ (u : Table). AgreeOn (t.tasks k) (u.tasks k)) (some-injective same)
        (AgreeOn-refl (t.tasks k))
  | inr (i, found) ↦
      let never : none ≡ some t' = sym (rw (found, reparent) refl) ∙ e in absurd (ground arith)
]
reparent-AgreeOn (suc left) init_pid child t t' k e = elim (Option-cases (find_by_pid t child)) [
  | inl missing ↦
      let same : some t ≡ some t' = sym (rw (missing, reparent) refl) ∙ e in
      subst (λ (u : Table). AgreeOn (t.tasks k) (u.tasks k)) (some-injective same)
        (AgreeOn-refl (t.tasks k))
  | inr (i, found) ↦
      let t₁ = hand_over init_pid i t in
      let rest : reparent left init_pid (t.tasks i).next_sibling t₁ ≡ some t' =
        sym (rw (found, reparent) refl) ∙ e in
      AgreeOn-then (t.tasks k) (t₁.tasks k) (t'.tasks k) (hand_over-AgreeOn init_pid i t k)
        (reparent-AgreeOn left init_pid (t.tasks i).next_sibling t₁ t' k rest)
]

no_children_left-AgreeOn :
    (c : ℕ) (t : Table) (o : Option Table) (t' : Table) (k : ℕ)
    → ((u : Table) → o ≡ some u → AgreeOn (t.tasks k) (u.tasks k))
    → no_children_left c o ≡ some t'
    → AgreeOn (t.tasks k) (t'.tasks k)
no_children_left-AgreeOn c t none t' k before e = absurd (ground arith)
no_children_left-AgreeOn c t (some u) t' k before e =
    let x = record (u.tasks c) { first_child = no_pid } in
    subst (λ (v : Table). AgreeOn (t.tasks k) (v.tasks k)) (some-injective e)
      (AgreeOn-then (t.tasks k) (u.tasks k) ((set_task c x u).tasks k) (before u refl) (
        set_task-AgreeOn c x u k
          (record { exit_code = refl; stack_base = refl; cr3 = refl; pid = refl })))

pub leave_children-AgreeOn :
    (init_pid c : ℕ) (t t' : Table) (k : ℕ)
    → leave_children init_pid c t ≡ some t'
    → AgreeOn (t.tasks k) (t'.tasks k)
leave_children-AgreeOn init_pid c t t' k e =
    elim (Bool-cases (init_pid == no_pid || (t.tasks c).pid == init_pid)) [
      | inl kept ↦
          let same : some t ≡ some t' = sym (rw kept refl) ∙ e in
          subst (λ (u : Table). AgreeOn (t.tasks k) (u.tasks k)) (some-injective same)
            (AgreeOn-refl (t.tasks k))
      | inr given ↦
          let o = reparent max_tasks init_pid (t.tasks c).first_child t in
          let given' : no_children_left c o ≡ some t' = sym (rw given refl) ∙ e in
          no_children_left-AgreeOn c t o t' k
            (λ u e'. reparent-AgreeOn max_tasks init_pid (t.tasks c).first_child t u k e') given'
    ]
