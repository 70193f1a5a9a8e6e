-- ===== src/Task/Schedule.antt =====
-- The choice of the next task.
use venom_os.Base.{
  ℕ, zero, suc, ◌+◌, ◌-◌, ◌%◌, ◌≤◌, ◌<◌, ◌≡◌, ◌≢◌, ◌==◌, true, false, none, some, refl, arith,
  Option-cases, Bool-cases, inl, inr, subst, ◌⊎◌, ℕ_discrete,
}
use venom_os.Task.{Table, max_tasks, is_ready, is_running, pick, reschedule, switch_to, start_index}

-- The slot at an offset round the table.
abbrev pub slot_at : ℕ → ℕ → ℕ
slot_at start offset = (start + offset) % max_tasks

-- The nearest ready slot after the start.
pub record Nearest (t : Table) (start lo hi i : ℕ) : Type 0 where
  pub offset : ℕ
  pub in_turn : (lo ≤ offset) × (offset < hi)
  pub at : slot_at start offset ≡ i
  pub is_it : is_ready (t.tasks i).state ≡ true
  pub none_before :
      (o : ℕ) → lo ≤ o → o < offset → is_ready (t.tasks (slot_at start o)).state ≡ false

pick-Nearest :
    (left offset start : ℕ) (t : Table) (i : ℕ)
    → pick left offset start t ≡ some i
    → Nearest t start offset (offset + left) i
unfolding pick
pick-Nearest zero offset start t i e = absurd (ground arith)
pick-Nearest (suc left) offset start t i e =
    elim (Bool-cases (is_ready (t.tasks (slot_at start offset)).state)) [
      | inl here ↦
          let same : slot_at start offset ≡ i = ground arith in
          record {
            offset = offset;
            in_turn = omega arith;
            at = same;
            is_it = subst (λ j. is_ready (t.tasks j).state ≡ true) same here;
            none_before = λ o a b. absurd (omega arith);
          }
      | inr past ↦
          let n = pick-Nearest left (offset + 1) start t i (rw past at e) in
          record {
            offset = n.offset;
            in_turn = omega (arith, n.in_turn);
            at = n.at;
            is_it = n.is_it;
            none_before = λ o a b. elim (ℕ_discrete o offset) [
              | yes same ↦ rw same past
              | no later ↦ n.none_before o (omega arith) b
            ];
          }
    ]

pick-none :
    (left offset start : ℕ) (t : Table) (o : ℕ)
    → pick left offset start t ≡ none
    → offset ≤ o
    → o < offset + left
    → is_ready (t.tasks (slot_at start o)).state ≡ false
unfolding pick
pick-none zero offset start t o e a b = absurd (omega arith)
pick-none (suc left) offset start t o e a b =
    elim (Bool-cases (is_ready (t.tasks (slot_at start offset)).state)) [
      | inl here ↦ absurd (ground arith)
      | inr past ↦ elim (ℕ_discrete o offset) [
        | yes same ↦ rw same past
        | no later ↦
            pick-none left (offset + 1) start t o (rw past at e) (omega arith) (omega arith)
      ]
    ]

-- `reschedule` runs the ready task that comes next round the table, the current one last, and
-- changes nothing when no task of the table is ready.
pub reschedule_lem :
    (t : Table)
    → ((i : ℕ) × Nearest t (start_index t) 1 129 i × (reschedule t ≡ switch_to i t))
      ⊎ (((j : ℕ) → j < max_tasks → is_ready (t.tasks j).state ≡ false) × (reschedule t ≡ t))
unfolding reschedule
reschedule_lem t = elim (Option-cases (pick max_tasks 1 (start_index t) t)) [
  | inr (i, found) ↦ inl (i, pick-Nearest max_tasks 1 (start_index t) t i found, rw found refl)
  | inl nothing ↦ inr (
    λ j h.
        subst (λ n. is_ready (t.tasks n).state ≡ false) (round j h)
          (pick-none max_tasks 1 (start_index t) t ((j + 128 - start_index t % 128 + 127) % 128 + 1)
            nothing (omega arith) (omega arith)),
    rw nothing refl,
  )
]
  where
    round :
        (j : ℕ)
        → j < max_tasks
        → slot_at (start_index t) ((j + 128 - start_index t % 128 + 127) % 128 + 1) ≡ j
    round j h = omega arith

-- No task but the one in slot `c` runs.
abbrev pub RunsOnly : ℕ → Table → Type 0
RunsOnly c t = (j : ℕ) → j ≢ c → is_running (t.tasks j).state ≡ false

-- After a switch to another task, that task is the current one, it runs, and it is the only one that
-- runs, when none but the task before it ran. A switch to the current task changes nothing.
pub switch_to-RunsOnly :
    (next c : ℕ) (t : Table)
    → t.current_index ≡ some c
    → RunsOnly c t
    → (next ≢ c
        → ((switch_to next t).current_index ≡ some next)
          × (is_running ((switch_to next t).tasks next).state ≡ true)
          × RunsOnly next (switch_to next t))
      × (next ≡ c → switch_to next t ≡ t)
unfolding switch_to
switch_to-RunsOnly next c t cur only = elim (Bool-cases (c == next)) [
  | inl same ↦ (λ ne. absurd (ground arith), λ e. rw (cur, same) refl)
  | inr other ↦ (
    λ ne. rw (cur, other) (refl, ground arith, λ j nj. ground (arith, only j)),
    λ e. absurd (ground arith),
  )
]
