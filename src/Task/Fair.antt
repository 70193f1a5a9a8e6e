-- ===== src/Task/Fair.antt =====
-- Every ready task gets its turn: the round robin of scheduler.cpp.
use venom_os.Base.{
  ℕ, zero, suc, ◌+◌, ◌-◌, ◌%◌, ◌≤◌, ◌<◌, ◌≡◌, ◌≢◌, true, Option, none, some, refl, ◌∙◌, arith, ap,
  Bool-cases, inl, inr, subst, ℕ_discrete, dec_lt,
}
use venom_os.Task.{
  Table, State, max_tasks, is_ready, is_running, reschedule, switch_to, start_index, set_state,
  put_back, is_current,
}
use venom_os.Task.Schedule.{Nearest, slot_at, reschedule_lem}

-- The steps round the table from one slot to another, the whole round for the slot itself.
abbrev pub distance : ℕ → ℕ → ℕ
distance c j = (j + 128 - c % 128 + 127) % 128 + 1

-- The table after a number of calls of `reschedule`.
unfoldable pub reschedule_times : ℕ → Table → Table
reschedule_times zero t = t
reschedule_times (suc n) t = reschedule_times n (reschedule t)

set_state-other :
    (t : Table) (i : ℕ) (s : State) (c : ℕ) → i ≢ c → (set_state t i s).tasks c ≡ t.tasks c
set_state-other t i s c ne = ground arith

-- A ready task stays ready when another one is put back or chosen.
put_back_ready :
    (o : Option ℕ) (t : Table) (j : ℕ)
    → is_ready (t.tasks j).state ≡ true
    → is_ready ((put_back o t).tasks j).state ≡ true
put_back_ready none t j h = h
put_back_ready (some c) t j h = elim (Bool-cases (is_running (t.tasks c).state)) [
  | inl runs ↦ rw runs (ground arith)
  | inr rests ↦ rw rests h
]

switch_to_ready :
    (next : ℕ) (t : Table) (j : ℕ)
    → next ≢ j
    → is_ready (t.tasks j).state ≡ true
    → is_ready ((switch_to next t).tasks j).state ≡ true
unfolding switch_to
switch_to_ready next t j ne h = elim (Bool-cases (is_current t.current_index next)) [
  | inl same ↦ rw same h
  | inr other ↦ rw other (
      ap (λ x. is_ready x.state)
        (set_state-other (put_back t.current_index t) next State.running j ne)
      ∙ put_back_ready t.current_index t j h)
]

is_current_eq : (o : Option ℕ) (next : ℕ) → is_current o next ≡ true → o ≡ some next
is_current_eq none next e = ground arith
is_current_eq (some c) next e = ground arith

switch_to_current : (next : ℕ) (t : Table) → (switch_to next t).current_index ≡ some next
unfolding switch_to
switch_to_current next t = elim (Bool-cases (is_current t.current_index next)) [
  | inl same ↦ rw same (is_current_eq t.current_index next same)
  | inr other ↦ rw other refl
]

start_of : (t : Table) (c : ℕ) → t.current_index ≡ some c → start_index t ≡ c
start_of t c cur = ap (λ o. elim o [ none ↦ 0 | some k ↦ k ]) cur

-- The chosen task is no further than a ready one.
Nearest-le :
    (t : Table) (c i j : ℕ) (n : Nearest t c 1 129 i)
    → j < max_tasks
    → is_ready (t.tasks j).state ≡ true
    → n.offset ≤ distance c j
Nearest-le t c i j n lt ready = elim (dec_lt (distance c j) n.offset) [
  | no le ↦ omega arith
  | yes closer ↦
      let at : slot_at c (distance c j) ≡ j = omega arith in
      let before = n.none_before (distance c j) (omega arith) closer in
      let same = ap (λ k. is_ready (t.tasks k).state) at in absurd (ground arith)
]

-- How far the next current task is from the same ready one.
closer :
    (c i j offset : ℕ)
    → i ≢ j
    → j < max_tasks
    → 1 ≤ offset
    → offset < 129
    → slot_at c offset ≡ i
    → offset ≤ distance c j
    → distance i j + 1 ≤ distance c j
closer c i j offset ne lt lo hi at le = omega arith

-- The turn of a slot comes within a number of calls.
abbrev Reaches : ℕ → Table → ℕ → Type 0
Reaches n t j = (m : ℕ) × (m ≤ n) × ((reschedule_times m t).current_index ≡ some j)

reschedule-Reaches :
    (n : ℕ) (t : Table) (c j : ℕ)
    → t.current_index ≡ some c
    → j < max_tasks
    → is_ready (t.tasks j).state ≡ true
    → distance c j ≤ n
    → Reaches n t j
unfolding reschedule_times
reschedule-Reaches zero t c j cur lt ready near = absurd (omega arith)
reschedule-Reaches (suc n) t c j cur lt ready near = elim (reschedule_lem t) [
  | inr (idle, e) ↦ let not_ready = idle j lt in absurd (ground arith)
  | inl (i, nearest, e) ↦
      let from_c = subst (λ s. Nearest t s 1 129 i) (start_of t c cur) nearest in
      let now : (reschedule t).current_index ≡ some i =
        ap (λ (u : Table). u.current_index) e ∙ switch_to_current i t in
      elim (ℕ_discrete i j) [
        | yes same ↦ (1, omega arith, now ∙ ap some same)
        | no other ↦
            let (lo, hi) = from_c.in_turn in
            let step =
              closer c i j from_c.offset other lt lo hi from_c.at
                (Nearest-le t c i j from_c lt ready) in
            let still : is_ready ((reschedule t).tasks j).state ≡ true =
              ap (λ (u : Table). is_ready (u.tasks j).state) e
              ∙ switch_to_ready i t j other ready in
            let (m, le, there) =
              reschedule-Reaches n (reschedule t) i j now lt still (omega arith) in
            (suc m, omega arith, there)
      ]
]

-- A ready task becomes the current one within as many calls of `reschedule` as it is steps away from the
-- current task round the table, which is at most 128, whichever other tasks are ready.
pub reschedule-reaches_ready :
    (t : Table) (c j : ℕ)
    → t.current_index ≡ some c
    → j < max_tasks
    → is_ready (t.tasks j).state ≡ true
    → (m : ℕ) × (m ≤ distance c j) × (m ≤ 128) × ((reschedule_times m t).current_index ≡ some j)
reschedule-reaches_ready t c j cur lt ready =
    let (m, le, there) = reschedule-Reaches (distance c j) t c j cur lt ready (omega arith) in
    (m, le, omega arith, there)
