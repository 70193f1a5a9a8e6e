-- ===== src/Task/Life/Family.antt =====
-- The loop of `exit_current` of task.cpp over the children of a task, on a list of children that is one.
use venom_os.Base.{
  ℕ, zero, suc, ◌==◌, ◌≡◌, ◌≢◌, ◌≤◌, if◌then◌else◌, Bool, true, false, ◌&&◌, Option, none, some,
  List, [], ◌∷◌, length, refl, sym, ◌∙◌, subst, arith, inl, inr, Bool-cases, ℕ_discrete,
}
use venom_os.Task.{
  Table, Task, State, no_pid, find_by_pid, find_at, pid_slot_index, add_child, unblock, is_blocked,
  is_dead, unblock_at,
}
use venom_os.Task.Life.{reparent, hand_over, set_task, adopt}

-- From one task in slot `k` to another: the same pid, dead as before, and the same next sibling unless the
-- slot is `i`.
pub record IsKept (i k : ℕ) (x y : Task) : Type 0 where
  pub pid : y.pid ≡ x.pid
  pub dead : is_dead y.state ≡ is_dead x.state
  pub sibling : i ≢ k → y.next_sibling ≡ x.next_sibling

-- Every slot of the table is kept.
abbrev pub AreKept : ℕ → Table → Table → Type 0
AreKept i t t' = (k : ℕ) → IsKept i k (t.tasks k) (t'.tasks k)

AreKept-refl : (i : ℕ) (t : Table) → AreKept i t t
AreKept-refl i t k = record { pid = refl; dead = refl; sibling = λ n. refl }

AreKept-then : (i : ℕ) (t u v : Table) → AreKept i t u → AreKept i u v → AreKept i t v
AreKept-then i t u v a b k = record {
  pid = (b k).pid ∙ (a k).pid;
  dead = (b k).dead ∙ (a k).dead;
  sibling = λ n. (b k).sibling n ∙ (a k).sibling n;
}

-- A store to one slot.
pub set_task-AreKept :
    (i j : ℕ) (x : Task) (t : Table) → IsKept i j (t.tasks j) x → AreKept i t (set_task j x t)
set_task-AreKept i j x t a k = elim (ℕ_discrete j k) [
  | yes same ↦
      let here : (set_task j x t).tasks k ≡ x = ground arith in
      subst (λ l. IsKept i l (t.tasks l) ((set_task j x t).tasks k)) same
        (subst (IsKept i j (t.tasks j)) (sym here) a)
  | no other ↦ subst (IsKept i k (t.tasks k)) (ground arith) (AreKept-refl i t k)
]

add_child-AreKept : (p i : ℕ) (t : Table) → AreKept i t (add_child p i t)
unfolding add_child
add_child-AreKept p i t =
    let t₁ = set_task i (record (t.tasks i) { next_sibling = (t.tasks p).first_child }) t in
    AreKept-then i t t₁ (add_child p i t)
      (set_task-AreKept i i (record (t.tasks i) { next_sibling = (t.tasks p).first_child }) t
        (record { pid = refl; dead = refl; sibling = λ n. absurd (n refl) }))
      (set_task-AreKept i p (record (t₁.tasks p) { first_child = (t₁.tasks i).pid }) t₁
        (record { pid = refl; dead = refl; sibling = λ n. refl }))

adopt-AreKept : (o : Option ℕ) (i : ℕ) (t : Table) → AreKept i t (adopt o i t)
adopt-AreKept none i t = AreKept-refl i t
adopt-AreKept (some p) i t = add_child-AreKept p i t

blocked-alive : (s : State) → is_blocked s ≡ true → is_dead s ≡ false
blocked-alive State.dead b = ground arith
blocked-alive State.zombie b = refl
blocked-alive State.new b = refl
blocked-alive State.ready b = refl
blocked-alive State.running b = refl
blocked-alive State.blocked b = refl
blocked-alive State.sleeping b = refl

unblock_at-AreKept : (o : Option ℕ) (i : ℕ) (t : Table) → AreKept i t (unblock_at o t)
unblock_at-AreKept none i t = AreKept-refl i t
unblock_at-AreKept (some p) i t = elim (Bool-cases (is_blocked (t.tasks p).state)) [
  | inl waits ↦ rw waits (
      set_task-AreKept i p (record (t.tasks p) { state = State.ready }) t
        (record {
          pid = refl;
          dead = sym (blocked-alive (t.tasks p).state waits);
          sibling = λ n. refl;
        }))
  | inr moves ↦ rw moves (AreKept-refl i t)
]

hand_over-AreKept : (init_pid i : ℕ) (t : Table) → AreKept i t (hand_over init_pid i t)
unfolding unblock
hand_over-AreKept init_pid i t =
    let x = record (t.tasks i) { parent_pid = init_pid; next_sibling = no_pid } in
    let t₁ = set_task i x t in
    let t₂ = adopt (find_by_pid t init_pid) i t₁ in
    AreKept-then i t t₁ (hand_over init_pid i t)
      (set_task-AreKept i i x t
        (record { pid = refl; dead = refl; sibling = λ n. absurd (n refl) }))
      (AreKept-then i t₁ t₂ (hand_over init_pid i t) (adopt-AreKept (find_by_pid t init_pid) i t₁)
        (unblock_at-AreKept (find_by_pid t₂ init_pid) i t₂))

find_at-same :
    (i pid : ℕ) (t t' : Table) (o : Option ℕ) → AreKept i t t' → find_at t' pid o ≡ find_at t pid o
find_at-same i pid t t' none a = refl
find_at-same i pid t t' (some j) a = rw ((a j).pid, (a j).dead) refl

pub find_by_pid-same :
    (i pid : ℕ) (t t' : Table) → AreKept i t t' → find_by_pid t' pid ≡ find_by_pid t pid
unfolding find_by_pid
find_by_pid-same i pid t t' a = rw (find_at-same i pid t t' (pid_slot_index pid) a) refl

-- The slot is none of those in the list.
abbrev pub apart : ℕ → List ℕ → Bool
apart i [] = true
apart i (j ∷ js) = (if i == j then false else true) && apart i js

-- From `pid` on, the children are the tasks in these slots, each of them once: each is the next sibling of
-- the one before, and what comes after the last is no task.
abbrev pub Siblings : Table → ℕ → List ℕ → Type 0
Siblings t pid [] = find_by_pid t pid ≡ none
Siblings t pid (i ∷ slots) =
    (find_by_pid t pid ≡ some i)
    × (apart i slots ≡ true)
    × Siblings t (t.tasks i).next_sibling slots

pub Siblings-same :
    (i : ℕ) (slots : List ℕ) (pid : ℕ) (t t' : Table)
    → AreKept i t t'
    → apart i slots ≡ true
    → Siblings t pid slots
    → Siblings t' pid slots
Siblings-same i [] pid t t' a n s = find_by_pid-same i pid t t' a ∙ s
Siblings-same i (j ∷ slots) pid t t' a n (found, alone, rest) =
    let next = (a j).sibling (ground arith) in
    (
      find_by_pid-same i pid t t' a ∙ found,
      alone,
      subst (λ p. Siblings t' p slots) (sym next)
          (Siblings-same i slots (t.tasks j).next_sibling t t' a (ground arith) rest),
    )

-- The loop ends when it is given a round for each child.
pub reparent-ends :
    (slots : List ℕ) (left init_pid pid : ℕ) (t : Table)
    → Siblings t pid slots
    → length slots ≤ left
    → (t' : Table) × (reparent left init_pid pid t ≡ some t')
unfolding reparent
reparent-ends [] zero init_pid pid t s le = (t, rw (s, reparent) refl)
reparent-ends [] (suc left) init_pid pid t s le = (t, rw (s, reparent) refl)
reparent-ends (i ∷ slots) zero init_pid pid t s le = absurd (ground arith)
reparent-ends (i ∷ slots) (suc left) init_pid pid t (found, alone, rest) le =
    let t₁ = hand_over init_pid i t in
    let (t', e) =
      reparent-ends slots left init_pid (t.tasks i).next_sibling t₁
        (Siblings-same i slots (t.tasks i).next_sibling t t₁ (hand_over-AreKept init_pid i t) alone
          rest)
        (ground arith) in
    (t', rw (found, reparent) e)
