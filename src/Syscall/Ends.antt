-- ===== src/Syscall/Ends.antt =====
-- How a system call of interrupts.cpp ends, and what it may do to user memory.
use venom_os.Base.{
  ◌≢◌, ℕ, ◌^◌, ◌==◌, ◌≡◌, ◌≤◌, ◌<◌, ◌⊎◌, if◌then◌else◌, none, some, refl, ◌∙◌, ap, arith, inl, inr,
  Bool-cases, Option-cases, List, length,
}
use venom_os.Base.Memory.{u32}
use venom_os.Task.{sleep_current, is_current, max_tasks}
use venom_os.Task.Life.{with_table}
use venom_os.Task.Life.Family.{Siblings}
use venom_os.Task.Life.Exit.{exit_current-ends}
use venom_os.Syscall.{
  System, InterruptFrame, Outcome, Handled, answer, with_kernel, left_with, do_exit, do_sleep,
  own_pid, own_parent_pid, handle_syscall, sys_error, sys_getpid, sys_getppid, sys_uptime, sys_read,
  sys_filesize, sys_readfile, sys_exit, sys_write, sys_sleep,
}
use venom_os.Syscall.Copies.{IsGuarded, MayWrite}
use venom_os.Syscall.Guard.{
  do_read-IsGuarded, do_filesize-IsGuarded, do_readfile-IsGuarded, do_write-IsGuarded,
}

-- The ways in which a call may end: SYS_EXIT ends the caller, the others return, and SYS_SLEEP may let
-- another task run.
pub data EndsAs (number : ℕ) (h : Handled) (after : System) : Type 0 where
  returned : (rax : ℕ) → number ≢ sys_exit → h ≡ Handled.returns rax after → EndsAs number h after
  left : number ≡ sys_exit → h ≡ Handled.leaves after → EndsAs number h after
  switched : number ≡ sys_sleep → h ≡ Handled.switches 0 after → EndsAs number h after

-- The call has ended, and every byte of user memory is as before or the process could write it itself.
pub record IsHandled (number : ℕ) (s : System) (h : Handled) : Type 0 where
  pub after : System
  pub ends : EndsAs number h after
  pub kept : (a : ℕ) → (after.user a ≡ s.user a) ⊎ MayWrite s a

answer-IsHandled :
    (number : ℕ) (s : System) (o : Outcome)
    → number ≢ sys_exit
    → IsGuarded s o
    → IsHandled number s (answer o)
answer-IsHandled number s o other g = record {
  after = g.after;
  ends = EndsAs.returned g.rax other (ap answer g.ends);
  kept = g.kept;
}

returns-IsHandled :
    (number rax : ℕ) (s : System) → number ≢ sys_exit → IsHandled number s (Handled.returns rax s)
returns-IsHandled number rax s other = record {
  after = s;
  ends = EndsAs.returned rax other refl;
  kept = λ a. inl refl;
}

do_exit-IsHandled :
    (number rdi : ℕ) (slots : List ℕ) (s : System)
    → ((c : ℕ)
        → s.kernel.table.current_index ≡ some c
        → Siblings s.kernel.table (s.kernel.table.tasks c).first_child slots)
    → length slots ≤ max_tasks
    → number ≡ sys_exit
    → IsHandled number s (do_exit rdi s)
do_exit-IsHandled number rdi slots s children le exits =
    let (k, e) = exit_current-ends (u32 rdi) slots s.kernel children le in
    record {
      after = with_kernel k s;
      ends = EndsAs.left exits (ap (λ o. left_with o s) e);
      kept = λ a. inl refl;
    }

do_sleep-IsHandled :
    (number rdi : ℕ) (s : System) → number ≡ sys_sleep → IsHandled number s (do_sleep rdi s)
do_sleep-IsHandled number rdi s sleeps =
    let s' = with_kernel (with_table (sleep_current s.timer_ticks rdi) s.kernel) s in
    record {
      after = s';
      ends = elim (Option-cases s.kernel.table.current_index) [
        | inl idle ↦ EndsAs.returned 0 (omega arith) (
            ap
              (λ o. elim o [
                | none ↦ Handled.returns 0 s'
                | some c ↦
                    if is_current s'.kernel.table.current_index c
                    then Handled.returns 0 s'
                    else Handled.switches 0 s'
              ])
              idle)
        | inr (c, cur) ↦
            let pick =
              ap
                (λ o. elim o [
                  | none ↦ Handled.returns 0 s'
                  | some c ↦
                      if is_current s'.kernel.table.current_index c
                      then Handled.returns 0 s'
                      else Handled.switches 0 s'
                ])
                cur in
            elim (Bool-cases (is_current s'.kernel.table.current_index c)) [
              | inl stays ↦ EndsAs.returned 0 (omega arith) (pick ∙ (rw stays refl))
              | inr moves ↦ EndsAs.switched sleeps (pick ∙ (rw moves refl))
            ]
      ];
      kept = λ a. inl refl;
    }

-- Every system call, of every number and with any registers, ends when the calling task's children, if it
-- calls SYS_EXIT, are a list in which each occurs once, of at most `max_tasks`: SYS_EXIT ends the caller,
-- every other call returns, and SYS_SLEEP may let another task run before it does. The call changes no
-- byte of user memory that the calling process could not write itself: each is as before, or its page is
-- open to the user for writing in the page tables at the time of the call.
pub handle_syscall-IsHandled :
    (f : InterruptFrame) (slots : List ℕ) (s : System)
    → f.rsi < 2 ^ 64
    → f.rdx < 2 ^ 64
    → (f.rax ≡ sys_exit
        → (c : ℕ) → s.kernel.table.current_index ≡ some c
        → Siblings s.kernel.table (s.kernel.table.tasks c).first_child slots)
    → length slots ≤ max_tasks
    → IsHandled f.rax s (handle_syscall f s)
unfolding handle_syscall
handle_syscall-IsHandled f slots s hsi hdx children le =
    first sys_getpid (λ e. returned (own_pid s) (omega arith))
      (λ n1.
        first sys_getppid (λ e. returned (own_parent_pid s) (omega arith))
          (λ n2.
            first sys_uptime (λ e. returned s.timer_ticks (omega arith))
              (λ n3.
                first sys_read
                  (λ e. answered (omega arith) (do_read-IsGuarded f.rdi f.rsi f.rdx s hsi))
                  (λ n4.
                    first sys_filesize (λ e. answered (omega arith) (do_filesize-IsGuarded f.rdi s))
                      (λ n5.
                        first sys_readfile
                          (λ e.
                            answered (omega arith)
                              (do_readfile-IsGuarded f.rdi f.rsi f.rdx s hsi hdx))
                          (λ n6.
                            first sys_exit
                              (λ e. do_exit-IsHandled f.rax f.rdi slots s (children e) le e)
                              (λ stays.
                                first sys_write
                                  (λ e. answered stays (do_write-IsGuarded f.rdi f.rsi s))
                                  (λ n7.
                                    first sys_sleep (λ e. do_sleep-IsHandled f.rax f.rdi s e)
                                      (λ n8. returned sys_error stays)))))))))
  where
    answered : {o : Outcome} → f.rax ≢ sys_exit → IsGuarded s o → IsHandled f.rax s (answer o)
    answered {o} other g = answer-IsHandled f.rax s o other g

    returned : (rax : ℕ) → f.rax ≢ sys_exit → IsHandled f.rax s (Handled.returns rax s)
    returned rax other = returns-IsHandled f.rax rax s other

    first :
        (number : ℕ) {yes_case no_case : Handled}
        → (f.rax ≡ number → IsHandled f.rax s yes_case)
        → (f.rax ≢ number → IsHandled f.rax s no_case)
        → IsHandled f.rax s (if f.rax == number then yes_case else no_case)
    first number {yes_case} {no_case} g h = elim (Bool-cases (f.rax == number)) [
      | inl this ↦ rw this (g (ground arith))
      | inr other ↦ rw other (h (ground arith))
    ]
