-- ===== src/Task/Pid.antt =====
-- Process identifiers.
use venom_os.Base.{ℕ, ◌^◌, ◌<◌, ◌≡◌, ◌≢◌, some, arith}
use venom_os.Task.{max_tasks, no_pid, make_pid, pid_slot_index, pid_generation}

-- For a slot of the table and a generation below 2 ^ 56, the identifier gives both back, and is
-- neither `NO_PID` nor too large for 64 bits.
pub make_pid_lem :
    (slot generation : ℕ)
    → slot < max_tasks
    → generation < 2 ^ 56
    → (pid_slot_index (make_pid slot generation) ≡ some slot)
      × (pid_generation (make_pid slot generation) ≡ generation)
      × (make_pid slot generation ≢ no_pid)
      × (make_pid slot generation < 2 ^ 64)
unfolding make_pid pid_slot_index pid_generation
make_pid_lem slot generation hs hg = ground arith
