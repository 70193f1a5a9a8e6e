-- ===== src/Syscall.antt =====
-- kernel/interrupts.cpp: the system calls, over the tasks, the keyboard, the screen, the file system and
-- the memory of the calling process. A register is its 64-bit value.
pub mod Copies
pub mod Guard
pub mod Ends
mod Tests
use venom_os.Base.{
  ℕ, zero, suc, ◌+◌, ◌-◌, ◌*◌, ◌/◌, ◌%◌, ◌^◌, ◌==◌, if◌then◌else◌, Bool, true, false, ◌&&◌, ◌||◌,
  ltb, Option, none, some,
}
use venom_os.Base.Memory.{update, u64, u32, u8}
use venom_os.Task.{sleep_current, is_current}
use venom_os.Task.Life.{Kernel, exit_current, with_table}
use venom_os.Keyboard.{Keyboard, available, read_char}
use venom_os.Vga.{Vga, put_char}
use venom_os.Fs.{Fs, max_filename}
use venom_os.Fs.Files.{Reading, file_size, read}
use venom_os.Usercopy.{copy_from_user, copy_to_user, validate_user_range}

abbrev pub sys_exit : ℕ
sys_exit = 0

abbrev pub sys_write : ℕ
sys_write = 1

abbrev pub sys_sleep : ℕ
sys_sleep = 2

abbrev pub sys_getpid : ℕ
sys_getpid = 3

abbrev pub sys_getppid : ℕ
sys_getppid = 4

abbrev pub sys_uptime : ℕ
sys_uptime = 5

abbrev pub sys_read : ℕ
sys_read = 6

abbrev pub sys_filesize : ℕ
sys_filesize = 7

abbrev pub sys_readfile : ℕ
sys_readfile = 8

abbrev pub sys_write_max_length : ℕ
sys_write_max_length = 1024 * 1024

abbrev pub sys_error : ℕ
sys_error = 2 ^ 64 - 1

abbrev pub sys_readfile_max : ℕ
sys_readfile_max = 4096

-- The registers of the caller that a system call reads.
pub record InterruptFrame : Type 0 where
  pub rax : ℕ
  pub rdi : ℕ
  pub rsi : ℕ
  pub rdx : ℕ

-- What the calls act on; `user` is the memory of the calling process, a byte for each virtual address.
pub record System : Type 0 where
  pub kernel : Kernel
  pub keyboard : Keyboard
  pub vga : Vga
  pub fs : Fs
  pub user : ℕ → ℕ
  pub timer_ticks : ℕ

-- The new value of rax and the new state; `none` when a check of user memory runs out of fuel.
abbrev pub Outcome : Type 0
Outcome = Option (ℕ × System)

abbrev pub from_user : System → (ℕ → ℕ) → ℕ → ℕ → Option (Bool × (ℕ → ℕ))
from_user s dst addr len =
    copy_from_user s.kernel.machine.tables s.kernel.table.loaded_cr3 s.user dst addr len

abbrev pub to_user : System → (ℕ → ℕ) → ℕ → ℕ → Option (Bool × (ℕ → ℕ))
to_user s src addr len =
    copy_to_user s.kernel.machine.tables s.kernel.table.loaded_cr3 s.user src addr len

-- One byte from user memory, and what follows it.
abbrev pub with_byte :
    Option (Bool × (ℕ → ℕ))
    → ℕ
    → (ℕ → ℕ)
    → ((ℕ → ℕ) → Option (Bool × (ℕ → ℕ)))
    → Option (Bool × (ℕ → ℕ))
with_byte none i out next = none
with_byte (some (false, c)) i out next = some (false, out)
with_byte (some (true, c)) i out next =
    let out' = update out i (c 0) in
    let rest = next out' in if c 0 == 0 then some (ltb 0 i, out') else rest

-- The loop of `copy_user_path` from byte `i` on, with the rounds left.
pub copy_path_from : ℕ → ℕ → ℕ → (ℕ → ℕ) → System → Option (Bool × (ℕ → ℕ))
copy_path_from zero i user_ptr out s = some (false, out)
copy_path_from (suc left) i user_ptr out s =
    with_byte (from_user s (λ b. 0) (u64 (user_ptr + i)) 1) i out
      (λ out'. copy_path_from left (i + 1) user_ptr out' s)

pub copy_user_path : ℕ → ℕ → System → Option (Bool × (ℕ → ℕ))
copy_user_path user_ptr capacity s = copy_path_from capacity 0 user_ptr (λ b. 0) s

-- The rest of a call that needs a name.
abbrev pub with_path : Option (Bool × (ℕ → ℕ)) → System → ((ℕ → ℕ) → Outcome) → Outcome
with_path none s next = none
with_path (some (false, name)) s next = some (sys_error, s)
with_path (some (true, name)) s next = next name

-- The bytes of a call's answer go to the caller, and their number is returned.
abbrev pub delivered : Option (Bool × (ℕ → ℕ)) → ℕ → System → Outcome
delivered none got s = none
delivered (some (false, user)) got s = some (sys_error, s)
delivered (some (true, user)) got s = some (got, record s { user = user })

pub deliver : ℕ → ℕ → (ℕ → ℕ) → System → Outcome
deliver user_buf got chunk s =
    if got == 0 then some (0, s) else delivered (to_user s chunk user_buf got) got s

abbrev pub own_pid : System → ℕ
own_pid s = elim s.kernel.table.current_index [
  | none ↦ sys_error
  | some c ↦ (s.kernel.table.tasks c).pid
]

abbrev pub own_parent_pid : System → ℕ
own_parent_pid s = elim s.kernel.table.current_index [
  | none ↦ sys_error
  | some c ↦ (s.kernel.table.tasks c).parent_pid
]

-- The characters that wait at the keyboard, with the rounds left.
pub take_chars : ℕ → ℕ → (ℕ → ℕ) → Keyboard → ℕ × (ℕ → ℕ) × Keyboard
take_chars zero got chunk k = (got, chunk, k)
take_chars (suc left) got chunk k = elim (available k) [
  | true ↦ take_chars left (got + 1) (update chunk got (u8 (read_char k).0)) (read_char k).1
  | false ↦ (got, chunk, k)
]

pub do_read : ℕ → ℕ → ℕ → System → Outcome
do_read fd user_buf length s =
    if (if fd == 0 then ltb 256 length else true)
    then some (sys_error, s)
    else (let (got, chunk, k) = take_chars length 0 (λ b. 0) s.keyboard in
        deliver user_buf got chunk (record s { keyboard = k }))

abbrev pub size_or_error : Option ℕ → ℕ
size_or_error none = sys_error
size_or_error (some size) = size

pub do_filesize : ℕ → System → Outcome
do_filesize path s =
    with_path (copy_user_path path (max_filename + 1) s) s
      (λ name. some (size_or_error (file_size name s.fs), s))

abbrev pub clip_length : ℕ → ℕ
clip_length length = if ltb sys_readfile_max length then sys_readfile_max else length

abbrev pub with_file : Bool × Reading → ℕ → System → Outcome
with_file (done, r) user_buf s =
    let s₁ = record s { fs = record s.fs { drive = r.drive } } in
    if done then deliver user_buf r.bytes_read r.dest s₁ else some (sys_error, s₁)

-- What follows the check of the buffer.
abbrev pub if_writable : Option Bool → System → Outcome → Outcome
if_writable none s next = none
if_writable (some false) s next = some (sys_error, s)
if_writable (some true) s next = next

pub do_readfile : ℕ → ℕ → ℕ → System → Outcome
do_readfile path user_buf length s = with_path (copy_user_path path (max_filename + 1) s) s (λ name.
    if_writable
      (validate_user_range s.kernel.machine.tables s.kernel.table.loaded_cr3 user_buf
        (clip_length length) true)
      s (with_file (read name (clip_length length) (λ b. 0) s.fs) user_buf s))

pub put_chars : ℕ → ℕ → (ℕ → ℕ) → Vga → Vga
put_chars zero i chunk v = v
put_chars (suc left) i chunk v = put_chars left (i + 1) chunk (put_char (chunk i) v)

abbrev pub this_chunk : ℕ → ℕ
this_chunk remaining = if ltb remaining 256 then remaining else 256

abbrev pub print_chunk : Option (Bool × (ℕ → ℕ)) → ℕ → ℕ → System → (System → Outcome) → Outcome
print_chunk none written count s next = none
print_chunk (some (false, chunk)) written count s next =
    some (if written == 0 then sys_error else written, s)
print_chunk (some (true, chunk)) written count s next =
    next (record s { vga = put_chars count 0 chunk s.vga })

-- The loop of the call, from `written` bytes on, on fuel.
pub write_chunks : ℕ → ℕ → ℕ → ℕ → System → Outcome
write_chunks zero written user_ptr length s = none
write_chunks (suc fuel) written user_ptr length s = elim (ltb written length) [
  | false ↦ some (written, s)
  | true ↦
      let count = this_chunk (length - written) in
      print_chunk (from_user s (λ b. 0) (u64 (user_ptr + written)) count) written count s
        (write_chunks fuel (written + count) user_ptr length)
]

pub do_write : ℕ → ℕ → System → Outcome
do_write user_ptr length s =
    if ltb sys_write_max_length length
    then some (sys_error, s)
    else write_chunks (length / 256 + 2) 0 user_ptr length s

-- How a call ends: it returns with a value of rax, or the caller has ended and never runs again, or
-- another task runs and the caller has the value of rax when it runs again. `unbounded` when a loop has
-- used up its rounds.
pub data Handled : Type 0 where
  returns : ℕ → System → Handled
  leaves : System → Handled
  switches : ℕ → System → Handled
  unbounded : Handled

abbrev pub answer : Outcome → Handled
answer none = Handled.unbounded
answer (some (rax, s)) = Handled.returns rax s

abbrev pub with_kernel : Kernel → System → System
with_kernel k s = record s { kernel = k }

-- `exit_current` does not return.
abbrev pub left_with : Option Kernel → System → Handled
left_with none s = Handled.unbounded
left_with (some k) s = Handled.leaves (with_kernel k s)

-- An exit code is the bits of an `int`.
abbrev pub do_exit : ℕ → System → Handled
do_exit rdi s = left_with (exit_current (u32 rdi) s.kernel) s

-- `reschedule` comes back at once when it does not switch to another task.
abbrev pub do_sleep : ℕ → System → Handled
do_sleep rdi s =
    let s' = with_kernel (with_table (sleep_current s.timer_ticks rdi) s.kernel) s in
    elim s.kernel.table.current_index [
      | none ↦ Handled.returns 0 s'
      | some c ↦
          if is_current s'.kernel.table.current_index c
          then Handled.returns 0 s'
          else Handled.switches 0 s'
    ]

pub handle_syscall : InterruptFrame → System → Handled
handle_syscall f s =
    if f.rax == sys_getpid
    then Handled.returns (own_pid s) s
    else (if f.rax == sys_getppid
        then Handled.returns (own_parent_pid s) s
        else (if f.rax == sys_uptime
            then Handled.returns s.timer_ticks s
            else (if f.rax == sys_read
                then answer (do_read f.rdi f.rsi f.rdx s)
                else (if f.rax == sys_filesize
                    then answer (do_filesize f.rdi s)
                    else (if f.rax == sys_readfile
                        then answer (do_readfile f.rdi f.rsi f.rdx s)
                        else (if f.rax == sys_exit
                            then do_exit f.rdi s
                            else (if f.rax == sys_write
                                then answer (do_write f.rdi f.rsi s)
                                else (if f.rax == sys_sleep
                                    then do_sleep f.rdi s
                                    else Handled.returns sys_error s))))))))
