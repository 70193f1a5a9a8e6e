-- ===== src/Syscall/Guard.antt =====
-- What the system calls of interrupts.cpp that return may do to user memory, and that they end.
use venom_os.Base.{
  ℕ, zero, suc, ◌+◌, ◌-◌, ◌*◌, ◌/◌, ◌^◌, ◌==◌, ◌≡◌, ◌≤◌, ◌<◌, ◌⊎◌, if◌then◌else◌, Bool, true, false,
  ltb, Option, none, some, refl, sym, ◌∙◌, ap, subst, arith, inl, inr, Bool-cases, length,
}
use venom_os.Base.Memory.{update, u64, u8}
use venom_os.Keyboard.{Keyboard, available, read_char}
use venom_os.Elf.{page_down}
use venom_os.Fs.{max_filename}
use venom_os.Fs.Files.{Reading, read, file_size}
use venom_os.Task.Life.{Kernel}
use venom_os.Fs.Files.Limit.{read-limit}
use venom_os.Usercopy.{page_is_user_accessible, validate_user_range}
use venom_os.Usercopy.Range.{validate_user_range-Decides}
use venom_os.Syscall.{
  System, Outcome, copy_user_path, deliver, take_chars, do_read, do_filesize, do_readfile,
  with_file, if_writable, clip_length, put_chars, print_chunk, this_chunk, write_chunks, do_write,
  sys_error, size_or_error, sys_write_max_length,
}
use venom_os.Syscall.Copies.{
  IsGuarded, IsGuarded-same, from_user-Ends, copy_user_path-Ends, with_path-IsGuarded,
  deliver-IsGuarded,
}

take_chars-lt :
    (left got : ℕ) (chunk : ℕ → ℕ) (k : Keyboard) → (take_chars left got chunk k).0 ≤ got + left
unfolding take_chars
take_chars-lt zero got chunk k = omega arith
take_chars-lt (suc left) got chunk k = elim (Bool-cases (available k)) [
  | inl more ↦
      let rest =
        take_chars-lt left (got + 1) (update chunk got (u8 (read_char k).0)) (read_char k).1 in
      rw (more, take_chars) (omega arith)
  | inr empty ↦ rw (empty, take_chars) (omega arith)
]

-- A change outside user memory and the page tables on the way to an outcome.
IsGuarded-before :
    (s s' : System) (o : Outcome)
    → s'.user ≡ s.user
    → s'.kernel ≡ s.kernel
    → IsGuarded s' o
    → IsGuarded s o
IsGuarded-before s s' o user kernel g = record {
  rax = g.rax;
  after = g.after;
  ends = g.ends;
  kept = λ a. elim (g.kept a) [
    | inl same ↦ inl (same ∙ ap (λ f. f a) user)
    | inr may ↦ inr (
        subst
          (λ (k : Kernel).
            page_is_user_accessible k.machine.tables k.table.loaded_cr3 (page_down a) true ≡ true)
          kernel may)
  ];
}

pub do_read-IsGuarded :
    (fd user_buf length : ℕ) (s : System)
    → user_buf < 2 ^ 64
    → IsGuarded s (do_read fd user_buf length s)
unfolding do_read
do_read-IsGuarded fd user_buf length s ha =
    elim (Bool-cases (if fd == 0 then ltb 256 length else true)) [
      | inl bad ↦ rw bad (IsGuarded-same s s sys_error refl)
      | inr fine ↦
          let (got, chunk, k) = take_chars length 0 (λ b. 0) s.keyboard in
          let short = take_chars-lt length 0 (λ b. 0) s.keyboard in
          let small : got < 2 ^ 64 = ground arith in
          let s' = record s { keyboard = k } in
          rw fine (
            IsGuarded-before s s' (deliver user_buf got chunk s') refl refl
              (deliver-IsGuarded user_buf got chunk s' ha small))
    ]

pub do_filesize-IsGuarded : (path : ℕ) (s : System) → IsGuarded s (do_filesize path s)
unfolding do_filesize
do_filesize-IsGuarded path s =
    with_path-IsGuarded (copy_user_path path (max_filename + 1) s) s
      (λ name. some (size_or_error (file_size name s.fs), s))
      (copy_user_path-Ends path (max_filename + 1) s)
      (λ name. IsGuarded-same s s (size_or_error (file_size name s.fs)) refl)

with_file-IsGuarded :
    (r : Bool × Reading) (user_buf : ℕ) (s : System)
    → user_buf < 2 ^ 64
    → r.1.bytes_read < 2 ^ 64
    → IsGuarded s (with_file r user_buf s)
with_file-IsGuarded (true, r) user_buf s ha small =
    let s' = record s { fs = record s.fs { drive = r.drive } } in
    IsGuarded-before s s' (deliver user_buf r.bytes_read r.dest s') refl refl
      (deliver-IsGuarded user_buf r.bytes_read r.dest s' ha small)
with_file-IsGuarded (false, r) user_buf s ha small =
    IsGuarded-same s (record s { fs = record s.fs { drive = r.drive } }) sys_error refl

if_writable-IsGuarded :
    (o : Option Bool) (s : System) (next : Outcome)
    → (o ≡ some true) ⊎ (o ≡ some false)
    → IsGuarded s next
    → IsGuarded s (if_writable o s next)
if_writable-IsGuarded none s next e g = absurd (ground arith)
if_writable-IsGuarded (some false) s next e g = IsGuarded-same s s sys_error refl
if_writable-IsGuarded (some true) s next e g = g

pub do_readfile-IsGuarded :
    (path user_buf length : ℕ) (s : System)
    → user_buf < 2 ^ 64
    → length < 2 ^ 64
    → IsGuarded s (do_readfile path user_buf length s)
unfolding do_readfile
do_readfile-IsGuarded path user_buf length s ha hl =
    with_path-IsGuarded (copy_user_path path (max_filename + 1) s) s
      (λ name.
        if_writable
          (validate_user_range s.kernel.machine.tables s.kernel.table.loaded_cr3 user_buf
            (clip_length length) true)
          s (with_file (read name (clip_length length) (λ b. 0) s.fs) user_buf s))
      (copy_user_path-Ends path (max_filename + 1) s)
      (λ name.
        let n = clip_length length in
        let fits : n < 2 ^ 64 = ground arith in
        let short = read-limit name n (λ b. 0) s.fs in
        if_writable-IsGuarded
          (validate_user_range s.kernel.machine.tables s.kernel.table.loaded_cr3 user_buf n true) s
          (with_file (read name n (λ b. 0) s.fs) user_buf s)
          (validate_user_range-Decides s.kernel.machine.tables s.kernel.table.loaded_cr3 user_buf n
            true ha fits).ends
          (with_file-IsGuarded (read name n (λ b. 0) s.fs) user_buf s ha (omega arith)))

-- A chunk that has been copied, or refused.
printed :
    (ok : Bool) (chunk : ℕ → ℕ) (count written : ℕ) (s s₀ : System) (next : System → Outcome)
    → s.user ≡ s₀.user
    → ((s' : System) → s'.user ≡ s₀.user → IsGuarded s₀ (next s'))
    → IsGuarded s₀ (print_chunk (some (ok, chunk)) written count s next)
printed false chunk count written s s₀ next same rest =
    IsGuarded-same s₀ s (if written == 0 then sys_error else written) same
printed true chunk count written s s₀ next same rest =
    rest (record s { vga = put_chars count 0 chunk s.vga }) same

-- The fuel is enough: one round for each chunk of 256 bytes, and one more.
write_chunks-IsGuarded :
    (fuel written user_ptr length : ℕ) (s s₀ : System)
    → s.user ≡ s₀.user
    → written ≤ length
    → length + 256 ≤ written + fuel * 256
    → length < 2 ^ 32
    → IsGuarded s₀ (write_chunks fuel written user_ptr length s)
unfolding write_chunks
write_chunks-IsGuarded zero written user_ptr length s s₀ same le enough small = absurd (omega arith)
write_chunks-IsGuarded (suc fuel) written user_ptr length s s₀ same le enough small =
    elim (Bool-cases (ltb written length)) [
      | inr all ↦ rw (all, write_chunks) (IsGuarded-same s₀ s written same)
      | inl more ↦
          let count = this_chunk (length - written) in
          let (ok, chunk, e) =
            from_user-Ends s (λ b. 0) (u64 (user_ptr + written)) count (omega arith)
              (ground arith) in
          rw (more, write_chunks)
            (subst
              (λ o. IsGuarded s₀ (
                print_chunk o written count s
                  (write_chunks fuel (written + count) user_ptr length)))
              (sym e)
              (printed ok chunk count written s s₀
                (write_chunks fuel (written + count) user_ptr length) same
                (λ s' user.
                  write_chunks-IsGuarded fuel (written + count) user_ptr length s' s₀ user
                    (ground arith) (ground arith) small)))
    ]

pub do_write-IsGuarded :
    (user_ptr length : ℕ) (s : System) → IsGuarded s (do_write user_ptr length s)
unfolding do_write
do_write-IsGuarded user_ptr length s = elim (Bool-cases (ltb sys_write_max_length length)) [
  | inl long ↦ rw long (IsGuarded-same s s sys_error refl)
  | inr fine ↦ rw fine (
      write_chunks-IsGuarded (length / 256 + 2) 0 user_ptr length s s refl (omega arith)
        (omega arith) (ground arith))
]
