-- ===== src/Process/Run/Started.antt =====
-- What a process has that `run` of process.cpp has started.
use venom_os.Base.{
  ℕ, ◌/◌, ◌==◌, ◌≡◌, ◌≢◌, ◌⊎◌, if◌then◌else◌, Bool, true, false, ltb, Option, none, some, refl, sym,
  ◌∙◌, ap, subst, arith, inl, inr, Bool-cases,
}
use venom_os.Base.Result.{ok, err, Result-cases}
use venom_os.Elf.{Image, validate, Check}
use venom_os.Paging.{count_wx_pages, is_wx, create_address_space}
use venom_os.Paging.Walk.{leaf, IsShared, count_wx_pages-zero}
use venom_os.Task.{State}
use venom_os.Task.Life.{Kernel, create_process}
use venom_os.Task.Life.Create.{IsMade, create_process-IsMade}
use venom_os.Process.{Loader, Arguments, load_segments, build_initial_stack, stack_size}
use venom_os.Fs.Files.{Reading, exists, file_size, read}
use venom_os.Process.Run.{
  World, Outcome, RunError, with_machine, with_loader, loader_of, map_stack, after_create, finish,
  after_stack, after_arguments, after_load, start, after_check, after_read, size_of, run,
  max_elf_size, arguments_or,
}

-- A process that is ready to run: its task starts at the entry of the image, in an address space in which
-- no page outside the kernel's shared first gigabyte is writable and executable at once.
pub record IsStarted (entry slot : ℕ) (w : World) : Type 0 where
  pub ready : (w.kernel.table.tasks slot).state ≡ State.ready
  pub at_entry : (w.kernel.table.tasks slot).user_entry ≡ entry
  pub not_wx :
      (virt e : ℕ)
      → ¬ IsShared virt
      → leaf w.kernel.machine.tables (w.kernel.table.tasks slot).cr3 virt ≡ some e
      → is_wx e ≡ false

-- The outcome is an error, or a process that is ready.
abbrev StartsAt : ℕ → Outcome → Type 0
StartsAt entry o = (slot : ℕ) → o.0 ≡ ok slot → IsStarted entry slot o.1

after_create-StartsAt :
    (r : Option ℕ × Kernel) (pml4 entry sp : ℕ) (w : World)
    → count_wx_pages pml4 w.kernel.machine.tables ≡ 0
    → ((slot : ℕ) → r.0 ≡ some slot → IsMade pml4 entry sp w.kernel slot r.1)
    → StartsAt entry (after_create r pml4 w)
after_create-StartsAt (none, k) pml4 entry sp w none_wx made slot e = absurd (ground arith)
after_create-StartsAt (some i, k) pml4 entry sp w none_wx made slot e =
    let at : i ≡ slot = ground arith in
    let m = made slot (ap some at) in
    record {
      ready = m.ready;
      at_entry = m.at_entry;
      not_wx = λ virt entry_bits user mapped.
          count_wx_pages-zero w.kernel.machine.tables pml4 virt none_wx user (
            ap (λ p. leaf w.kernel.machine.tables p virt) (sym m.space)
            ∙ ap (λ t. leaf t (k.table.tasks slot).cr3 virt) (sym m.tables)
            ∙ mapped);
    }

finish-StartsAt :
    (code title pml4 entry sp : ℕ) (w : World) → StartsAt entry (finish code title pml4 entry sp w)
unfolding finish
finish-StartsAt code title pml4 entry sp w =
    elim (Bool-cases (count_wx_pages pml4 w.kernel.machine.tables == 0)) [
      | inl fine ↦ rw fine (
          after_create-StartsAt (create_process code title pml4 entry sp w.kernel) pml4 entry sp w
            (ground arith) (create_process-IsMade code title pml4 entry sp w.kernel))
      | inr bad ↦ rw bad (λ slot e. absurd (ground arith))
    ]

after_stack-StartsAt :
    (r : Bool × Loader) (w : World) (pml4 entry : ℕ) (next : World → Outcome)
    → ((w' : World) → StartsAt entry (next w'))
    → StartsAt entry (after_stack r w pml4 next)
after_stack-StartsAt (true, l) w pml4 entry next rest = rest (with_loader l w)
after_stack-StartsAt (false, l) w pml4 entry next rest = λ slot e. absurd (ground arith)

after_arguments-StartsAt :
    (o : Option (ℕ × (ℕ → ℕ))) (w : World) (pml4 entry : ℕ) (next : ℕ → World → Outcome)
    → ((sp : ℕ) (w' : World) → StartsAt entry (next sp w'))
    → StartsAt entry (after_arguments o w pml4 next)
after_arguments-StartsAt none w pml4 entry next rest = λ slot e. absurd (ground arith)
after_arguments-StartsAt (some (sp, window)) w pml4 entry next rest =
    after_stack-StartsAt (map_stack (stack_size / 4096) 0 window pml4 (loader_of w)) w pml4 entry
      (next sp) (rest sp)

after_load-StartsAt :
    (r : Bool × Loader) (w : World) (pml4 entry : ℕ) (next : World → Outcome)
    → ((w' : World) → StartsAt entry (next w'))
    → StartsAt entry (after_load r w pml4 next)
after_load-StartsAt (true, l) w pml4 entry next rest = rest (with_loader l w)
after_load-StartsAt (false, l) w pml4 entry next rest = λ slot e. absurd (ground arith)

start-StartsAt :
    (code title : ℕ) (file : ℕ → ℕ) (argv envp : Arguments) (old_window : ℕ → ℕ) (image : Image)
    (w : World)
    → StartsAt image.header.e_entry (start code title file argv envp old_window image w)
unfolding start
start-StartsAt code title file argv envp old_window image w =
    let (pml4, m) = create_address_space w.kernel.table.loaded_cr3 w.kernel.machine in
    let w₁ = with_machine m w in
    elim (Bool-cases (pml4 == 0)) [
      | inl failed ↦ rw failed (λ slot e. absurd (ground arith))
      | inr fine ↦ rw fine (
          after_load-StartsAt (load_segments image.phnum 0 file image.phdrs pml4 (loader_of w₁)) w₁
            pml4 image.header.e_entry
            (λ w₂.
              after_arguments (build_initial_stack old_window argv envp) w₂ pml4
                (finish code title pml4 image.header.e_entry))
            (λ w₂.
              after_arguments-StartsAt (build_initial_stack old_window argv envp) w₂ pml4
                image.header.e_entry (finish code title pml4 image.header.e_entry)
                (λ sp w₃. finish-StartsAt code title pml4 image.header.e_entry sp w₃)))
    ]

-- What a successful `run` has done: it has read a file that the ELF validator accepts, and started it.
pub record HasRun (name old_buffer : ℕ → ℕ) (w : World) (slot : ℕ) (w' : World) : Type 0 where
  pub image : Image
  pub was_read : (read name max_elf_size old_buffer w.fs).0 ≡ true
  pub valid :
      (let r = (read name max_elf_size old_buffer w.fs).1 in
        validate r.dest r.bytes_read ≡ ok image)
  pub started : IsStarted image.header.e_entry slot w'

after_check-HasRun :
    (c : Check Image) (w : World) (next : Image → Outcome) (slot : ℕ)
    → ((image : Image) → StartsAt image.header.e_entry (next image))
    → (after_check c w next).0 ≡ ok slot
    → (image : Image) × (c ≡ ok image)
      × IsStarted image.header.e_entry slot (after_check c w next).1
after_check-HasRun (err e') w next slot rest e = absurd (ground arith)
after_check-HasRun (ok image) w next slot rest e = (image, refl, rest image slot e)

after_read-HasRun :
    (code title : ℕ) (name : ℕ → ℕ) (argv envp : Arguments) (old_window : ℕ → ℕ) (w : World)
    (r : Bool × Reading) (slot : ℕ)
    → (let o = after_read r w (λ file size w₁.
          after_check
            (validate file size)
            w₁
            (λ image. start code title file (arguments_or name argv) envp old_window image w₁)) in
        o.0 ≡ ok slot
        → (r.0 ≡ true)
          × ((image : Image) × (validate r.1.dest r.1.bytes_read ≡ ok image)
              × IsStarted image.header.e_entry slot o.1))
after_read-HasRun code title name argv envp old_window w (false, r) slot e = absurd (ground arith)
after_read-HasRun code title name argv envp old_window w (true, r) slot e =
    elim (Bool-cases (ltb 0 r.bytes_read)) [
      | inr empty ↦ absurd (ground arith)
      | inl some_bytes ↦
          let w₁ = record w { fs = record w.fs { drive = r.drive } } in
          let next = λ (image : Image).
            start code title r.dest (arguments_or name argv) envp old_window image w₁ in
          let o = after_check (validate r.dest r.bytes_read) w₁ next in
          let steps = ap (λ b. if b then o else (err RunError.not_read, w₁)) some_bytes in
          let (image, valid, started) =
            after_check-HasRun (validate r.dest r.bytes_read) w₁ next slot
              (λ image.
                start-StartsAt code title r.dest (arguments_or name argv) envp old_window image w₁)
              (sym (ap (λ (x : Outcome). x.0) steps) ∙ e) in
          (
            refl,
            (
              image,
              valid,
              subst (λ (x : Outcome). IsStarted image.header.e_entry slot x.1) (sym steps) started,
            ),
          )
    ]

-- A test whose failure is an error.
if-StartsAt :
    (b : Bool) (x y : Outcome) (slot : ℕ) (P : World → Type 0)
    → y.0 ≢ ok slot
    → (x.0 ≡ ok slot → P x.1)
    → (if b then x else y).0 ≡ ok slot
    → P (if b then x else y).1
if-StartsAt true x y slot P bad good e = good e
if-StartsAt false x y slot P bad good e = absurd (bad e)

unless-StartsAt :
    (b : Bool) (x y : Outcome) (slot : ℕ) (P : World → Type 0)
    → x.0 ≢ ok slot
    → (y.0 ≡ ok slot → P y.1)
    → (if b then x else y).0 ≡ ok slot
    → P (if b then x else y).1
unless-StartsAt true x y slot P bad good e = absurd (bad e)
unless-StartsAt false x y slot P bad good e = good e

run-started :
    (code title : ℕ) (name : ℕ → ℕ) (argv envp : Arguments) (old_buffer old_window : ℕ → ℕ)
    (w : World) (slot : ℕ)
    → (run code title name argv envp old_buffer old_window w).0 ≡ ok slot
    → HasRun name old_buffer w slot (run code title name argv envp old_buffer old_window w).1
unfolding run
run-started code title name argv envp old_buffer old_window w slot =
    let r = read name max_elf_size old_buffer w.fs in
    let next = λ (file : ℕ → ℕ) (size : ℕ) (w₁ : World).
      after_check (validate file size) w₁
        (λ image. start code title file (arguments_or name argv) envp old_window image w₁) in
    if-StartsAt (exists name w.fs) _ _ slot (HasRun name old_buffer w slot) (λ e. ground arith)
      (unless-StartsAt (size_of (file_size name w.fs) == 0) _ _ slot (HasRun name old_buffer w slot)
        (λ e. ground arith)
        (unless-StartsAt (ltb max_elf_size (size_of (file_size name w.fs))) _ _ slot
          (HasRun name old_buffer w slot) (λ e. ground arith)
          (λ e.
            let (was_read, (image, valid, started)) =
              after_read-HasRun code title name argv envp old_window w r slot e in
            record { image = image; was_read = was_read; valid = valid; started = started })))

-- `run` returns an error, or a task. When it returns a task, it has read a file that the ELF validator accepts, and the task is ready at
-- the entry of that image, in an address space with no page outside the kernel's shared first gigabyte
-- that is writable and executable at once.
pub run-HasRun :
    (code title : ℕ) (name : ℕ → ℕ) (argv envp : Arguments) (old_buffer old_window : ℕ → ℕ)
    (w : World)
    → (let o = run code title name argv envp old_buffer old_window w in
        ((e : RunError) × (o.0 ≡ err e))
        ⊎ ((slot : ℕ) × (o.0 ≡ ok slot) × HasRun name old_buffer w slot o.1))
run-HasRun code title name argv envp old_buffer old_window w =
    elim (Result-cases (run code title name argv envp old_buffer old_window w).0) [
      | inl failed ↦ inl failed
      | inr (slot, e) ↦
          inr (slot, e, run-started code title name argv envp old_buffer old_window w slot e)
    ]
