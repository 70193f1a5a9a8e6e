-- ===== src/Process/Run.antt =====
-- `run` of kernel/process.cpp: from the name of a file to a task that is ready. The messages that it
-- prints are its errors here.
pub mod Started
mod Tests
use venom_os.Base.{
  ℕ, zero, suc, ◌+◌, ◌-◌, ◌*◌, ◌/◌, bit_or, ◌==◌, if◌then◌else◌, Bool, true, false, ◌&&◌, ◌||◌, ltb,
  Option, none, some, List, [], ◌∷◌,
}
use venom_os.Base.Memory.{u64}
use venom_os.Base.Copy.{copy_bytes}
use venom_os.Base.Result.{Result, ok, err}
use venom_os.Pmm.{alloc_frame, free_frame}
use venom_os.Elf.{ElfError, Image, validate, Check}
use venom_os.Paging.{
  Machine, create_address_space, destroy_address_space, map_page_in, count_wx_pages, page_present,
  page_writable, page_user, page_owned, page_nx,
}
use venom_os.Process.{Loader, Arguments, load_segments, build_initial_stack, stack_size, stack_virt}
use venom_os.Fs.{Fs, max_filename}
use venom_os.Fs.Files.{Reading, exists, file_size, read}
use venom_os.Task.Life.{Kernel, create_process}

abbrev pub max_elf_size : ℕ
max_elf_size = 65536

pub data RunError : Type 0 where
  not_found empty_file too_large not_read : RunError
  rejected : ElfError → RunError
  no_address_space not_loaded bad_arguments no_stack writable_executable no_task : RunError

-- The tasks, the page tables and the heap; physical memory by the byte; the files.
pub record World : Type 0 where
  pub kernel : Kernel
  pub memory : ℕ → ℕ
  pub fs : Fs

abbrev pub Outcome : Type 0
Outcome = Result RunError ℕ × World

abbrev pub with_machine : Machine → World → World
with_machine m w = record w { kernel = record w.kernel { machine = m } }

abbrev pub with_loader : Loader → World → World
with_loader l w = record (with_machine l.machine w) { memory = l.memory }

abbrev pub loader_of : World → Loader
loader_of w = record { machine = w.kernel.machine; memory = w.memory }

-- `destroy_address_space` and the error.
abbrev pub abandon : RunError → ℕ → World → Outcome
abandon e pml4 w = (err e, with_machine (destroy_address_space pml4 w.kernel.machine) w)

abbrev pub stack_flags : ℕ
stack_flags =
    bit_or (bit_or (bit_or (bit_or page_present page_writable) page_user) page_owned) page_nx

-- The loop that maps the stack, from `offset` on, with the pages left.
pub map_stack : ℕ → ℕ → (ℕ → ℕ) → ℕ → Loader → Bool × Loader
map_stack zero offset window pml4 l = (true, l)
map_stack (suc left) offset window pml4 l =
    let (frame, pmm) = alloc_frame l.machine.pmm in
    let taken = record (l.machine) { pmm = pmm } in
    let memory = copy_bytes 4096 frame offset window l.memory in
    let (mapped, machine) = map_page_in pml4 (stack_virt + offset) frame stack_flags taken in
    let rest =
      map_stack left (offset + 4096) window pml4 (record { machine = machine; memory = memory }) in
    if frame == 0
    then (false, record l { machine = taken })
    else (if mapped then rest else (
      false,
      record { machine = record machine { pmm = free_frame (machine.pmm) frame }; memory = memory },
    ))

-- The name as an argument.
pub string_from : ℕ → ℕ → (ℕ → ℕ) → List ℕ
string_from zero i name = []
string_from (suc left) i name =
    let rest = string_from left (i + 1) name in if name i == 0 then [] else name i ∷ rest

abbrev pub arguments_or : (ℕ → ℕ) → Arguments → Arguments
arguments_or name [] = some (string_from max_filename 0 name) ∷ []
arguments_or name (a ∷ args) = a ∷ args

abbrev pub after_create : Option ℕ × Kernel → ℕ → World → Outcome
after_create (none, k) pml4 w = abandon RunError.no_task pml4 (record w { kernel = k })
after_create (some slot, k) pml4 w = (ok slot, record w { kernel = k })

-- The task, once nothing in the address space is writable and executable. `code` is the address of
-- `process_entry`, and `title` that of the name.
pub finish : ℕ → ℕ → ℕ → ℕ → ℕ → World → Outcome
finish code title pml4 entry sp w =
    if count_wx_pages pml4 w.kernel.machine.tables == 0
    then after_create (create_process code title pml4 entry sp w.kernel) pml4 w
    else abandon RunError.writable_executable pml4 w

abbrev pub after_stack : Bool × Loader → World → ℕ → (World → Outcome) → Outcome
after_stack (true, l) w pml4 next = next (with_loader l w)
after_stack (false, l) w pml4 next = abandon RunError.no_stack pml4 (with_loader l w)

abbrev pub after_arguments : Option (ℕ × (ℕ → ℕ)) → World → ℕ → (ℕ → World → Outcome) → Outcome
after_arguments none w pml4 next = abandon RunError.bad_arguments pml4 w
after_arguments (some (sp, window)) w pml4 next =
    after_stack (map_stack (stack_size / 4096) 0 window pml4 (loader_of w)) w pml4 (next sp)

abbrev pub after_load : Bool × Loader → World → ℕ → (World → Outcome) → Outcome
after_load (true, l) w pml4 next = next (with_loader l w)
after_load (false, l) w pml4 next = abandon RunError.not_loaded pml4 (with_loader l w)

-- `run` once the file is in the buffer and found valid; `old_window` is what the window held before.
pub start : ℕ → ℕ → (ℕ → ℕ) → Arguments → Arguments → (ℕ → ℕ) → Image → World → Outcome
start code title file argv envp old_window image w =
    let (pml4, m) = create_address_space w.kernel.table.loaded_cr3 w.kernel.machine in
    let w₁ = with_machine m w in
    if pml4 == 0
    then (err RunError.no_address_space, w₁)
    else after_load (load_segments image.phnum 0 file image.phdrs pml4 (loader_of w₁)) w₁ pml4
        (λ w₂.
          after_arguments (build_initial_stack old_window argv envp) w₂ pml4
            (finish code title pml4 image.header.e_entry))

abbrev pub after_check : Check Image → World → (Image → Outcome) → Outcome
after_check (err e) w next = (err (RunError.rejected e), w)
after_check (ok image) w next = next image

abbrev pub after_read : Bool × Reading → World → ((ℕ → ℕ) → ℕ → World → Outcome) → Outcome
after_read (done, r) w next =
    let w₁ = record w { fs = record w.fs { drive = r.drive } } in
    if done && ltb 0 r.bytes_read then next r.dest r.bytes_read w₁ else (err RunError.not_read, w₁)

abbrev pub size_of : Option ℕ → ℕ
size_of none = 0
size_of (some size) = size

-- `run`; `old_buffer` is what the file buffer held before.
pub run : ℕ → ℕ → (ℕ → ℕ) → Arguments → Arguments → (ℕ → ℕ) → (ℕ → ℕ) → World → Outcome
run code title name argv envp old_buffer old_window w =
    if exists name w.fs
    then (if size_of (file_size name w.fs) == 0
        then (err RunError.empty_file, w)
        else (if ltb max_elf_size (size_of (file_size name w.fs))
            then (err RunError.too_large, w)
            else after_read (read name max_elf_size old_buffer w.fs) w (λ file size w₁.
              after_check (validate file size) w₁ (λ image.
                start code title file (arguments_or name argv) envp old_window image w₁))))
    else (err RunError.not_found, w)
