-- ===== src/Process.antt =====
-- kernel/process.cpp: what a process is made of. The page flags of a segment, the loading of the
-- segments into fresh frames, and the first contents of the stack.
pub mod Flags
pub mod Words
pub mod Stack
pub mod Run
mod Tests
use venom_os.Base.{
  ℕ, zero, suc, ◌+◌, ◌-◌, ◌*◌, ◌/◌, ◌%◌, ◌^◌, bit_or, ◌==◌, if◌then◌else◌, Bool, true, false, ◌&&◌,
  ◌||◌, Option, none, some, ltb, leb, List, [], ◌∷◌, length,
}
use venom_os.Base.Bits.{bit}
use venom_os.Base.Memory.{u64, u8, update}
use venom_os.Base.Copy.{copy_bytes}
use venom_os.Pmm.{alloc_frame, free_frame}
use venom_os.Elf.{Phdr, pt_load, page_down}
use venom_os.Paging.{
  Machine, map_page_in, page_present, page_writable, page_user, page_owned, page_nx,
}

abbrev pub stack_virt : ℕ
stack_virt = 0x7fff_f000

abbrev pub stack_size : ℕ
stack_size = 4 * 4096

abbrev pub max_args : ℕ
max_args = 16

abbrev pub max_envs : ℕ
max_envs = 8

abbrev pub max_arg_bytes : ℕ
max_arg_bytes = 2048

-- `p_flags & PF_WRITE` is bit 1 and `p_flags & PF_EXEC` bit 0.
pub segment_page_flags : ℕ → ℕ
segment_page_flags p_flags =
    let flags = bit_or (bit_or page_present page_user) page_owned in
    if bit p_flags 1 == 1
    then bit_or flags (bit_or page_writable page_nx)
    else (if bit p_flags 0 == 1 then flags else bit_or flags page_nx)

-- The page tables and the frame allocator, and physical memory by the byte.
pub record Loader : Type 0 where
  pub machine : Machine
  pub memory : ℕ → ℕ

-- The part of the file that belongs in the page at `vaddr`, as addresses.
abbrev pub copy_start : Phdr → ℕ → ℕ
copy_start p vaddr = if ltb p.p_vaddr vaddr then vaddr else p.p_vaddr

abbrev pub copy_end : Phdr → ℕ → ℕ
copy_end p vaddr =
    if ltb (vaddr + 4096) (p.p_vaddr + p.p_filesz) then vaddr + 4096 else p.p_vaddr + p.p_filesz

-- `for (b = 0; b < 4096; ++b) dest[b] = 0;` and the copy after it.
pub fill_frame : (ℕ → ℕ) → Phdr → ℕ → ℕ → (ℕ → ℕ) → ℕ → ℕ
fill_frame file p vaddr frame memory =
    let zeroed = copy_bytes 4096 frame 0 (λ i. 0) memory in
    let from = copy_start p vaddr in
    let to = copy_end p vaddr in
    if ltb from to
    then copy_bytes (to - from) (frame + (from - vaddr)) (p.p_offset + (from - p.p_vaddr)) file
        zeroed
    else zeroed

-- One page of a segment: `false` when no frame is free or it cannot be mapped.
pub load_page : (ℕ → ℕ) → Phdr → ℕ → ℕ → Loader → Bool × Loader
load_page file p pml4 vaddr l =
    let (frame, pmm) = alloc_frame l.machine.pmm in
    let taken = record (l.machine) { pmm = pmm } in
    if frame == 0
    then (false, record l { machine = taken })
    else (let filled = fill_frame file p vaddr frame l.memory in
        let (mapped, machine) = map_page_in pml4 vaddr frame (segment_page_flags p.p_flags) taken in
        if mapped then (true, record { machine = machine; memory = filled }) else (
          false,
          record {
            machine = record machine { pmm = free_frame (machine.pmm) frame };
            memory = filled;
          },
        ))

-- The loops stop at the first page that fails.
abbrev pub go_on : Bool × Loader → (Loader → Bool × Loader) → Bool × Loader
go_on (true, l) k = k l
go_on (false, l) k = (false, l)

-- The pages of a segment from page `i` on, with the rounds left.
pub load_pages : ℕ → ℕ → (ℕ → ℕ) → Phdr → ℕ → Loader → Bool × Loader
load_pages zero i file p pml4 l = (true, l)
load_pages (suc left) i file p pml4 l =
    go_on (load_page file p pml4 (page_down p.p_vaddr + i * 4096) l)
      (load_pages left (i + 1) file p pml4)

abbrev pub page_count : Phdr → ℕ
page_count p = (page_down (u64 (p.p_vaddr + p.p_memsz + 0xfff)) - page_down p.p_vaddr) / 4096

pub load_segment : (ℕ → ℕ) → Phdr → ℕ → Loader → Bool × Loader
load_segment file p pml4 l =
    if p.p_type == pt_load then load_pages (page_count p) 0 file p pml4 l else (true, l)

-- The program headers from header `i` on, with the rounds left.
pub load_segments : ℕ → ℕ → (ℕ → ℕ) → (ℕ → Phdr) → ℕ → Loader → Bool × Loader
load_segments zero i file phdrs pml4 l = (true, l)
load_segments (suc left) i file phdrs pml4 l =
    go_on (load_segment file (phdrs i) pml4 l) (load_segments left (i + 1) file phdrs pml4)

-- An argument is a null pointer or a string; its bytes are those before the terminator.
abbrev pub Arguments : Type 0
Arguments = List (Option (List ℕ))

-- The bytes of the strings, terminators included, on top of those counted before; `none` at a null
-- pointer or when they are too many.
pub count_strings : Arguments → ℕ → Option ℕ
count_strings [] total = some total
count_strings (none ∷ args) total = none
count_strings (some s ∷ args) total =
    let total' = total + length s + 1 in
    if ltb max_arg_bytes total' then none else count_strings args total'

-- The image under construction: the window, and where the next string and word go.
pub record Image : Type 0 where
  pub window : ℕ → ℕ
  pub str_cursor : ℕ
  pub word_cursor : ℕ

-- The eight bytes of a word, lowest first.
pub put_bytes : ℕ → ℕ → ℕ → (ℕ → ℕ) → ℕ → ℕ
put_bytes zero at value w = w
put_bytes (suc n) at value w = put_bytes n (at + 1) (value / 256) (update w at (u8 value))

pub put_word : ℕ → Image → Image
put_word value m = record m {
  window = put_bytes 8 (m.word_cursor - stack_virt) value m.window;
  word_cursor = m.word_cursor + 8;
}

-- The bytes of a string and its terminator.
pub put_string : List ℕ → Image → Image
put_string [] m = record m {
  window = update m.window (m.str_cursor - stack_virt) 0;
  str_cursor = m.str_cursor + 1;
}
put_string (c ∷ s) m = put_string s (record m {
  window = update m.window (m.str_cursor - stack_virt) (u8 c);
  str_cursor = m.str_cursor + 1;
})

-- `put_word(put_string(argv[i]))` for each argument; null pointers were refused before.
pub put_strings : Arguments → Image → Image
put_strings [] m = m
put_strings (none ∷ args) m = put_strings args m
put_strings (some s ∷ args) m = put_strings args (put_word m.str_cursor (put_string s m))

-- The words below the strings: argc, the two arrays with their ends, and the auxiliary vector.
abbrev pub pointer_bytes : ℕ → ℕ → ℕ
pointer_bytes argc envc = (1 + argc + 1 + envc + 1 + 2) * 8

abbrev pub stack_top : ℕ
stack_top = stack_virt + stack_size

abbrev pub strings_base : ℕ → ℕ
strings_base string_bytes = stack_top - string_bytes

abbrev pub initial_sp : ℕ → ℕ → ℕ → ℕ
initial_sp string_bytes argc envc = (strings_base string_bytes - pointer_bytes argc envc) / 16 * 16

pub lay_out : ℕ → Arguments → Arguments → (ℕ → ℕ) → ℕ → Image
lay_out string_bytes argv envp window sp =
    let zeroed = copy_bytes (stack_top - sp) (sp - stack_virt) 0 (λ i. 0) window in
    let start : Image = record {
      window = zeroed;
      str_cursor = strings_base string_bytes;
      word_cursor = sp;
    } in
    let args = put_word 0 (put_strings argv (put_word (length argv) start)) in
    put_word 0 (put_word 0 (put_word 0 (put_strings envp args)))

-- The bytes of all strings.
pub count_all : Arguments → Arguments → Option ℕ
count_all argv envp = elim (count_strings argv 0) [ none ↦ none | some n ↦ count_strings envp n ]

pub build_image : Option ℕ → Arguments → Arguments → (ℕ → ℕ) → Option (ℕ × (ℕ → ℕ))
build_image none argv envp window = none
build_image (some n) argv envp window =
    let sp = initial_sp n (length argv) (length envp) in
    if ltb max_arg_bytes (n + pointer_bytes (length argv) (length envp) + 16)
    then none
    else some (sp, (lay_out n argv envp window sp).window)

-- The first user stack pointer and the window; `none` when the arguments do not fit. The counts
-- are the lengths of the arrays, and the window has the size of the stack.
pub build_initial_stack : (ℕ → ℕ) → Arguments → Arguments → Option (ℕ × (ℕ → ℕ))
build_initial_stack window argv envp =
    if ltb max_args (length argv) || ltb max_envs (length envp)
    then none
    else build_image (count_all argv envp) argv envp window
