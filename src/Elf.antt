-- ===== src/Elf.antt =====
-- kernel/elf.hpp and kernel/elf.cpp: the structures of an ELF file and the checks that it passes
-- before a process is made from it. The file is its bytes and its size.
pub mod Segment
pub mod Accept
pub mod Safe
mod Tests
use venom_os.Base.{
  ℕ, zero, suc, ◌+◌, ◌-◌, ◌*◌, ◌/◌, ◌%◌, ◌^◌, bit_and, ◌==◌, if◌then◌else◌, Bool, true, false, ◌&&◌,
  ◌||◌, leb, ltb, List, [], ◌∷◌,
}
use venom_os.Base.Bits.{bit}
use venom_os.Base.Memory.{u64}
use venom_os.Base.Bytes.{read_le}
use venom_os.Base.Result.{Result, ok, err, reject_if, ◌>>=◌, ◌>>◌}

abbrev pub et_exec : ℕ
et_exec = 2

abbrev pub em_x86_64 : ℕ
em_x86_64 = 62

abbrev pub pt_null : ℕ
pt_null = 0

abbrev pub pt_load : ℕ
pt_load = 1

abbrev pub pt_gnu_stack : ℕ
pt_gnu_stack = 0x6474_e551

abbrev pub user_space_min : ℕ
user_space_min = 0x4000_0000

abbrev pub user_space_max : ℕ
user_space_max = 0x8000_0000_0000

abbrev pub max_load_segments : ℕ
max_load_segments = 16

abbrev pub ehdr_size : ℕ
ehdr_size = 64

abbrev pub phdr_size : ℕ
phdr_size = 56

pub record Ehdr : Type 0 where
  pub e_ident : ℕ → ℕ
  pub e_type : ℕ
  pub e_machine : ℕ
  pub e_entry : ℕ
  pub e_phoff : ℕ
  pub e_phentsize : ℕ
  pub e_phnum : ℕ

pub record Phdr : Type 0 where
  pub p_type : ℕ
  pub p_flags : ℕ
  pub p_offset : ℕ
  pub p_vaddr : ℕ
  pub p_filesz : ℕ
  pub p_memsz : ℕ
  pub p_align : ℕ

-- `reinterpret_cast<const Elf64_Ehdr*>(file)`: the fields that the checks read.
pub header_of : (ℕ → ℕ) → Ehdr
header_of file = record {
  e_ident = λ i. read_le 1 file i;
  e_type = read_le 2 file 16;
  e_machine = read_le 2 file 18;
  e_entry = read_le 8 file 24;
  e_phoff = read_le 8 file 32;
  e_phentsize = read_le 2 file 54;
  e_phnum = read_le 2 file 56;
}

-- `phdrs[i]`, for the table at offset `phoff`.
pub phdr_at : (ℕ → ℕ) → ℕ → ℕ → Phdr
phdr_at file phoff i =
    let at = phoff + i * phdr_size in
    record {
      p_type = read_le 4 file at;
      p_flags = read_le 4 file (at + 4);
      p_offset = read_le 8 file (at + 8);
      p_vaddr = read_le 8 file (at + 16);
      p_filesz = read_le 8 file (at + 32);
      p_memsz = read_le 8 file (at + 40);
      p_align = read_le 8 file (at + 48);
    }

-- The messages that `validate` returns through `out_error`, in the order of its checks.
pub data ElfError : Type 0 where
  too_small bad_magic not_64_bit not_little_endian not_executable not_x86_64 : ElfError
  no_program_headers too_many_headers bad_entry_size table_overflows table_past_end : ElfError
  unsupported_type no_permissions unknown_flags writable_and_executable : ElfError
  memory_below_file offset_overflows data_past_end address_overflows : ElfError
  kernel_space non_canonical bad_alignment misaligned empty_range overlap : ElfError
  nothing_to_load bad_entry_point : ElfError

abbrev pub Check : Type 0 → Type 0
Check A = Result ElfError A

-- `b > U64_MAX - a`
abbrev pub add_overflows : ℕ → ℕ → Bool
add_overflows a b = ltb (2 ^ 64 - 1 - a) b

pub is_power_of_two : ℕ → Bool
is_power_of_two x = ltb 0 x && bit_and x (x - 1) == 0

-- `x & ~PAGE_MASK`
abbrev pub page_down : ℕ → ℕ
page_down x = x / 4096 * 4096

abbrev pub has_magic : Ehdr → Bool
has_magic h =
    h.e_ident 0 == 0x7f && h.e_ident 1 == b'E' && h.e_ident 2 == b'L' && h.e_ident 3 == b'F'

abbrev pub negate : Bool → Bool
negate true = false
negate false = true

-- The checks of `validate` before its loop.
pub check_header : Ehdr → ℕ → Check (Unit {0})
check_header h file_size = do
  reject_if (ltb file_size ehdr_size) too_small
  reject_if (negate (has_magic h)) bad_magic
  reject_if (negate (h.e_ident 4 == 2)) not_64_bit
  reject_if (negate (h.e_ident 5 == 1)) not_little_endian
  reject_if (negate (h.e_type == et_exec)) not_executable
  reject_if (negate (h.e_machine == em_x86_64)) not_x86_64
  reject_if (h.e_phnum == 0) no_program_headers
  reject_if (ltb max_load_segments h.e_phnum) too_many_headers
  reject_if (negate (h.e_phentsize == phdr_size)) bad_entry_size
  reject_if (add_overflows h.e_phoff (h.e_phnum * phdr_size)) table_overflows
  reject_if (ltb file_size (u64 (h.e_phoff + h.e_phnum * phdr_size))) table_past_end

-- The pages of a segment, `load_start[j]` and `load_end[j]`.
pub record PageRange : Type 0 where
  pub start : ℕ
  pub end : ℕ

abbrev pub segment_end : Phdr → ℕ
segment_end p = u64 (p.p_vaddr + p.p_memsz)

abbrev pub page_range : Phdr → PageRange
page_range p = record { start = page_down p.p_vaddr; end = page_down (u64 (segment_end p + 4095)) }

-- The permission and size checks of a PT_LOAD segment. `p_flags & ~PF_KNOWN_MASK` is what is left
-- above the three lowest bits; bit 0 is PF_EXEC and bit 1 is PF_WRITE.
pub check_contents : Phdr → ℕ → Check (Unit {0})
check_contents p file_size = do
  reject_if (p.p_flags == 0) no_permissions
  reject_if (ltb 0 (p.p_flags / 8)) unknown_flags
  reject_if (bit p.p_flags 1 == 1 && bit p.p_flags 0 == 1) writable_and_executable
  reject_if (ltb p.p_memsz p.p_filesz) memory_below_file
  reject_if (add_overflows p.p_offset p.p_filesz) offset_overflows
  reject_if (ltb file_size (u64 (p.p_offset + p.p_filesz))) data_past_end

-- The checks of where it is loaded.
pub check_placement : Phdr → Check PageRange
check_placement p = do
  reject_if (add_overflows p.p_vaddr p.p_memsz) address_overflows
  reject_if (ltb p.p_vaddr user_space_min) kernel_space
  reject_if (ltb user_space_max (segment_end p)) non_canonical
  reject_if (ltb 0 p.p_align && negate (is_power_of_two p.p_align)) bad_alignment
  reject_if (ltb 0 p.p_align && negate (p.p_vaddr % p.p_align == p.p_offset % p.p_align)) misaligned
  reject_if (leb (page_range p).end (page_range p).start) empty_range
  ok (page_range p)

abbrev pub meets : PageRange → PageRange → Bool
meets r s = ltb r.start s.end && ltb s.start r.end

-- The loop over the segments that were accepted before.
pub meets_any : PageRange → List PageRange → Bool
meets_any r [] = false
meets_any r (s ∷ loads) = meets r s || meets_any r loads

-- The rest of a round for a header that is not skipped.
pub check_load : Phdr → ℕ → List PageRange → Check (List PageRange)
check_load p file_size loads = do
  reject_if (negate (p.p_type == pt_load)) unsupported_type
  check_contents p file_size
  r ← check_placement p
  reject_if (meets_any r loads) overlap
  ok (r ∷ loads)

-- One round of the loop over the program headers, with the accepted ranges, the last one first.
pub check_phdr : Phdr → ℕ → List PageRange → Check (List PageRange)
check_phdr p file_size loads =
    if p.p_type == pt_null || p.p_type == pt_gnu_stack
    then ok loads
    else check_load p file_size loads

-- The loop, from header `i` with the rounds that are left.
pub check_phdrs : ℕ → ℕ → (ℕ → Phdr) → ℕ → List PageRange → Check (List PageRange)
check_phdrs zero i phdr file_size loads = ok loads
check_phdrs (suc left) i phdr file_size loads =
    check_phdr (phdr i) file_size loads >>= check_phdrs left (i + 1) phdr file_size

-- The entry point lies in a PT_LOAD segment.
abbrev pub holds_entry : ℕ → Phdr → Bool
holds_entry entry p =
    p.p_type == pt_load && leb p.p_vaddr entry && ltb entry (u64 (p.p_vaddr + p.p_memsz))

pub some_holds_entry : ℕ → ℕ → (ℕ → Phdr) → ℕ → Bool
some_holds_entry zero i phdr entry = false
some_holds_entry (suc left) i phdr entry =
    if holds_entry entry (phdr i) then true else some_holds_entry left (i + 1) phdr entry

abbrev pub is_empty : List PageRange → Bool
is_empty [] = true
is_empty (r ∷ rs) = false

-- `validate`, up to where the header and the table come from.
pub check_image : Ehdr → (ℕ → Phdr) → ℕ → Check (Unit {0})
check_image h phdr file_size = do
  check_header h file_size
  loads ← check_phdrs h.e_phnum 0 phdr file_size []
  reject_if (is_empty loads) nothing_to_load
  reject_if (negate (some_holds_entry h.e_phnum 0 phdr h.e_entry)) bad_entry_point

-- What `validate` gives its caller: the header, the table and the number of its entries.
pub record Image : Type 0 where
  pub header : Ehdr
  pub phdrs : ℕ → Phdr
  pub phnum : ℕ

pub image_of : (ℕ → ℕ) → Image
image_of file =
    let h = header_of file in
    record { header = h; phdrs = phdr_at file h.e_phoff; phnum = h.e_phnum }

pub validate : (ℕ → ℕ) → ℕ → Check Image
validate file file_size =
    let image = image_of file in check_image image.header image.phdrs file_size >>= λ done. ok image
