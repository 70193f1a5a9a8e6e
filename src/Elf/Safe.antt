-- ===== src/Elf/Safe.antt =====
-- What holds of an image that `validate` accepts.
use venom_os.Base.{
  ℕ, zero, suc, ◌+◌, ◌*◌, ◌^◌, ◌≤◌, ◌<◌, ◌≡◌, ◌≢◌, ◌⊎◌, inl, inr, true, arith, [], Bool-cases, sym,
  subst,
}
use venom_os.Base.Memory.{u64}
use venom_os.Base.Bytes.{read_le-lt_8}
use venom_os.Base.Result.{ok, Result-cases}
use venom_os.Elf.{
  Ehdr, Phdr, header_of, image_of, Image, validate, page_range, check_phdrs, check_header,
  check_image, some_holds_entry, holds_entry, has_magic, et_exec, em_x86_64, max_load_segments,
  phdr_size, pt_load, phdr_at,
}
use venom_os.Elf.Segment.{HasWidths, phdr_at-HasWidths}
use venom_os.Elf.Accept.{IsSkipped, IsSegment, check_phdrs-Sound, check_phdrs_disjoint}

-- An x86-64 executable whose table of one to sixteen entries lies in the file.
pub record IsExecutable (h : Ehdr) (file_size : ℕ) : Type 0 where
  pub magic : has_magic h ≡ true
  pub executable : (h.e_type ≡ et_exec) × (h.e_machine ≡ em_x86_64)
  pub some_entries : h.e_phnum ≢ 0
  pub few_entries : h.e_phnum ≤ max_load_segments
  pub table_in_file : h.e_phoff + h.e_phnum * phdr_size ≤ file_size

pub check_header_sound :
    (h : Ehdr) (file_size : ℕ)
    → h.e_phoff < 2 ^ 64
    → file_size < 2 ^ 64
    → check_header h file_size ≡ ok tt
    → IsExecutable h file_size
unfolding check_header
check_header_sound h file_size w small e = ground arith

-- The entry point lies in a segment of the table.
pub record EntersAt (entry : ℕ) (phdr : ℕ → Phdr) (lo hi : ℕ) : Type 0 where
  pub index : ℕ
  pub in_table : (lo ≤ index) × (index < hi)
  pub loadable : (phdr index).p_type ≡ pt_load
  pub inside :
      ((phdr index).p_vaddr ≤ entry) × (entry < u64 ((phdr index).p_vaddr + (phdr index).p_memsz))

some_holds_entry_sound :
    (left i hi : ℕ) (phdr : ℕ → Phdr) (entry : ℕ)
    → i + left ≡ hi
    → some_holds_entry left i phdr entry ≡ true
    → EntersAt entry phdr i hi
unfolding some_holds_entry
some_holds_entry_sound zero i hi phdr entry n e = cc
some_holds_entry_sound (suc left) i hi phdr entry n e =
    elim (Bool-cases (holds_entry entry (phdr i))) [
      | inl here ↦ record {
        index = i;
        in_table = omega arith;
        loadable = ground arith;
        inside = ground arith;
      }
      | inr later ↦
          let rest =
            some_holds_entry_sound left (i + 1) hi phdr entry (omega arith) (rw later at e) in
          record {
            index = rest.index;
            in_table = omega (arith, rest.in_table);
            loadable = rest.loadable;
            inside = rest.inside;
          }
    ]

pub record IsSafe (image : Image) (file_size : ℕ) : Type 0 where
  pub header : IsExecutable image.header file_size
  pub segments :
      (k : ℕ) → k < image.phnum → IsSkipped (image.phdrs k) ⊎ IsSegment (image.phdrs k) file_size
  pub disjoint :
      (j k : ℕ)
      → j < k
      → k < image.phnum
      → (image.phdrs j).p_type ≡ pt_load
      → (image.phdrs k).p_type ≡ pt_load
      → ((page_range (image.phdrs j)).end ≤ (page_range (image.phdrs k)).start)
        ⊎ ((page_range (image.phdrs k)).end ≤ (page_range (image.phdrs j)).start)
  pub entry : EntersAt image.header.e_entry image.phdrs 0 image.phnum

module _ (h : Ehdr) (phdr : ℕ → Phdr) (file_size : ℕ) (small : file_size < 2 ^ 64)
    (wh : h.e_phoff < 2 ^ 64) (w : (k : ℕ) → HasWidths (phdr k)) where
  check_image_sound :
      check_image h phdr file_size ≡ ok tt
      → IsSafe (record { header = h; phdrs = phdr; phnum = h.e_phnum }) file_size
  unfolding check_image
  check_image_sound e = elim (Result-cases (check_header h file_size)) [
    | inl (x, bad) ↦ absurd (ground (arith, bad))
    | inr (u, good) ↦ elim (Result-cases (check_phdrs h.e_phnum 0 phdr file_size [])) [
      | inl (x, bad) ↦ absurd (ground (arith, bad, good))
      | inr (loads, looped) ↦ record {
        header = check_header_sound h file_size wh small good;
        segments = λ k lt. ground (
          arith,
          check_phdrs-Sound file_size small phdr w h.e_phnum 0 [] loads looped k (omega arith)
              (omega arith),
        );
        disjoint = λ j k lt below tj tk. ground (
          arith,
          check_phdrs_disjoint file_size small phdr w h.e_phnum 0 [] loads looped j k (omega arith)
              lt (omega arith) tj tk,
        );
        entry =
            some_holds_entry_sound h.e_phnum 0 h.e_phnum phdr h.e_entry (omega arith)
              (ground (arith, good, looped));
      }
    ]
  ]

-- For a file of less than 2 ^ 64 bytes, an image that `validate` accepts is the one that the file
-- holds, and it is safe to load: an
-- x86-64 executable whose table lies in the file; every segment has known permissions, is not
-- writable and executable at once, has its data in the file and its addresses in user space; the
-- pages of two segments never overlap; and the entry point lies in a segment.
pub validate-IsSafe :
    (file : ℕ → ℕ) (file_size : ℕ) {image : Image}
    → file_size < 2 ^ 64
    → validate file file_size ≡ ok image
    → (image ≡ image_of file) × IsSafe image file_size
unfolding validate image_of header_of
validate-IsSafe file file_size {image} small e =
    elim (Result-cases (check_image image_header image_phdrs file_size)) [
      | inl (x, bad) ↦ absurd (ground (arith, bad))
      | inr (u, good) ↦
          let same : image_of file ≡ image = ground (arith, good) in
          (
            sym same,
            subst (λ i. IsSafe i file_size) same
                (check_image_sound image_header image_phdrs file_size small (read_le-lt_8 file 32)
                  (phdr_at-HasWidths file image_header.e_phoff) good),
          )
    ]
  where
    image_header : Ehdr
    image_header = header_of file

    image_phdrs : ℕ → Phdr
    image_phdrs = phdr_at file image_header.e_phoff
