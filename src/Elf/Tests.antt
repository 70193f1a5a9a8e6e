-- ===== src/Elf/Tests.antt =====
-- A small executable that elf.cpp accepts.
use venom_os.Base.{ℕ, ◌≡◌, refl, arith, List, [], ◌∷◌, get_or}
use venom_os.Base.Bytes.{read_le}
use venom_os.Base.Result.{ok}
use venom_os.Elf.{
  Phdr, validate, image_of, header_of, phdr_at, check_image, check_header, check_phdrs, check_phdr,
  check_load, check_contents, check_placement, is_power_of_two, some_holds_entry, meets_any,
}
use venom_os.Elf.Segment.{HasWidths}
use venom_os.Elf.Safe.{IsSafe, validate-IsSafe}

-- A header and one segment at 0x40000000, with the bytes in the file's order.
abbrev program_bytes : List ℕ
program_bytes =
    0x7f ∷ b'E' ∷ b'L' ∷ b'F' ∷ 2 ∷ 1 ∷ 1 ∷ 0 ∷ 0 ∷ 0 ∷ 0 ∷ 0 ∷ 0 ∷ 0 ∷ 0 ∷ 0 ∷ 2 ∷ 0 ∷ 62 ∷ 0 ∷ 1
    ∷ 0 ∷ 0 ∷ 0 ∷ 0 ∷ 0 ∷ 0 ∷ 0x40 ∷ 0 ∷ 0 ∷ 0 ∷ 0 ∷ 64 ∷ 0 ∷ 0 ∷ 0 ∷ 0 ∷ 0 ∷ 0 ∷ 0 ∷ 0 ∷ 0 ∷ 0 ∷ 0
    ∷ 0 ∷ 0 ∷ 0 ∷ 0 ∷ 0 ∷ 0 ∷ 0 ∷ 0 ∷ 64 ∷ 0 ∷ 56 ∷ 0 ∷ 1 ∷ 0 ∷ 0 ∷ 0 ∷ 0 ∷ 0 ∷ 0 ∷ 0 ∷ 1 ∷ 0 ∷ 0
    ∷ 0 ∷ 5 ∷ 0 ∷ 0 ∷ 0 ∷ 0 ∷ 0 ∷ 0 ∷ 0 ∷ 0 ∷ 0 ∷ 0 ∷ 0 ∷ 0 ∷ 0 ∷ 0 ∷ 0x40 ∷ 0 ∷ 0 ∷ 0 ∷ 0 ∷ 0 ∷ 0
    ∷ 0 ∷ 0 ∷ 0 ∷ 0 ∷ 0 ∷ 0 ∷ 120 ∷ 0 ∷ 0 ∷ 0 ∷ 0 ∷ 0 ∷ 0 ∷ 0 ∷ 120 ∷ 0 ∷ 0 ∷ 0 ∷ 0 ∷ 0 ∷ 0 ∷ 0 ∷ 0
    ∷ 16 ∷ 0 ∷ 0 ∷ 0 ∷ 0 ∷ 0 ∷ 0 ∷ []

unfoldable program : ℕ → ℕ
program i = get_or program_bytes i 0

abbrev text_segment : Phdr
text_segment = record {
  p_type = 1;
  p_flags = 5;
  p_offset = 0;
  p_vaddr = 0x4000_0000;
  p_filesz = 120;
  p_memsz = 120;
  p_align = 4096;
}

text_segment-HasWidths : HasWidths text_segment
text_segment-HasWidths = record {
  flags = omega arith;
  offset = omega arith;
  vaddr = omega arith;
  filesz = omega arith;
  memsz = omega arith;
}

program-accepted : validate program 120 ≡ ok (image_of program)
unfolding validate image_of header_of phdr_at check_image check_header check_phdrs check_phdr
    check_load check_contents check_placement is_power_of_two some_holds_entry meets_any read_le
    program
program-accepted = refl

validate-IsSafe_example : (image_of program ≡ image_of program) × IsSafe (image_of program) 120
validate-IsSafe_example = validate-IsSafe program 120 (omega arith) program-accepted
