-- ===== src/Elf/Segment.antt =====
-- What the checks of one PT_LOAD segment establish.
use venom_os.Base.{ℕ, ◌+◌, ◌%◌, ◌^◌, ◌≤◌, ◌<◌, ◌≡◌, ◌≢◌, ◌⊎◌, ◌↔◌, true, arith}
use venom_os.Base.Bits.{bit, bit-lt}
use venom_os.Base.Bytes.{read_le-lt_4, read_le-lt_8}
use venom_os.Base.Result.{ok}
use venom_os.Elf.{
  Phdr, PageRange, phdr_at, page_range, user_space_min, user_space_max, is_power_of_two,
  check_contents, check_placement,
}

-- The fields have the widths of Elf64_Phdr.
pub record HasWidths (p : Phdr) : Type 0 where
  pub flags : p.p_flags < 2 ^ 32
  pub offset : p.p_offset < 2 ^ 64
  pub vaddr : p.p_vaddr < 2 ^ 64
  pub filesz : p.p_filesz < 2 ^ 64
  pub memsz : p.p_memsz < 2 ^ 64

pub phdr_at-HasWidths : (file : ℕ → ℕ) (phoff i : ℕ) → HasWidths (phdr_at file phoff i)
unfolding phdr_at
phdr_at-HasWidths file phoff i = record {
  flags = read_le-lt_4 file _;
  offset = read_le-lt_8 file _;
  vaddr = read_le-lt_8 file _;
  filesz = read_le-lt_8 file _;
  memsz = read_le-lt_8 file _;
}

-- Known permissions, never writable and executable at once, and data inside the file.
pub record HasContents (p : Phdr) (file_size : ℕ) : Type 0 where
  pub some_permission : p.p_flags ≢ 0
  pub known_permissions : p.p_flags < 8
  pub write_or_execute : (bit p.p_flags 1 ≡ 0) ⊎ (bit p.p_flags 0 ≡ 0)
  pub data_in_memory : p.p_filesz ≤ p.p_memsz
  pub data_in_file : p.p_offset + p.p_filesz ≤ file_size

-- Addresses of user space, a sound alignment, and at least one page.
pub record HasPlacement (p : Phdr) : Type 0 where
  pub above_kernel : user_space_min ≤ p.p_vaddr
  pub below_top : p.p_vaddr + p.p_memsz ≤ user_space_max
  pub aligned :
      (p.p_align ≡ 0)
      ⊎ ((is_power_of_two p.p_align ≡ true) × (p.p_vaddr % p.p_align ≡ p.p_offset % p.p_align))
  pub has_pages : (page_range p).start < (page_range p).end

module _ (p : Phdr) (w : HasWidths p) where
  -- For a header whose fields have their widths and a file of less than 2 ^ 64 bytes,
  -- `check_contents` accepts exactly the segments with known permissions, at least one and not both
  -- writing and executing, whose data lies in the file and fits in its memory.
  pub check_contents_iff :
      (file_size : ℕ)
      → file_size < 2 ^ 64
      → (check_contents p file_size ≡ ok tt) ↔ HasContents p file_size
  unfolding check_contents
  check_contents_iff file_size small =
      (λ e. ground (arith, bit-lt p.p_flags 1, bit-lt p.p_flags 0), λ c. ground arith)

  -- A segment whose fields have their widths and that `check_placement` accepts lies in user space,
  -- is aligned as it says, has a page, and the range is that of its pages.
  pub check_placement_sound :
      (r : PageRange) → check_placement p ≡ ok r → HasPlacement p × (r ≡ page_range p)
  unfolding check_placement
  check_placement_sound r e = ground arith

  -- A segment whose fields have their widths, that lies in user space, is aligned as it says and has
  -- a page is accepted, with the range of its pages.
  pub check_placement_complete : HasPlacement p → check_placement p ≡ ok (page_range p)
  unfolding check_placement
  check_placement_complete h = ground arith

  -- The pages of a segment that meets the placement checks hold it, and stay in user space.
  pub page_range_lem :
      HasPlacement p
      → ((page_range p).start ≤ p.p_vaddr)
        × (p.p_vaddr + p.p_memsz ≤ (page_range p).end)
        × (user_space_min ≤ (page_range p).start)
        × ((page_range p).end ≤ user_space_max)
  page_range_lem h = omega arith
