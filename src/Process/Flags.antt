-- ===== src/Process/Flags.antt =====
-- The permissions of a segment's pages.
use venom_os.Base.{ℕ, ◌≡◌, ◌↔◌, true, false, arith}
use venom_os.Base.Bits.{bit, bit-lt}
use venom_os.Paging.{is_wx, is_writable, is_no_execute, is_present, is_user, is_owned}
use venom_os.Process.{segment_page_flags}

-- Whatever the flags of the segment, its pages are never writable and executable; they are
-- writable exactly if PF_WRITE is set, executable exactly if PF_EXEC is set and PF_WRITE is not,
-- and they are present, open to the user and owned by the process.
pub segment_page_flags_lem :
    (p_flags : ℕ)
    → let e = segment_page_flags p_flags in
      (is_wx e ≡ false)
      × ((is_writable e ≡ true) ↔ (bit p_flags 1 ≡ 1))
      × ((is_no_execute e ≡ false) ↔ ((bit p_flags 0 ≡ 1) × (bit p_flags 1 ≡ 0)))
      × (is_present e ≡ true)
      × (is_user e ≡ true)
      × (is_owned e ≡ true)
unfolding segment_page_flags
segment_page_flags_lem p_flags = ground (arith, bit-lt p_flags 1)
