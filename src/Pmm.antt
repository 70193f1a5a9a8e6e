-- ===== src/Pmm.antt =====
-- kernel/pmm.cpp: the physical frame allocator. The bitmap has a bit for each 4 KiB frame below
-- 1 GiB, and `free_count` counts the clear ones.
pub mod Invariant
pub mod Ranges
pub mod Alloc
mod Tests
use venom_os.Base.{
  ℕ, zero, suc, ◌+◌, ◌-◌, ◌*◌, ◌/◌, ◌%◌, ◌==◌, if◌then◌else◌, Bool, true, false, not, Option, none,
  some, List, [], ◌∷◌, leb, ltb,
}
use venom_os.Base.Memory.{u64, sub64}
use venom_os.Bitmap.{Bitmap, test_bit, set_bit, clear_bit}

abbrev pub frame_size : ℕ
frame_size = 4096

abbrev pub managed_limit : ℕ
managed_limit = 0x4000_0000

abbrev pub managed_frames : ℕ
managed_frames = managed_limit / frame_size

abbrev pub e820_type_usable : ℕ
e820_type_usable = 1

-- An entry of the memory map that the boot loader leaves at 0x9000.
pub record E820Entry : Type 0 where
  pub base : ℕ
  pub length : ℕ
  pub type : ℕ

pub record Pmm : Type 0 where
  pub bitmap : Bitmap
  pub free_count : ℕ

-- One round of the loop of `mark_range_used`.
pub use_frame : Pmm → ℕ → Pmm
use_frame p frame =
    if test_bit p.bitmap frame
    then p
    else (record { bitmap = set_bit p.bitmap frame; free_count = sub64 p.free_count 1 })

-- One round of the loop of `mark_range_free`.
pub release_frame : Pmm → ℕ → Pmm
release_frame p frame =
    if test_bit p.bitmap frame
    then (record { bitmap = clear_bit p.bitmap frame; free_count = u64 (p.free_count + 1) })
    else p

-- The two loops, with the rounds that are left.
pub use_frames : ℕ → ℕ → Pmm → Pmm
use_frames zero frame p = p
use_frames (suc left) frame p = use_frames left (frame + 1) (use_frame p frame)

pub release_frames : ℕ → ℕ → Pmm → Pmm
release_frames zero frame p = p
release_frames (suc left) frame p = release_frames left (frame + 1) (release_frame p frame)

abbrev pub clip : ℕ → ℕ
clip end = if ltb managed_limit end then managed_limit else end

abbrev pub first_frame : ℕ → ℕ
first_frame start = start / frame_size

abbrev pub last_frame : ℕ → ℕ
last_frame end = (end + frame_size - 1) / frame_size

pub mark_range_used : ℕ → ℕ → Pmm → Pmm
mark_range_used start limit p =
    let end = clip limit in
    if leb end start
    then p
    else use_frames (last_frame end - first_frame start) (first_frame start) p

pub mark_range_free : ℕ → ℕ → Pmm → Pmm
mark_range_free start limit p =
    let end = clip limit in
    if leb end start
    then p
    else release_frames (last_frame end - first_frame start) (first_frame start) p

-- One round of the loop of `init` over the entries of the memory map.
pub free_entry : Pmm → E820Entry → Pmm
free_entry p e =
    if e.type == e820_type_usable
    then (if leb managed_limit e.base
        then p
        else mark_range_free e.base (u64 (e.base + e.length)) p)
    else p

pub free_entries : List E820Entry → Pmm → Pmm
free_entries [] p = p
free_entries (e ∷ es) p = free_entries es (free_entry p e)

-- `init`, from the entries of the memory map and the address of `kernel_end`.
pub init : List E820Entry → ℕ → Pmm
init entries kernel_end = mark_range_used 0x10_0000 kernel_end (
    mark_range_used 0 0x10_0000
      (free_entries entries (record { bitmap = λ i. 0xff; free_count = 0 })))

-- The first free frame from `frame` on, of the next `left`.
pub find_free : ℕ → ℕ → Bitmap → Option ℕ
find_free zero frame m = none
find_free (suc left) frame m = elim (test_bit m frame) [
  | true ↦ find_free left (frame + 1) m
  | false ↦ some frame
]

pub alloc_at : Option ℕ → Pmm → ℕ × Pmm
alloc_at none p = (0, p)
alloc_at (some frame) p = (
  frame * frame_size,
  record { bitmap = set_bit p.bitmap frame; free_count = sub64 p.free_count 1 },
)

-- The physical address of a frame and the new state; 0 when no frame is free.
pub alloc_frame : Pmm → ℕ × Pmm
alloc_frame p = alloc_at (find_free managed_frames 0 p.bitmap) p

pub free_frame : Pmm → ℕ → Pmm
free_frame p phys_addr =
    if leb managed_limit phys_addr
    then p
    else (if phys_addr % frame_size == 0 then release_frame p (phys_addr / frame_size) else p)

pub total_frames : ℕ
total_frames = managed_frames

pub free_frames : Pmm → ℕ
free_frames p = p.free_count

pub used_frames : Pmm → ℕ
used_frames p = sub64 managed_frames p.free_count
