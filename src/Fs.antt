-- ===== src/Fs.antt =====
-- kernel/fs.hpp and kernel/fs.cpp: VenomFS, a table of 64 files with up to four extents of data blocks
-- each. The state is the file table and the block bitmap in memory, and the drive of ata.cpp. A name or
-- a buffer is its bytes.
pub mod Format
pub mod Blocks
pub mod Owners
pub mod Consistent
pub mod Mount
pub mod Files
mod Tests
use venom_os.Base.{
  ℕ, zero, suc, ◌+◌, ◌-◌, ◌*◌, ◌/◌, ◌%◌, ◌^◌, ◌==◌, if◌then◌else◌, Bool, true, false, ◌&&◌, ◌||◌,
  ltb, leb,
}
use venom_os.Base.Memory.{update, u32, sub32}
use venom_os.Bitmap.{Bitmap, test_bit, set_bit, clear_bit}
use venom_os.Ata.{Drive}

abbrev pub max_filename : ℕ
max_filename = 32

abbrev pub max_files : ℕ
max_files = 64

abbrev pub max_extents : ℕ
max_extents = 4

abbrev pub superblock_lba : ℕ
superblock_lba = 256

abbrev pub file_table_lba : ℕ
file_table_lba = 257

abbrev pub file_table_sectors : ℕ
file_table_sectors = 9

abbrev pub bitmap_lba : ℕ
bitmap_lba = 266

abbrev pub bitmap_sectors : ℕ
bitmap_sectors = 8

abbrev pub data_start_lba : ℕ
data_start_lba = 274

abbrev pub total_disk_sectors : ℕ
total_disk_sectors = 32768

abbrev pub total_data_blocks : ℕ
total_data_blocks = total_disk_sectors - data_start_lba

pub record Extent : Type 0 where
  pub start_lba : ℕ
  pub block_count : ℕ

-- The two reserved bytes are never read and are left out.
pub record FileEntry : Type 0 where
  pub name : ℕ → ℕ
  pub size_bytes : ℕ
  pub extent_count : ℕ
  pub used : ℕ
  pub extents : ℕ → Extent

pub record Fs : Type 0 where
  pub file_table : ℕ → FileEntry
  pub bitmap : Bitmap
  pub drive : Drive

abbrev pub no_extent : Extent
no_extent = record { start_lba = 0; block_count = 0 }

abbrev pub empty_entry : FileEntry
empty_entry = record {
  name = λ i. 0;
  size_bytes = 0;
  extent_count = 0;
  used = 0;
  extents = λ e. no_extent;
}

abbrev pub is_used : FileEntry → Bool
is_used f = if f.used == 0 then false else true

-- The loop of `name_equals` from index `i` on, with the rounds left.
pub name_equals_from : ℕ → ℕ → (ℕ → ℕ) → (ℕ → ℕ) → Bool
name_equals_from zero i a b = true
name_equals_from (suc left) i a b =
    let rest = name_equals_from left (i + 1) a b in
    if a i == b i then (if a i == 0 then true else rest) else false

pub name_equals : (ℕ → ℕ) → (ℕ → ℕ) → Bool
name_equals a b = name_equals_from max_filename 0 a b

pub copy_name_from : ℕ → ℕ → (ℕ → ℕ) → (ℕ → ℕ) → ℕ → ℕ
copy_name_from zero i dest src = update dest i 0
copy_name_from (suc left) i dest src =
    let rest = copy_name_from left (i + 1) (update dest i (src i)) src in
    if src i == 0 then update dest i 0 else rest

pub copy_name : (ℕ → ℕ) → (ℕ → ℕ) → ℕ → ℕ
copy_name dest src = copy_name_from (max_filename - 1) 0 dest src

-- `bit_set(start_block + i)` and `bit_clear(start_block + i)` for the blocks of an extent, with the
-- rounds left.
pub set_run : ℕ → ℕ → Bitmap → Bitmap
set_run zero block m = m
set_run (suc left) block m = set_run left (block + 1) (set_bit m (u32 block))

pub clear_run : ℕ → ℕ → Bitmap → Bitmap
clear_run zero block m = m
clear_run (suc left) block m = clear_run left (block + 1) (clear_bit m (u32 block))

abbrev pub start_block : Extent → ℕ
start_block x = sub32 x.start_lba data_start_lba

-- The loops over the extents of an entry, from extent `e` on.
pub set_extents : ℕ → ℕ → (ℕ → Extent) → Bitmap → Bitmap
set_extents zero e xs m = m
set_extents (suc left) e xs m =
    set_extents left (e + 1) xs (set_run (xs e).block_count (start_block (xs e)) m)

pub clear_extents : ℕ → ℕ → (ℕ → Extent) → Bitmap → Bitmap
clear_extents zero e xs m = m
clear_extents (suc left) e xs m =
    clear_extents left (e + 1) xs (clear_run (xs e).block_count (start_block (xs e)) m)

-- `rebuild_bitmap_from_file_table`, from file `i` on.
pub rebuild_from : ℕ → ℕ → (ℕ → FileEntry) → Bitmap → Bitmap
rebuild_from zero i t m = m
rebuild_from (suc left) i t m =
    rebuild_from left (i + 1) t
      (if is_used (t i) then set_extents (t i).extent_count 0 (t i).extents m else m)

pub rebuild_bitmap_from_file_table : Fs → Fs
rebuild_bitmap_from_file_table s = record s {
  bitmap = rebuild_from max_files 0 s.file_table (λ i. 0);
}

-- An entry without its blocks, as `free_entry` leaves it: only the first byte of the name is cleared.
abbrev pub cleared : FileEntry → FileEntry
cleared f = record {
  name = update f.name 0 0;
  size_bytes = 0;
  extent_count = 0;
  used = 0;
  extents = λ e. if ltb e max_extents then no_extent else f.extents e;
}

-- `free_entry`, for the entry in slot `i`.
pub free_entry : ℕ → Fs → Fs
free_entry i s =
    let f = s.file_table i in
    record s {
      bitmap = clear_extents f.extent_count 0 f.extents s.bitmap;
      file_table = update s.file_table i (cleared f);
    }
