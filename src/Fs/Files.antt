-- ===== src/Fs/Files.antt =====
-- The operations on files of kernel/fs.cpp.
mod Tests
pub mod Slots
pub mod Write
pub mod Remove
pub mod Data
pub mod Names
pub mod Stored
pub mod RoundTrip
pub mod Limit
pub mod Read
use venom_os.Base.{
  ℕ, zero, suc, ◌+◌, ◌-◌, ◌*◌, ◌/◌, ◌%◌, ◌==◌, if◌then◌else◌, Bool, true, false, ◌&&◌, ltb, leb,
  Option, none, some,
}
use venom_os.Base.Memory.{update, u32, u8, u64}
use venom_os.Base.Copy.{copy_bytes}
use venom_os.Ata.{Drive, ReadResult, sector_size, read_sectors, write_sectors}
use venom_os.Fs.{
  Fs, FileEntry, Extent, max_filename, max_files, max_extents, no_extent, is_used, name_equals,
  copy_name, set_extents, clear_extents, free_entry, cleared,
}
use venom_os.Fs.Blocks.{Extents, choose_extents}
use venom_os.Fs.Format.{save_file_table, save_bitmap, if_done}

-- The slot of the file, from slot `i` on.
pub find_from : ℕ → ℕ → (ℕ → FileEntry) → (ℕ → ℕ) → Option ℕ
find_from zero i t name = none
find_from (suc left) i t name =
    let rest = find_from left (i + 1) t name in
    if is_used (t i) && name_equals (t i).name name then some i else rest

pub find : (ℕ → FileEntry) → (ℕ → ℕ) → Option ℕ
find t name = find_from max_files 0 t name

pub exists : (ℕ → ℕ) → Fs → Bool
exists name s = elim (find s.file_table name) [ none ↦ false | some i ↦ true ]

-- -1 is `none`.
pub file_size : (ℕ → ℕ) → Fs → Option ℕ
file_size name s = elim (find s.file_table name) [
  | none ↦ none
  | some i ↦ some (s.file_table i).size_bytes
]

-- The name ends within `left` more bytes.
pub name_fits : ℕ → ℕ → (ℕ → ℕ) → Bool
name_fits zero i name = false
name_fits (suc left) i name =
    let rest = name_fits left (i + 1) name in if name i == 0 then true else rest

-- The first slot that is not used.
pub unused_from : ℕ → ℕ → (ℕ → FileEntry) → Option ℕ
unused_from zero i t = none
unused_from (suc left) i t =
    let rest = unused_from left (i + 1) t in if is_used (t i) then rest else some i

-- What goes into a sector: the bytes that remain, and zeros.
abbrev pub sector_of : (ℕ → ℕ) → ℕ → ℕ → ℕ → ℕ
sector_of src size offset b = if ltb b (size - offset) then src (offset + b) else 0

-- The blocks of an extent from its `i`-th on, with the rounds left: the offset reached and the drive.
pub write_blocks : ℕ → ℕ → Extent → (ℕ → ℕ) → ℕ → ℕ → Drive → Bool × ℕ × Drive
write_blocks zero i x src size offset d = (true, offset, d)
write_blocks (suc left) i x src size offset d =
    let (done, d') = write_sectors (u32 (x.start_lba + i)) 1 (sector_of src size offset) d in
    elim done [
      | true ↦ write_blocks left (i + 1) x src size (offset + sector_size) d'
      | false ↦ (false, offset, d')
    ]

abbrev pub then_write : Bool × ℕ × Drive → (ℕ → Drive → Bool × ℕ × Drive) → Bool × ℕ × Drive
then_write (true, offset, d) k = k offset d
then_write (false, offset, d) k = (false, offset, d)

pub write_extents : ℕ → ℕ → (ℕ → Extent) → (ℕ → ℕ) → ℕ → ℕ → Drive → Bool × ℕ × Drive
write_extents zero e xs src size offset d = (true, offset, d)
write_extents (suc left) e xs src size offset d =
    then_write (write_blocks (xs e).block_count 0 (xs e) src size offset d)
      (write_extents left (e + 1) xs src size)

-- `save_bitmap(); save_file_table(); return false;`
abbrev pub give_up : Fs → Bool × Fs
give_up s = (false, (save_file_table (save_bitmap s).1).1)

-- The new entry of a file.
abbrev pub filled : FileEntry → (ℕ → ℕ) → ℕ → Extents → FileEntry
filled f name size xs = record {
  name = copy_name f.name name;
  size_bytes = u32 size;
  extent_count = u8 xs.count;
  used = 1;
  extents = λ e.
      if ltb e max_extents
      then (if ltb e xs.count then xs.extents e else no_extent)
      else f.extents e;
}

abbrev pub release_extents : Extents → Fs → Fs
release_extents xs s = record s { bitmap = clear_extents xs.count 0 xs.extents s.bitmap }

-- What `write` does when the table or the bitmap cannot be saved.
abbrev pub undo : ℕ → Extents → Fs → Bool × Fs
undo slot xs s =
    let s₁ = record (release_extents xs s) {
      file_table = update s.file_table slot (cleared (s.file_table slot));
    } in
    (false, (save_bitmap (save_file_table s₁).1).1)

-- The table is saved, and the bitmap too, also if that failed.
pub commit : Fs → Bool × Fs
commit s =
    let (table_ok, s₁) = save_file_table s in
    let (bitmap_ok, s₂) = save_bitmap s₁ in (table_ok && bitmap_ok, s₂)

abbrev pub keep_or_undo : ℕ → Extents → Bool × Fs → Bool × Fs
keep_or_undo slot xs (true, s) = (true, s)
keep_or_undo slot xs (false, s) = undo slot xs s

-- `write` once the data is on the disk.
pub enter_file : ℕ → Extents → (ℕ → ℕ) → ℕ → Fs → Bool × Fs
enter_file slot xs name size s = keep_or_undo slot xs (
    commit (record s {
      file_table = update s.file_table slot (filled (s.file_table slot) name size xs);
    }))

abbrev pub after_data : ℕ → Extents → (ℕ → ℕ) → ℕ → Fs → Bool × ℕ × Drive → Bool × Fs
after_data slot xs name size s (true, offset, d) =
    enter_file slot xs name size (record s { drive = d })
after_data slot xs name size s (false, offset, d) =
    give_up (release_extents xs (record s { drive = d }))

-- `write` once it has its blocks.
abbrev pub with_extents : Option Extents → ℕ → (ℕ → ℕ) → (ℕ → ℕ) → ℕ → Fs → Bool × Fs
with_extents none slot name src size s = give_up s
with_extents (some xs) slot name src size s =
    let s₁ = record s { bitmap = set_extents xs.count 0 xs.extents s.bitmap } in
    after_data slot xs name size s₁ (write_extents xs.count 0 xs.extents src size 0 s₁.drive)

abbrev pub blocks_needed : ℕ → ℕ
blocks_needed size = u32 (u64 (size + sector_size - 1) / sector_size)

pub write_slot : Option ℕ → (ℕ → ℕ) → (ℕ → ℕ) → ℕ → Fs → Bool × Fs
write_slot none name src size s = give_up s
write_slot (some slot) name src size s =
    with_extents (choose_extents (blocks_needed size) s.bitmap) slot name src size s

-- The slot for the file, and the state in which an older file of that name is gone.
abbrev pub make_room : Option ℕ → Fs → Option ℕ × Fs
make_room none s = (unused_from max_files 0 s.file_table, s)
make_room (some i) s = (some i, free_entry i s)

pub write : (ℕ → ℕ) → (ℕ → ℕ) → ℕ → Fs → Bool × Fs
write name src size s =
    if name_fits max_filename 0 name
    then (let (slot, s₁) = make_room (find s.file_table name) s in write_slot slot name src size s₁)
    else (false, s)

-- The progress of a read, and the drive.
pub record Reading : Type 0 where
  pub bytes_read : ℕ
  pub dest : ℕ → ℕ
  pub drive : Drive

-- The bytes of one sector that are wanted.
pub take_sector : ℕ → (ℕ → ℕ) → Drive → Reading → Reading
take_sector to_read bytes d r =
    let remaining = to_read - r.bytes_read in
    let chunk = if ltb remaining sector_size then remaining else sector_size in
    record {
      bytes_read = r.bytes_read + chunk;
      dest = copy_bytes chunk r.bytes_read 0 bytes r.dest;
      drive = d;
    }

abbrev pub after_read : ReadResult → ℕ → Reading → (Reading → Bool × Reading) → Bool × Reading
after_read (true, bytes, d) to_read r k = k (take_sector to_read bytes d r)
after_read (false, bytes, d) to_read r k = (false, record r { drive = d })

-- The blocks of an extent from its `i`-th on, with the rounds left.
pub read_blocks : ℕ → ℕ → Extent → ℕ → Reading → Bool × Reading
read_blocks zero i x to_read r = (true, r)
read_blocks (suc left) i x to_read r =
    if ltb r.bytes_read to_read
    then after_read (read_sectors (u32 (x.start_lba + i)) 1 (λ b. 0) r.drive) to_read r
        (read_blocks left (i + 1) x to_read)
    else (true, r)

abbrev pub then_read : Bool × Reading → (Reading → Bool × Reading) → Bool × Reading
then_read (true, r) k = k r
then_read (false, r) k = (false, r)

pub read_extents : ℕ → ℕ → (ℕ → Extent) → ℕ → Reading → Bool × Reading
read_extents zero e xs to_read r = (true, r)
read_extents (suc left) e xs to_read r =
    if ltb r.bytes_read to_read
    then then_read (read_blocks (xs e).block_count 0 (xs e) to_read r)
        (read_extents left (e + 1) xs to_read)
    else (true, r)

abbrev pub read_limit : FileEntry → ℕ → ℕ
read_limit f capacity = if ltb capacity f.size_bytes then capacity else f.size_bytes

abbrev pub read_slot : Option ℕ → ℕ → (ℕ → ℕ) → Fs → Bool × Reading
read_slot none capacity buffer s =
    (false, record { bytes_read = 0; dest = buffer; drive = s.drive })
read_slot (some i) capacity buffer s =
    read_extents (s.file_table i).extent_count 0 (s.file_table i).extents
      (read_limit (s.file_table i) capacity)
      (record { bytes_read = 0; dest = buffer; drive = s.drive })

-- `read`: whether it succeeded, and how far it came. For a missing file the code leaves
-- `*out_bytes_read` alone.
pub read : (ℕ → ℕ) → ℕ → (ℕ → ℕ) → Fs → Bool × Reading
read name capacity buffer s = read_slot (find s.file_table name) capacity buffer s

-- The entry and its blocks come back when the table or the bitmap cannot be saved.
abbrev pub keep_or_restore : ℕ → FileEntry → Bool × Fs → Bool × Fs
keep_or_restore i backup (true, s) = (true, s)
keep_or_restore i backup (false, s) = (
  false,
  record s {
    file_table = update s.file_table i backup;
    bitmap = set_extents backup.extent_count 0 backup.extents s.bitmap;
  },
)

abbrev pub remove_slot : Option ℕ → Fs → Bool × Fs
remove_slot none s = (false, s)
remove_slot (some i) s = keep_or_restore i (s.file_table i) (commit (free_entry i s))

pub remove : (ℕ → ℕ) → Fs → Bool × Fs
remove name s = remove_slot (find s.file_table name) s

pub entry_at : ℕ → Fs → Option FileEntry
entry_at index s = if leb max_files index then none else some (s.file_table index)
