-- ===== src/Fs/Format.antt =====
-- The layout of the file table on the disk (packed structs of 72 bytes), and `format` and `init`.
use venom_os.Base.{
  ℕ, zero, suc, ◌+◌, ◌-◌, ◌*◌, ◌/◌, ◌%◌, ◌==◌, ◌≡◌, ◌≤◌, refl, inr, arith, if◌then◌else◌, Bool,
  true, false, ◌&&◌, ltb,
}
use venom_os.Base.Memory.{u8}
use venom_os.Base.Bytes.{read_le}
use venom_os.Ata.{ReadResult, read_sectors, write_sectors}
use venom_os.Ata.Sectors.{IsHealthy, write_sectors-Writes}
use venom_os.Fs.{
  Fs, FileEntry, Extent, superblock_lba, file_table_lba, file_table_sectors, bitmap_lba,
  bitmap_sectors, data_start_lba, total_data_blocks, max_files, empty_entry,
  rebuild_bitmap_from_file_table,
}

abbrev pub entry_size : ℕ
entry_size = 72

-- The `k`-th byte of a word.
abbrev pub byte_of : ℕ → ℕ → ℕ
byte_of value zero = u8 value
byte_of value (suc k) = byte_of (value / 256) k

-- The bytes of an extent and of an entry.
pub extent_byte : Extent → ℕ → ℕ
extent_byte x k = if ltb k 4 then byte_of x.start_lba k else byte_of x.block_count (k - 4)

pub entry_byte : FileEntry → ℕ → ℕ
entry_byte f k =
    if ltb k 32
    then u8 (f.name k)
    else (if ltb k 36
        then byte_of f.size_bytes (k - 32)
        else (if k == 36
            then u8 f.extent_count
            else (if k == 37
                then u8 f.used
                else (if ltb k 40
                    then 0
                    else extent_byte (f.extents ((k - 40) / 8)) ((k - 40) % 8)))))

pub table_bytes : (ℕ → FileEntry) → ℕ → ℕ
table_bytes t i =
    if ltb i (max_files * entry_size) then entry_byte (t (i / entry_size)) (i % entry_size) else 0

-- An entry from the bytes of the table.
pub extent_at : (ℕ → ℕ) → ℕ → ℕ → Extent
extent_at bytes at e = record {
  start_lba = read_le 4 bytes (at + 40 + e * 8);
  block_count = read_le 4 bytes (at + 44 + e * 8);
}

pub entry_at_bytes : (ℕ → ℕ) → ℕ → FileEntry
entry_at_bytes bytes at = record {
  name = λ k. u8 (bytes (at + k));
  size_bytes = read_le 4 bytes (at + 32);
  extent_count = read_le 1 bytes (at + 36);
  used = read_le 1 bytes (at + 37);
  extents = extent_at bytes at;
}

pub table_of : (ℕ → ℕ) → ℕ → FileEntry
table_of bytes i = entry_at_bytes bytes (i * entry_size)

pub save_file_table : Fs → Bool × Fs
save_file_table s =
    let (done, d) =
      write_sectors file_table_lba file_table_sectors (table_bytes s.file_table) s.drive in
    (done, record s { drive = d })

pub save_bitmap : Fs → Bool × Fs
save_bitmap s =
    let (done, d) = write_sectors bitmap_lba bitmap_sectors s.bitmap s.drive in
    (done, record s { drive = d })

-- The table and the bitmap in memory are the same in both states.
pub record AreKept (s s' : Fs) : Type 0 where
  pub table : s'.file_table ≡ s.file_table
  pub bits : s'.bitmap ≡ s.bitmap

pub save_file_table-AreKept : (s : Fs) → AreKept s (save_file_table s).1
unfolding save_file_table
save_file_table-AreKept s = record { table = refl; bits = refl }

pub save_bitmap-AreKept : (s : Fs) → AreKept s (save_bitmap s).1
unfolding save_bitmap
save_bitmap-AreKept s = record { table = refl; bits = refl }

-- On a healthy drive both saves succeed, and no sector of the data region changes.
pub record AreSaved (s : Fs) (r : Bool × Fs) : Type 0 where
  pub done : r.0 ≡ true
  pub healthy : IsHealthy r.1.drive
  pub data_kept : (at : ℕ) → data_start_lba ≤ at → r.1.drive.sectors at ≡ s.drive.sectors at

pub save_file_table-AreSaved : (s : Fs) → IsHealthy s.drive → AreSaved s (save_file_table s)
unfolding save_file_table
save_file_table-AreSaved s h =
    let w =
      write_sectors-Writes file_table_lba file_table_sectors (table_bytes s.file_table) s.drive
        (omega arith) (omega arith) h in
    record {
      done = w.done;
      healthy = w.healthy;
      data_kept = λ at p. w.outside at (inr (omega arith));
    }

pub save_bitmap-AreSaved : (s : Fs) → IsHealthy s.drive → AreSaved s (save_bitmap s)
unfolding save_bitmap
save_bitmap-AreSaved s h =
    let w =
      write_sectors-Writes bitmap_lba bitmap_sectors s.bitmap s.drive (omega arith) (omega arith)
        h in
    record {
      done = w.done;
      healthy = w.healthy;
      data_kept = λ at p. w.outside at (inr (omega arith));
    }

-- The rest of an operation that stops at the first failure.
abbrev pub if_done : Bool × Fs → (Fs → Bool × Fs) → Bool × Fs
if_done (true, s) k = k s
if_done (false, s) k = (false, s)

-- The bytes of the superblock: "VNFS", the version 2, and where the parts of the disk are.
pub superblock_byte : ℕ → ℕ
superblock_byte k =
    if k == 0
    then b'V'
    else (if k == 1
        then b'N'
        else (if k == 2
            then b'F'
            else (if k == 3
                then b'S'
                else (if ltb k 8
                    then byte_of 2 (k - 4)
                    else (if ltb k 12
                        then byte_of total_data_blocks (k - 8)
                        else (if ltb k 16
                            then byte_of file_table_lba (k - 12)
                            else (if ltb k 20
                                then byte_of file_table_sectors (k - 16)
                                else (if ltb k 24
                                    then byte_of bitmap_lba (k - 20)
                                    else (if ltb k 28
                                        then byte_of bitmap_sectors (k - 24)
                                        else (if ltb k 32
                                            then byte_of data_start_lba (k - 28)
                                            else 0))))))))))

abbrev pub clear_table : (ℕ → FileEntry) → ℕ → FileEntry
clear_table t i = if ltb i max_files then empty_entry else t i

pub format : Fs → Bool × Fs
format s =
    let (done, d) = write_sectors superblock_lba 1 superblock_byte s.drive in
    if_done (done, record s { drive = d })
      λ s₁.
        if_done (save_file_table (record s₁ { file_table = clear_table s₁.file_table }))
          λ s₂. save_bitmap (record s₂ { bitmap = λ i. 0 })

abbrev pub has_magic : (ℕ → ℕ) → Bool
has_magic b = b 0 == b'V' && b 1 == b'N' && b 2 == b'F' && b 3 == b'S'

-- The table is read into place, also where the read fails on the way.
abbrev pub load_table : ReadResult → Fs → Bool × Fs
load_table (done, bytes, d) s =
    if_done (done, record s { file_table = table_of bytes; drive = d })
      λ s₁. save_bitmap (rebuild_bitmap_from_file_table s₁)

abbrev pub load : ReadResult → Fs → Bool × Fs
load (false, bytes, d) s = (false, record s { drive = d })
load (true, bytes, d) s =
    let s₁ = record s { drive = d } in
    if has_magic bytes
    then load_table (read_sectors file_table_lba file_table_sectors (table_bytes s.file_table) d) s₁
    else format s₁

pub init : Fs → Bool × Fs
init s = load (read_sectors superblock_lba 1 (λ i. 0) s.drive) s
