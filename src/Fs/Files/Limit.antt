-- ===== src/Fs/Files/Limit.antt =====
-- A read never reports more bytes than the buffer has room for, on any drive.
use venom_os.Base.{
  ℕ, zero, suc, ◌+◌, ◌≤◌, Bool, true, false, ltb, Option, none, some, arith, inl, inr, Bool-cases,
}
use venom_os.Base.Memory.{u32}
use venom_os.Ata.{Drive, ReadResult, read_sectors}
use venom_os.Fs.{Fs, Extent}
use venom_os.Fs.Files.{
  Reading, take_sector, after_read, read_blocks, then_read, read_extents, read_limit, read_slot,
  read, find,
}

take_sector-limit :
    (to_read : ℕ) (bytes : ℕ → ℕ) (d : Drive) (r : Reading)
    → r.bytes_read ≤ to_read
    → (take_sector to_read bytes d r).bytes_read ≤ to_read
unfolding take_sector
take_sector-limit to_read bytes d r le = ground arith

after_read-limit :
    (g : ReadResult) (to_read : ℕ) (r : Reading) (k : Reading → Bool × Reading)
    → r.bytes_read ≤ to_read
    → ((r' : Reading) → r'.bytes_read ≤ to_read → (k r').1.bytes_read ≤ to_read)
    → (after_read g to_read r k).1.bytes_read ≤ to_read
after_read-limit (true, bytes, d) to_read r k le rest =
    rest (take_sector to_read bytes d r) (take_sector-limit to_read bytes d r le)
after_read-limit (false, bytes, d) to_read r k le rest = le

read_blocks-limit :
    (left i : ℕ) (x : Extent) (to_read : ℕ) (r : Reading)
    → r.bytes_read ≤ to_read
    → (read_blocks left i x to_read r).1.bytes_read ≤ to_read
unfolding read_blocks
read_blocks-limit zero i x to_read r le = le
read_blocks-limit (suc left) i x to_read r le = elim (Bool-cases (ltb r.bytes_read to_read)) [
  | inr full ↦ rw (full, read_blocks) le
  | inl more ↦
      rw (more, read_blocks)
        (after_read-limit (read_sectors (u32 (x.start_lba + i)) 1 (λ b. 0) r.drive) to_read r
          (read_blocks left (i + 1) x to_read) le
          (λ r' le'. read_blocks-limit left (i + 1) x to_read r' le'))
]

then_read-limit :
    (g : Bool × Reading) (to_read : ℕ) (k : Reading → Bool × Reading)
    → g.1.bytes_read ≤ to_read
    → ((r' : Reading) → r'.bytes_read ≤ to_read → (k r').1.bytes_read ≤ to_read)
    → (then_read g k).1.bytes_read ≤ to_read
then_read-limit (true, r) to_read k le rest = rest r le
then_read-limit (false, r) to_read k le rest = le

read_extents-limit :
    (left e : ℕ) (xs : ℕ → Extent) (to_read : ℕ) (r : Reading)
    → r.bytes_read ≤ to_read
    → (read_extents left e xs to_read r).1.bytes_read ≤ to_read
unfolding read_extents
read_extents-limit zero e xs to_read r le = le
read_extents-limit (suc left) e xs to_read r le = elim (Bool-cases (ltb r.bytes_read to_read)) [
  | inr full ↦ rw (full, read_extents) le
  | inl more ↦
      rw (more, read_extents)
        (then_read-limit (read_blocks (xs e).block_count 0 (xs e) to_read r) to_read
          (read_extents left (e + 1) xs to_read)
          (read_blocks-limit (xs e).block_count 0 (xs e) to_read r le)
          (λ r' le'. read_extents-limit left (e + 1) xs to_read r' le'))
]

read_slot-limit :
    (o : Option ℕ) (capacity : ℕ) (buffer : ℕ → ℕ) (s : Fs)
    → (read_slot o capacity buffer s).1.bytes_read ≤ capacity
read_slot-limit none capacity buffer s = omega arith
read_slot-limit (some i) capacity buffer s =
    let f = s.file_table i in
    let start : Reading = record { bytes_read = 0; dest = buffer; drive = s.drive } in
    let h =
      read_extents-limit f.extent_count 0 f.extents (read_limit f capacity) start (omega arith) in
    ground arith

-- A read reports at most as many bytes as the buffer has room for.
pub read-limit :
    (name : ℕ → ℕ) (capacity : ℕ) (buffer : ℕ → ℕ) (s : Fs)
    → (read name capacity buffer s).1.bytes_read ≤ capacity
unfolding read
read-limit name capacity buffer s = read_slot-limit (find s.file_table name) capacity buffer s
