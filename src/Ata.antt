-- ===== src/Ata.antt =====
-- kernel/ata.cpp: reads and writes of disk sectors. The drive is hardware: `answers` tells whether its
-- n-th wait (for data, or until it is not busy) ends well, and `sectors` is what it stores. The ports
-- and `init` are not part of the model.
pub mod Sectors
mod Tests
use venom_os.Base.{
  ℕ, zero, suc, ◌+◌, ◌-◌, ◌*◌, ◌%◌, ◌^◌, ◌==◌, if◌then◌else◌, Bool, true, false, Option, none, some,
}
use venom_os.Base.Memory.{update, u8}
use venom_os.Base.Copy.{copy_bytes}

abbrev pub sector_size : ℕ
sector_size = 512

pub record Drive : Type 0 where
  pub sectors : ℕ → ℕ → ℕ
  pub answers : ℕ → Bool
  pub waits : ℕ
  pub fault_countdown : Option ℕ

-- `wait_for_data` and `wait_not_busy`.
abbrev pub wait : Drive → Bool × Drive
wait d = (d.answers d.waits, record d { waits = d.waits + 1 })

-- `fault_countdown` is none for -1.
pub debug_fail_next : ℕ → Drive → Drive
debug_fail_next calls d = record d { fault_countdown = some calls }

abbrev pub count_down : Option ℕ → Drive → Bool × Drive
count_down none d = (false, d)
count_down (some zero) d = (true, record d { fault_countdown = none })
count_down (some (suc n)) d = (false, record d { fault_countdown = some n })

pub should_inject_fault : Drive → Bool × Drive
should_inject_fault d = count_down d.fault_countdown d

-- The 28 bits of a block address that reach the drive.
abbrev pub address : ℕ → ℕ
address lba = lba % 2 ^ 28

-- What a read leaves in its buffer, and whether it succeeded.
abbrev pub ReadResult : Type 0
ReadResult = Bool × (ℕ → ℕ) × Drive

-- The rest of a transfer after a wait.
abbrev pub after_wait : {A : Type 0} → Bool × Drive → (Drive → A) → (Drive → A) → A
after_wait (true, d) good bad = good d
after_wait (false, d) good bad = bad d

-- The loop of `read_sectors`, with the sectors that are left.
pub read_from : ℕ → ℕ → ℕ → (ℕ → ℕ) → Drive → ReadResult
read_from zero sector lba buffer d = (true, buffer, d)
read_from (suc left) sector lba buffer d =
    after_wait (wait d)
      (λ d'.
        read_from left (sector + 1) lba
          (copy_bytes sector_size (sector * sector_size) 0 (d'.sectors (address lba + sector))
            buffer)
          d')
      (λ d'. (false, buffer, d'))

-- `read_sectors`, for less than 256 sectors.
pub read_sectors : ℕ → ℕ → (ℕ → ℕ) → Drive → ReadResult
read_sectors lba count buffer d =
    if count == 0
    then (true, buffer, d)
    else after_wait (should_inject_fault d) (λ d'. (false, buffer, d'))
        (λ d'. after_wait (wait d') (read_from count 0 lba buffer) (λ d''. (false, buffer, d'')))

abbrev pub put_sector : ℕ → (ℕ → ℕ) → Drive → Drive
put_sector at bytes d = record d { sectors = update d.sectors at bytes }

-- The loop of `write_sectors`, and the flush after it.
pub write_from : ℕ → ℕ → ℕ → (ℕ → ℕ) → Drive → Bool × Drive
write_from zero sector lba buffer d = wait d
write_from (suc left) sector lba buffer d =
    after_wait (wait d)
      (λ d'.
        write_from left (sector + 1) lba buffer
          (put_sector (address lba + sector) (λ i. u8 (buffer (sector * sector_size + i))) d'))
      (λ d'. (false, d'))

-- `write_sectors`, for less than 256 sectors.
pub write_sectors : ℕ → ℕ → (ℕ → ℕ) → Drive → Bool × Drive
write_sectors lba count buffer d =
    if count == 0
    then (true, d)
    else after_wait (should_inject_fault d) (λ d'. (false, d'))
        (λ d'. after_wait (wait d') (write_from count 0 lba buffer) (λ d''. (false, d'')))
