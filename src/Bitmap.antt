-- ===== src/Bitmap.antt =====
-- A bitmap of one bit for each block, eight to a byte, as kernel/pmm.cpp keeps it of physical
-- frames and kernel/fs.cpp of disk blocks. A set bit is a block in use.
pub mod Laws
pub mod Count
use venom_os.Base.{
  ℕ, zero, suc, ◌+◌, ◌-◌, ◌/◌, ◌%◌, ◌^◌, bit_and, bit_or, ◌==◌, if◌then◌else◌, Bool, true, false,
}
use venom_os.Base.Bits.{bit}
use venom_os.Base.Memory.{update}

-- The array of bytes.
abbrev pub Bitmap : Type 0
Bitmap = ℕ → ℕ

-- `(bitmap[i / 8] >> (i % 8)) & 1`
unfoldable pub test_bit : Bitmap → ℕ → Bool
test_bit bytes i = bit (bytes (i / 8)) (i % 8) == 1

-- `bitmap[i / 8] |= (uint8_t)(1u << (i % 8))`
unfoldable pub set_bit : Bitmap → ℕ → Bitmap
set_bit bytes i = update bytes (i / 8) (bit_or (bytes (i / 8)) (2 ^ (i % 8)))

-- `bitmap[i / 8] &= (uint8_t)~(1u << (i % 8))`
unfoldable pub clear_bit : Bitmap → ℕ → Bitmap
clear_bit bytes i = update bytes (i / 8) (bit_and (bytes (i / 8)) (255 - 2 ^ (i % 8)))

-- The blocks below a bound whose bit is clear.
unfoldable pub count_free : Bitmap → ℕ → ℕ
count_free bytes zero = 0
count_free bytes (suc n) =
    let rest = count_free bytes n in if test_bit bytes n then rest else suc rest
