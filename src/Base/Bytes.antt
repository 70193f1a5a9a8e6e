-- ===== src/Base/Bytes.antt =====
-- Little-endian words in an array of bytes.
use venom_os.Base.Core.{ℕ, zero, suc, ◌+◌, ◌*◌, ◌^◌, ◌<◌, arith}
use venom_os.Base.Memory.{u8}

-- The word of `n` bytes at an offset.
unfoldable pub read_le : ℕ → (ℕ → ℕ) → ℕ → ℕ
read_le zero m at = 0
read_le (suc n) m at = u8 (m at) + 256 * read_le n m (at + 1)

pub read_le-lt_1 : (m : ℕ → ℕ) (at : ℕ) → read_le 1 m at < 2 ^ 8
unfolding read_le
read_le-lt_1 m at = omega arith

pub read_le-lt_2 : (m : ℕ → ℕ) (at : ℕ) → read_le 2 m at < 2 ^ 16
unfolding read_le
read_le-lt_2 m at = omega arith

pub read_le-lt_4 : (m : ℕ → ℕ) (at : ℕ) → read_le 4 m at < 2 ^ 32
unfolding read_le
read_le-lt_4 m at = omega arith

pub read_le-lt_8 : (m : ℕ → ℕ) (at : ℕ) → read_le 8 m at < 2 ^ 64
unfolding read_le
read_le-lt_8 m at = omega arith
