-- ===== src/Base/Copy.antt =====
-- The byte loops that copy one array into another.
use venom_os.Base.Core.{ℕ, zero, suc, ◌+◌, ◌-◌, ◌≡◌, if◌then◌else◌, ltb, leb, ◌&&◌, arith}
use venom_os.Base.Memory.{update}

-- `for (; left != 0; ++i) dst[to + i] = src[from + i];`
unfoldable pub copy_bytes : ℕ → ℕ → ℕ → (ℕ → ℕ) → (ℕ → ℕ) → ℕ → ℕ
copy_bytes zero to from src dst = dst
copy_bytes (suc left) to from src dst =
    copy_bytes left (to + 1) (from + 1) src (update dst to (src from))

-- The bytes of the range are the source's, the others are as they were.
pub copy_bytes_lem :
    (n to from : ℕ) (src dst : ℕ → ℕ) (j : ℕ)
    → copy_bytes n to from src dst j
      ≡ (if leb to j && ltb j (to + n) then src (from + (j - to)) else dst j)
unfolding copy_bytes
copy_bytes_lem zero to from src dst j = ground arith
copy_bytes_lem (suc n) to from src dst j =
    ground (arith, copy_bytes_lem n (to + 1) (from + 1) src (update dst to (src from)) j)
