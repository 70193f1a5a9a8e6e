-- ===== src/Bitmap/Laws.antt =====
-- What setting and clearing a bit does to every bit of the map.
use venom_os.Base.{
  ℕ, ◌-◌, ◌/◌, ◌%◌, ◌^◌, ◌<◌, ◌≡◌, refl, arith, ◌==◌, if◌then◌else◌, true, false, ==_iff, all_below,
  all_below_sound,
}
use venom_os.Base.Bits.{bit, bit-or, bit-and, bit-pow_self, bit-pow_ne, bit-lt}
use venom_os.Bitmap.{Bitmap, test_bit, set_bit, clear_bit}

-- The complement of one bit of a byte has that bit clear and the seven others set.
mask_table :
    all_below 8 (λ j. all_below 8 (λ k. bit (255 - 2 ^ j) k == (if j == k then 0 else 1))) ≡ true
unfolding all_below
mask_table = refl

bit-mask : (j k : ℕ) → j < 8 → k < 8 → bit (255 - 2 ^ j) k ≡ (if j == k then 0 else 1)
bit-mask j k hj hk = (==_iff _ _).0 (all_below_sound 8 _ k (all_below_sound 8 _ j mask_table hj) hk)

-- Setting a bit sets that bit and no other.
pub test_bit-set_bit :
    (m : Bitmap) (i j : ℕ) → test_bit (set_bit m i) j ≡ (if i == j then true else test_bit m j)
unfolding test_bit set_bit
test_bit-set_bit m i j = ground (
  arith,
  bit-or (m (j / 8)) (2 ^ (i % 8)) (j % 8),
  bit-pow_self (i % 8),
  bit-pow_ne (i % 8) (j % 8),
  bit-lt (m (j / 8)) (j % 8),
)

-- Clearing a bit clears that bit and no other.
pub test_bit-clear_bit :
    (m : Bitmap) (i j : ℕ) → test_bit (clear_bit m i) j ≡ (if i == j then false else test_bit m j)
unfolding test_bit clear_bit
test_bit-clear_bit m i j = ground (
  arith,
  bit-and (m (j / 8)) (255 - 2 ^ (i % 8)) (j % 8),
  bit-mask (i % 8) (j % 8),
  bit-lt (m (j / 8)) (j % 8),
)
