-- ===== src/Bitmap/Count.antt =====
-- How setting and clearing a bit changes the number of free blocks.
use venom_os.Base.{
  all_below, all_below_sound, ◌%◌, ℕ, zero, suc, ◌+◌, ◌≤◌, ◌<◌, ◌≡◌, refl, arith, ◌==◌, true, false,
}
use venom_os.Bitmap.{Bitmap, test_bit, set_bit, clear_bit, count_free}
use venom_os.Base.Bits.{bit}
use venom_os.Bitmap.Laws.{test_bit-set_bit, test_bit-clear_bit}

pub count_free-le : (m : Bitmap) (n : ℕ) → count_free m n ≤ n
unfolding count_free
count_free-le m zero = omega arith
count_free-le m (suc n) = ground (arith, count_free-le m n)

-- A bit outside the counted range does not matter, one inside is worth one block.
pub count_free-set_bit_past :
    (m : Bitmap) (i n : ℕ) → n ≤ i → count_free (set_bit m i) n ≡ count_free m n
unfolding count_free
count_free-set_bit_past m i zero h = refl
count_free-set_bit_past m i (suc n) h =
    ground (arith, test_bit-set_bit m i n, count_free-set_bit_past m i n)

pub count_free-set_bit :
    (m : Bitmap) (i n : ℕ)
    → i < n
    → test_bit m i ≡ false
    → count_free (set_bit m i) n + 1 ≡ count_free m n
unfolding count_free
count_free-set_bit m i zero h free = absurd (omega arith)
count_free-set_bit m i (suc n) h free =
    ground (arith, test_bit-set_bit m i n, count_free-set_bit m i n, count_free-set_bit_past m i n)

count_free-clear_bit_past :
    (m : Bitmap) (i n : ℕ) → n ≤ i → count_free (clear_bit m i) n ≡ count_free m n
unfolding count_free
count_free-clear_bit_past m i zero h = refl
count_free-clear_bit_past m i (suc n) h =
    ground (arith, test_bit-clear_bit m i n, count_free-clear_bit_past m i n)

pub count_free-clear_bit :
    (m : Bitmap) (i n : ℕ)
    → i < n
    → test_bit m i ≡ true
    → count_free (clear_bit m i) n ≡ count_free m n + 1
unfolding count_free
count_free-clear_bit m i zero h used = absurd (omega arith)
count_free-clear_bit m i (suc n) h used =
    ground
      (arith, test_bit-clear_bit m i n, count_free-clear_bit m i n, count_free-clear_bit_past m i n)

-- Free blocks below a bound exist exactly when the count is not zero.
pub count_free_pos : (m : Bitmap) (i n : ℕ) → i < n → test_bit m i ≡ false → 0 < count_free m n
count_free_pos m i n h free = omega (arith, count_free-set_bit m i n h free)

ones_table : all_below 8 (λ k. bit 0xff k == 1) ≡ true
unfolding all_below
ones_table = refl

pub test_bit-all_used : (i : ℕ) → test_bit (λ j. 0xff) i ≡ true
unfolding test_bit
test_bit-all_used i = all_below_sound 8 _ (i % 8) ones_table (omega arith)

-- A map of 0xff bytes has no free block.
pub count_free-all_used : (n : ℕ) → count_free (λ i. 0xff) n ≡ 0
unfolding count_free
count_free-all_used zero = refl
count_free-all_used (suc n) = rw (test_bit-all_used n) (count_free-all_used n)

zeros_table : all_below 8 (λ k. bit 0 k == 0) ≡ true
unfolding all_below
zeros_table = refl

pub test_bit-all_free : (i : ℕ) → test_bit (λ j. 0) i ≡ false
unfolding test_bit
test_bit-all_free i =
    let zero_bit = all_below_sound 8 _ (i % 8) zeros_table (omega arith) in ground arith
