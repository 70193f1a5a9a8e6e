-- ===== src/Fs/Owners.antt =====
-- Which blocks the extents of an entry are, and what `bit_set` and `bit_clear` over them leave.
use venom_os.Base.{
  ℕ, zero, suc, ◌+◌, ◌≤◌, ◌<◌, ◌^◌, ◌≡◌, if◌then◌else◌, Bool, true, false, ◌&&◌, ltb, leb, refl,
  arith,
}
use venom_os.Base.Memory.{u32}
use venom_os.Bitmap.{Bitmap, test_bit, set_bit, clear_bit}
use venom_os.Bitmap.Laws.{test_bit-set_bit, test_bit-clear_bit}
use venom_os.Fs.{
  Extent, data_start_lba, total_disk_sectors, set_run, clear_run, start_block, set_extents,
  clear_extents,
}

-- The extent lies in the data region of the disk.
pub record IsInData (x : Extent) : Type 0 where
  pub above : data_start_lba ≤ x.start_lba
  pub inside : x.start_lba + x.block_count ≤ total_disk_sectors

abbrev pub in_run : ℕ → ℕ → ℕ → Bool
in_run start count b = leb start b && ltb b (start + count)

-- One of `left` extents from the `e`-th on has the block.
unfoldable pub covers : ℕ → ℕ → (ℕ → Extent) → ℕ → Bool
covers zero e xs b = false
covers (suc left) e xs b =
    let rest = covers left (e + 1) xs b in
    if in_run (start_block (xs e)) (xs e).block_count b then true else rest

pub covers-cong :
    (left e : ℕ) (xs ys : ℕ → Extent) (b : ℕ)
    → ((k : ℕ) → e ≤ k → k < e + left → xs k ≡ ys k)
    → covers left e xs b ≡ covers left e ys b
unfolding covers
covers-cong zero e xs ys b same = refl
covers-cong (suc left) e xs ys b same =
    let rest = covers-cong left (e + 1) xs ys b (λ k p q. same k (omega arith) (omega arith)) in
    let here = same e (omega arith) (omega arith) in rw (here, rest) refl

test_bit-set_run :
    (left block : ℕ) (m : Bitmap) (b : ℕ)
    → block + left ≤ 2 ^ 32
    → test_bit (set_run left block m) b ≡ (if in_run block left b then true else test_bit m b)
unfolding set_run
test_bit-set_run zero block m b fits = ground arith
test_bit-set_run (suc left) block m b fits =
    let small : u32 block ≡ block = omega arith in
    ground (
      arith,
      test_bit-set_run left (block + 1) (set_bit m (u32 block)) b (omega arith),
      test_bit-set_bit m (u32 block) b,
    )

test_bit-clear_run :
    (left block : ℕ) (m : Bitmap) (b : ℕ)
    → block + left ≤ 2 ^ 32
    → test_bit (clear_run left block m) b ≡ (if in_run block left b then false else test_bit m b)
unfolding clear_run
test_bit-clear_run zero block m b fits = ground arith
test_bit-clear_run (suc left) block m b fits =
    let small : u32 block ≡ block = omega arith in
    ground (
      arith,
      test_bit-clear_run left (block + 1) (clear_bit m (u32 block)) b (omega arith),
      test_bit-clear_bit m (u32 block) b,
    )

start_block-fits : (x : Extent) → IsInData x → start_block x + x.block_count ≤ 2 ^ 32
start_block-fits x d = let p = d.above in let q = d.inside in omega arith

-- All of the extents lie in the data region.
abbrev pub AreInData : ℕ → ℕ → (ℕ → Extent) → Type 0
AreInData left e xs = (k : ℕ) → e ≤ k → k < e + left → IsInData (xs k)

pub test_bit-set_extents :
    (left e : ℕ) (xs : ℕ → Extent) (m : Bitmap) (b : ℕ)
    → AreInData left e xs
    → test_bit (set_extents left e xs m) b ≡ (if covers left e xs b then true else test_bit m b)
unfolding set_extents covers
test_bit-set_extents zero e xs m b d = refl
test_bit-set_extents (suc left) e xs m b d =
    let x = xs e in
    let here = start_block-fits x (d e (omega arith) (omega arith)) in
    ground (
      arith,
      test_bit-set_extents left (e + 1) xs (set_run x.block_count (start_block x) m) b
          (λ k p q. d k (omega arith) (omega arith)),
      test_bit-set_run x.block_count (start_block x) m b here,
    )

pub test_bit-clear_extents :
    (left e : ℕ) (xs : ℕ → Extent) (m : Bitmap) (b : ℕ)
    → AreInData left e xs
    → test_bit (clear_extents left e xs m) b ≡ (if covers left e xs b then false else test_bit m b)
unfolding clear_extents covers
test_bit-clear_extents zero e xs m b d = refl
test_bit-clear_extents (suc left) e xs m b d =
    let x = xs e in
    let here = start_block-fits x (d e (omega arith) (omega arith)) in
    ground (
      arith,
      test_bit-clear_extents left (e + 1) xs (clear_run x.block_count (start_block x) m) b
          (λ k p q. d k (omega arith) (omega arith)),
      test_bit-clear_run x.block_count (start_block x) m b here,
    )
