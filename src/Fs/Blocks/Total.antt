-- ===== src/Fs/Blocks/Total.antt =====
-- The number of blocks of a file.
use venom_os.Base.{ℕ, zero, suc, ◌+◌, ◌≤◌, ◌<◌, ◌≡◌, refl, ◌∙◌, ap, arith}
use venom_os.Base.Memory.{update}
use venom_os.Fs.{Extent}

-- The number of blocks of the first `n` extents.
unfoldable pub total_blocks : ℕ → (ℕ → Extent) → ℕ
total_blocks zero xs = 0
total_blocks (suc n) xs = total_blocks n xs + (xs n).block_count

pub add_suc : (e k : ℕ) → e + suc k ≡ suc (e + k)
add_suc e k = omega arith

pub total_blocks-cong :
    (n : ℕ) (xs ys : ℕ → Extent)
    → ((k : ℕ) → k < n → xs k ≡ ys k)
    → total_blocks n xs ≡ total_blocks n ys
unfolding total_blocks
total_blocks-cong zero xs ys same = refl
total_blocks-cong (suc n) xs ys same =
    let rest = total_blocks-cong n xs ys (λ k p. same k (omega arith)) in
    let here = ap (λ (x : Extent). x.block_count) (same n (omega arith)) in omega arith

pub total_blocks-next :
    (e : ℕ) (xs : ℕ → Extent) → total_blocks (e + 1) xs ≡ total_blocks e xs + (xs e).block_count
unfolding total_blocks
total_blocks-next e xs = ap (λ n. total_blocks n xs) (add_suc e 0 ∙ ap suc (omega arith))

pub total_blocks-grow : (k e : ℕ) (xs : ℕ → Extent) → total_blocks e xs ≤ total_blocks (e + k) xs
unfolding total_blocks
total_blocks-grow zero e xs =
    let same : total_blocks (e + 0) xs ≡ total_blocks e xs =
      ap (λ n. total_blocks n xs) (omega arith) in
    omega arith
total_blocks-grow (suc k) e xs =
    let rest = total_blocks-grow k e xs in
    let same : total_blocks (e + suc k) xs ≡ total_blocks (e + k) xs + (xs (e + k)).block_count =
      ap (λ n. total_blocks n xs) (add_suc e k) in
    omega arith

pub total_blocks-update :
    (n k : ℕ) (xs : ℕ → Extent) (x : Extent)
    → n ≤ k
    → total_blocks n (update xs k x) ≡ total_blocks n xs
unfolding total_blocks
total_blocks-update zero k xs x le = refl
total_blocks-update (suc n) k xs x le =
    let rest = total_blocks-update n k xs x (omega arith) in ground arith
