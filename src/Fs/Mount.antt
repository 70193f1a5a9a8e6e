-- ===== src/Fs/Mount.antt =====
-- The bitmap that `init` rebuilds from the file table, and the state that `format` leaves.
use venom_os.Base.{
  ℕ, zero, suc, ◌+◌, ◌≤◌, ◌<◌, ◌≡◌, if◌then◌else◌, true, false, refl, sym, ◌∙◌, ap, arith,
  ℕ_discrete, Bool-cases, inl, inr,
}
use venom_os.Bitmap.{Bitmap, test_bit}
use venom_os.Bitmap.Count.{test_bit-all_free}
use venom_os.Fs.{
  Fs, FileEntry, max_files, is_used, set_extents, rebuild_from, rebuild_bitmap_from_file_table,
}
use venom_os.Fs.Owners.{test_bit-set_extents, covers}
use venom_os.Fs.Consistent.{owns, HasExtents, IsConsistent}

-- A bit after the loop: it was set before, or one of the files has the block.
record Rebuilt (left i : ℕ) (t : ℕ → FileEntry) (m m' : Bitmap) (b : ℕ) : Type 0 where
  pub kept : test_bit m b ≡ true → test_bit m' b ≡ true
  pub marked : (k : ℕ) → i ≤ k → k < i + left → owns (t k) b ≡ true → test_bit m' b ≡ true
  pub owned :
      test_bit m' b ≡ true
      → test_bit m b ≡ false
      → (k : ℕ) × (i ≤ k) × (k < i + left) × (owns (t k) b ≡ true)

-- One file.
abbrev add_file : FileEntry → Bitmap → Bitmap
add_file f m = if is_used f then set_extents f.extent_count 0 f.extents m else m

test_bit-add_file :
    (f : FileEntry) (m : Bitmap) (b : ℕ)
    → (is_used f ≡ true → HasExtents f)
    → test_bit (add_file f m) b ≡ (if owns f b then true else test_bit m b)
unfolding owns
test_bit-add_file f m b has = elim (Bool-cases (is_used f)) [
  | inl used ↦
      let h = (has used).in_data in
      let e = test_bit-set_extents f.extent_count 0 f.extents m b h in
      ap (λ x. test_bit (if x then set_extents f.extent_count 0 f.extents m else m) b) used
      ∙ e
      ∙ ap
          (λ x.
            if (if x then covers f.extent_count 0 f.extents b else false)
            then true
            else test_bit m b)
          (sym used)
  | inr free ↦
      ap (λ x. test_bit (if x then set_extents f.extent_count 0 f.extents m else m) b) free
      ∙ ap
          (λ x.
            if (if x then covers f.extent_count 0 f.extents b else false)
            then true
            else test_bit m b)
          (sym free)
]

rebuild_from-Rebuilt :
    (left i : ℕ) (t : ℕ → FileEntry) (m : Bitmap) (b : ℕ)
    → ((k : ℕ) → i ≤ k → k < i + left → is_used (t k) ≡ true → HasExtents (t k))
    → Rebuilt left i t m (rebuild_from left i t m) b
unfolding rebuild_from
rebuild_from-Rebuilt zero i t m b has = record {
  kept = λ h. h;
  marked = λ k p q o. absurd (omega arith);
  owned = λ h h'. ground arith;
}
rebuild_from-Rebuilt (suc left) i t m b has =
    let here = test_bit-add_file (t i) m b (has i (omega arith) (omega arith)) in
    let r =
      rebuild_from-Rebuilt left (i + 1) t (add_file (t i) m) b
        (λ k p q. has k (omega arith) (omega arith)) in
    record {
      kept = λ h. r.kept (ground arith);
      marked = λ k p q o. elim (ℕ_discrete k i) [
        | yes same ↦ r.kept (here ∙ (rw (ap (λ n. owns (t n) b) (sym same) ∙ o) refl))
        | no later ↦ r.marked k (omega arith) (omega arith) o
      ];
      owned = λ h free. elim (Bool-cases (owns (t i) b)) [
        | inl mine ↦ (i, omega arith, omega arith, mine)
        | inr not_mine ↦
            let (k, p, q, o) = r.owned h (here ∙ (rw (not_mine, free) refl)) in
            (k, omega arith, omega arith, o)
      ];
    }

-- The bitmap that is rebuilt from a file table agrees with it, when the extents of its files lie in the
-- data region and no two files share a block.
pub rebuild_bitmap_from_file_table-IsConsistent :
    (s : Fs)
    → ((i : ℕ) → i < max_files → is_used (s.file_table i) ≡ true → HasExtents (s.file_table i))
    → ((i j b : ℕ)
        → i < max_files
        → j < max_files
        → owns (s.file_table i) b ≡ true
        → owns (s.file_table j) b ≡ true
        → i ≡ j)
    → IsConsistent
        (rebuild_bitmap_from_file_table s).file_table
        (rebuild_bitmap_from_file_table s).bitmap
unfolding rebuild_bitmap_from_file_table
rebuild_bitmap_from_file_table-IsConsistent s has unique =
    let rebuilt = λ (b : ℕ).
      rebuild_from-Rebuilt max_files 0 s.file_table (λ i. 0) b (λ k p q. has k (omega arith)) in
    record {
      extents = has;
      marked = λ i b p o. (rebuilt b).marked i (omega arith) (omega arith) o;
      owned = λ b taken.
          let (k, p, q, o) = (rebuilt b).owned taken (test_bit-all_free b) in (k, omega arith, o);
      unique = unique;
    }
