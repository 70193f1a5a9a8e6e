-- ===== src/Fs/Blocks/Fragments.antt =====
-- What the loop of `find_free_extents` of fs.cpp keeps, and that it ends.
use venom_os.Base.{
  ℕ, zero, suc, ◌+◌, ◌-◌, ◌≤◌, ◌<◌, ◌≡◌, ◌≢◌, true, false, ◌&&◌, ltb, Option, none, some, sym,
  subst, arith, Bool-cases, inl, inr, dec_lt,
}
use venom_os.Bitmap.{Bitmap, test_bit}
use venom_os.Fs.{Extent, total_data_blocks, data_start_lba, total_disk_sectors, max_extents}
use venom_os.Fs.Blocks.{count_run, Extents, add_extent, extents_from, no_extents}
use venom_os.Fs.Blocks.Search.{IsFreeRun}
use venom_os.Fs.Blocks.Total.{total_blocks, total_blocks-update}

-- `count_run` counts free blocks that lie in the region, at most the wanted ones.
record IsRun (m : Bitmap) (block wanted run : ℕ) : Type 0 where
  pub most : run ≤ wanted
  pub inside : 0 < run → block + run ≤ total_data_blocks
  pub free : (b : ℕ) → block ≤ b → b < block + run → test_bit m b ≡ false
  pub stops : (b : ℕ) → b ≡ block + run → run < wanted → b < total_data_blocks → test_bit m b ≡ true

count_run-IsRun : (wanted block : ℕ) (m : Bitmap) → IsRun m block wanted (count_run wanted block m)
unfolding count_run
count_run-IsRun zero block m = record {
  most = omega arith;
  inside = λ p. absurd (omega arith);
  free = λ b p q. absurd (omega arith);
  stops = λ b e p q. absurd (omega arith);
}
count_run-IsRun (suc wanted) block m =
    let r = count_run-IsRun wanted (block + 1) m in
    let l = r.most in
    let i = r.inside in
    record {
      most = ground arith;
      inside = λ p. ground arith;
      free = λ b p q. elim (dec_lt block b) [
        | yes lt ↦ r.free b (omega arith) (ground arith)
        | no ge ↦ let same : b ≡ block = omega arith in ground arith
      ];
      stops = λ b e p q. elim (Bool-cases (test_bit m block)) [
        | inl taken ↦ let same : b ≡ block = ground arith in rw same taken
        | inr goes ↦ r.stops b (ground arith) (ground arith) q
      ];
    }

-- An extent of free blocks of the data region.
pub record IsFreeExtent (m : Bitmap) (x : Extent) : Type 0 where
  pub above : data_start_lba ≤ x.start_lba
  pub inside : x.start_lba + x.block_count ≤ total_disk_sectors
  pub free :
      (b : ℕ)
      → x.start_lba ≤ data_start_lba + b
      → data_start_lba + b < x.start_lba + x.block_count
      → test_bit m b ≡ false

abbrev pub end_of : Extent → ℕ
end_of x = x.start_lba + x.block_count

-- The extent goes on to the end of the data region or to a block that is taken.
abbrev pub GoesOn : Bitmap → Extent → Type 0
GoesOn m x = (b : ℕ) → data_start_lba + b ≡ end_of x → b < total_data_blocks → test_bit m b ≡ true

-- The block lies in one of the extents.
abbrev pub IsCovered : ℕ → Extents → Type 0
IsCovered b xs =
    (k : ℕ) × (k < xs.count)
    × ((xs.extents k).start_lba ≤ data_start_lba + b)
    × (data_start_lba + b < end_of (xs.extents k))

-- Up to four extents of free blocks, each after the ones before it and all before the block at hand. They
-- have all free blocks before it, and each goes on as far as it can while more blocks are wanted.
pub record AreFragments (m : Bitmap) (block needed remaining : ℕ) (xs : Extents) : Type 0 where
  pub few : xs.count ≤ max_extents
  pub free : (k : ℕ) → k < xs.count → IsFreeExtent m (xs.extents k)
  pub before : (k : ℕ) → k < xs.count → end_of (xs.extents k) ≤ data_start_lba + block
  pub sorted : (j k : ℕ) → j < k → k < xs.count → end_of (xs.extents j) ≤ (xs.extents k).start_lba
  pub total : total_blocks xs.count xs.extents + remaining ≡ needed
  pub covered : (b : ℕ) → b < block → test_bit m b ≡ false → IsCovered b xs
  pub maximal : (k : ℕ) → k < xs.count → 0 < remaining → GoesOn m (xs.extents k)

pub AreFragments-none : (m : Bitmap) (needed : ℕ) → AreFragments m 0 needed needed no_extents
unfolding total_blocks
AreFragments-none m needed = record {
  few = omega arith;
  free = λ k p. absurd (omega arith);
  before = λ k p. absurd (omega arith);
  sorted = λ j k p q. absurd (omega arith);
  total = omega arith;
  covered = λ b p free. absurd (omega arith);
  maximal = λ k p q. absurd (omega arith);
}

AreFragments-skip :
    (m : Bitmap) (block needed remaining : ℕ) (xs : Extents)
    → test_bit m block ≡ true
    → AreFragments m block needed remaining xs
    → AreFragments m (block + 1) needed remaining xs
AreFragments-skip m block needed remaining xs taken a = record {
  few = a.few;
  free = a.free;
  before = λ k p. let h = a.before k p in omega arith;
  sorted = a.sorted;
  total = a.total;
  covered = λ b p free. elim (dec_lt b block) [
    | yes lt ↦ a.covered b lt free
    | no ge ↦ let same : b ≡ block = omega arith in absurd (ground arith)
  ];
  maximal = a.maximal;
}

IsRun-IsFreeExtent :
    (m : Bitmap) (block wanted run : ℕ)
    → block < total_data_blocks
    → IsRun m block wanted run
    → IsFreeExtent m (record { start_lba = data_start_lba + block; block_count = run })
IsRun-IsFreeExtent m block wanted run lt r = record {
  above = omega arith;
  inside = let h = r.inside in ground arith;
  free = λ b p q. r.free b (omega arith) (omega arith);
}

pub IsFreeExtent-run :
    (m : Bitmap) (start needed : ℕ)
    → IsFreeRun m start needed
    → IsFreeExtent m (record { start_lba = data_start_lba + start; block_count = needed })
IsFreeExtent-run m start needed r = record {
  above = omega arith;
  inside = let h = r.inside in omega arith;
  free = λ b p q. r.free b (omega arith) (omega arith);
}

AreFragments-add :
    (m : Bitmap) (block needed remaining run : ℕ) (xs : Extents)
    → block < total_data_blocks
    → xs.count < max_extents
    → IsRun m block remaining run
    → AreFragments m block needed remaining xs
    → AreFragments m (block + run) needed (remaining - run) (add_extent block run xs)
unfolding total_blocks
AreFragments-add m block needed remaining run xs lt few r a = record {
  few = omega arith;
  free = λ k p. elim (dec_lt k xs.count) [
    | yes old ↦ let h = a.free k old in subst (IsFreeExtent m) (ground arith) h
    | no new ↦
        let h = IsRun-IsFreeExtent m block remaining run lt r in
        subst (IsFreeExtent m) (ground arith) h
  ];
  before = λ k p. elim (dec_lt k xs.count) [
    | yes old ↦ let h = a.before k old in ground arith
    | no new ↦ ground arith
  ];
  sorted = λ j k p q. elim (dec_lt k xs.count) [
    | yes old ↦ let h = a.sorted j k p old in ground arith
    | no new ↦ let h = a.before j (omega arith) in ground arith
  ];
  total =
      let h = a.total in
      let most = r.most in
      let same =
        total_blocks-update xs.count xs.count xs.extents
          (record { start_lba = data_start_lba + block; block_count = run }) (omega arith) in
      ground arith;
  covered = λ b p free. elim (dec_lt b block) [
    | yes lt ↦
        let (k, old, from, to) = a.covered b lt free in (k, omega arith, ground arith, ground arith)
    | no ge ↦ (xs.count, omega arith, ground arith, ground arith)
  ];
  maximal = λ k p more. elim (dec_lt k xs.count) [
    | yes old ↦ let h = a.maximal k old (omega arith) in subst (GoesOn m) (ground arith) h
    | no new ↦
        let h : GoesOn m (record { start_lba = data_start_lba + block; block_count = run }) =
          λ b e q. r.stops b (omega arith) (omega arith) q in
        subst (GoesOn m) (ground arith) h
  ];
}

extents_from-stop :
    (fuel block remaining : ℕ) (xs : Extents) (m : Bitmap)
    → (ltb block total_data_blocks && (ltb 0 remaining && ltb xs.count max_extents)) ≡ false
    → extents_from (suc fuel) block remaining xs m ≡ some (remaining, xs)
unfolding extents_from
extents_from-stop fuel block remaining xs m h = ground arith

extents_from-used :
    (fuel block remaining : ℕ) (xs : Extents) (m : Bitmap)
    → (ltb block total_data_blocks && (ltb 0 remaining && ltb xs.count max_extents)) ≡ true
    → test_bit m block ≡ true
    → extents_from (suc fuel) block remaining xs m ≡ extents_from fuel (block + 1) remaining xs m
unfolding extents_from
extents_from-used fuel block remaining xs m h used = ground arith

extents_from-run :
    (fuel block remaining : ℕ) (xs : Extents) (m : Bitmap)
    → (ltb block total_data_blocks && (ltb 0 remaining && ltb xs.count max_extents)) ≡ true
    → test_bit m block ≡ false
    → (let run = count_run remaining block m in
        extents_from (suc fuel) block remaining xs m
        ≡ extents_from fuel (block + run) (remaining - run) (add_extent block run xs) m)
unfolding extents_from
extents_from-run fuel block remaining xs m h free = ground arith

count_run-positive :
    (wanted block : ℕ) (m : Bitmap)
    → 0 < wanted
    → block < total_data_blocks
    → test_bit m block ≡ false
    → 0 < count_run wanted block m
unfolding count_run
count_run-positive zero block m pos lt free = absurd (omega arith)
count_run-positive (suc wanted) block m pos lt free = ground arith

-- What the loop returns: it has stopped for one of the reasons that it tests.
abbrev pub Outcome : Bitmap → ℕ → Option (ℕ × Extents) → Type 0
Outcome m needed o =
    (block : ℕ) × (remaining : ℕ) × (xs : Extents) × (o ≡ some (remaining, xs))
    × AreFragments m block needed remaining xs
    × ((ltb block total_data_blocks && (ltb 0 remaining && ltb xs.count max_extents)) ≡ false)

pub extents_from-Outcome :
    (fuel block needed remaining : ℕ) (xs : Extents) (m : Bitmap)
    → total_data_blocks < fuel + block
    → block ≤ total_data_blocks
    → AreFragments m block needed remaining xs
    → Outcome m needed (extents_from fuel block remaining xs m)
extents_from-Outcome zero block needed remaining xs m enough le a = absurd (omega arith)
extents_from-Outcome (suc fuel) block needed remaining xs m enough le a =
    elim (Bool-cases
      (ltb block total_data_blocks && (ltb 0 remaining && ltb xs.count max_extents))) [
        | inr stop ↦
            (block, remaining, xs, extents_from-stop fuel block remaining xs m stop, a, stop)
        | inl on ↦ elim (Bool-cases (test_bit m block)) [
          | inl used ↦
              subst (Outcome m needed) (sym (extents_from-used fuel block remaining xs m on used)) (
                extents_from-Outcome fuel (block + 1) needed remaining xs m (omega arith)
                  (ground arith) (AreFragments-skip m block needed remaining xs used a))
          | inr free ↦
              let run = count_run remaining block m in
              let r = count_run-IsRun remaining block m in
              let some_run : 0 < run =
                count_run-positive remaining block m (ground arith) (ground arith) free in
              let inside = r.inside some_run in
              subst (Outcome m needed) (sym (extents_from-run fuel block remaining xs m on free)) (
                extents_from-Outcome fuel (block + run) needed (remaining - run)
                  (add_extent block run xs) m (omega arith) (omega arith)
                  (AreFragments-add m block needed remaining run xs (ground arith) (ground arith) r
                    a))
        ]
      ]

-- The fuel of `find_free_extents` is enough: its loop over the blocks always ends.
pub extents_from-ends :
    (needed : ℕ) (m : Bitmap) → extents_from (suc total_data_blocks) 0 needed no_extents m ≢ none
extents_from-ends needed m e =
    let (block, remaining, xs, same, a, stop) =
      extents_from-Outcome (suc total_data_blocks) 0 needed needed no_extents m (omega arith)
        (omega arith) (AreFragments-none m needed) in
    cc
