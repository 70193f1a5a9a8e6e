-- ===== src/Fs/Blocks/Choice.antt =====
-- The blocks that `write` of fs.cpp chooses for a file.
use venom_os.Base.{
  ℕ, zero, suc, ◌+◌, ◌≤◌, ◌<◌, ◌≡◌, false, ◌&&◌, ltb, Option, none, some, refl, sym, ◌∙◌, ap, subst,
  arith, Bool-cases, inl, inr, dec_lt, ◌⊎◌, ◌==◌,
}
use venom_os.Bitmap.{Bitmap, test_bit}
use venom_os.Fs.{total_data_blocks, data_start_lba, max_extents}
use venom_os.Fs.Blocks.{
  find_free_run, Extents, no_extents, find_free_extents, if_enough, choose_extents, one_extent,
  or_extents,
}
use venom_os.Fs.Blocks.Search.{IsFreeRun, find_free_run_lem}
use venom_os.Fs.Blocks.Total.{total_blocks}
use venom_os.Fs.Blocks.Fragments.{
  AreFragments, AreFragments-none, extents_from-Outcome, end_of, GoesOn, IsCovered, IsFreeExtent,
  IsFreeExtent-run,
}

-- A choice of blocks for a file: up to four extents in the data region, free, in the order of the disk
-- and apart from each other, with exactly the blocks that are wanted.
pub record IsChoice (m : Bitmap) (needed : ℕ) (xs : Extents) : Type 0 where
  pub few : xs.count ≤ max_extents
  pub free : (k : ℕ) → k < xs.count → IsFreeExtent m (xs.extents k)
  pub sorted : (j k : ℕ) → j < k → k < xs.count → end_of (xs.extents j) ≤ (xs.extents k).start_lba
  pub total : total_blocks xs.count xs.extents ≡ needed

AreFragments-IsChoice :
    (m : Bitmap) (block needed : ℕ) (xs : Extents)
    → AreFragments m block needed 0 xs
    → IsChoice m needed xs
AreFragments-IsChoice m block needed xs a = record {
  few = a.few;
  free = a.free;
  sorted = a.sorted;
  total = let h = a.total in omega arith;
}

-- Four extents, or fewer when no others are free, from the start of the data region on, each as long as
-- can be, and together not enough.
pub record AreTooShort (m : Bitmap) (needed : ℕ) (xs : Extents) : Type 0 where
  pub few : xs.count ≤ max_extents
  pub free : (k : ℕ) → k < xs.count → IsFreeExtent m (xs.extents k)
  pub sorted : (j k : ℕ) → j < k → k < xs.count → end_of (xs.extents j) ≤ (xs.extents k).start_lba
  pub maximal : (k : ℕ) → k < xs.count → GoesOn m (xs.extents k)
  pub first :
      (b : ℕ)
      → b < total_data_blocks
      → test_bit m b ≡ false
      → IsCovered b xs
        ⊎ ((xs.count ≡ max_extents)
            × ((k : ℕ) → k < xs.count → end_of (xs.extents k) ≤ data_start_lba + b))
  pub short : total_blocks xs.count xs.extents < needed

AreFragments-AreTooShort :
    (m : Bitmap) (block needed remaining : ℕ) (xs : Extents)
    → AreFragments m block needed remaining xs
    → 0 < remaining
    → (ltb block total_data_blocks && (ltb 0 remaining && ltb xs.count max_extents)) ≡ false
    → AreTooShort m needed xs
AreFragments-AreTooShort m block needed remaining xs a more stop = record {
  few = a.few;
  free = a.free;
  sorted = a.sorted;
  maximal = λ k p. a.maximal k p more;
  first = λ b inside free. elim (dec_lt b block) [
    | yes lt ↦ inl (a.covered b lt free)
    | no ge ↦ let few = a.few in inr (ground arith, λ k p. let h = a.before k p in omega arith)
  ];
  short = let h = a.total in omega arith;
}

-- The choice that a search has made, or why it has made none.
abbrev IsAnswer : Bitmap → ℕ → Option Extents → Type 0
IsAnswer m needed o =
    ((xs : Extents) × (o ≡ some xs) × IsChoice m needed xs)
    ⊎ ((o ≡ none) × ((xs : Extents) × AreTooShort m needed xs))

find_free_extents-IsAnswer :
    (needed : ℕ) (m : Bitmap) → IsAnswer m needed (find_free_extents needed m)
unfolding find_free_extents
find_free_extents-IsAnswer needed m =
    let (block, remaining, ys, same, a, stop) =
      extents_from-Outcome (suc total_data_blocks) 0 needed needed no_extents m (omega arith)
        (omega arith) (AreFragments-none m needed) in
    elim (Bool-cases (remaining == 0)) [
      | inl enough ↦
          let none_left : remaining ≡ 0 = ground arith in
          inl (
            ys,
            ap if_enough same ∙ (rw enough refl),
            AreFragments-IsChoice m block needed ys
                (subst (λ r. AreFragments m block needed r ys) none_left a),
          )
      | inr lacking ↦ inr (
        ap if_enough same ∙ (rw lacking refl),
        (ys, AreFragments-AreTooShort m block needed remaining ys a (ground arith) stop),
      )
    ]

IsFreeRun-IsChoice :
    (m : Bitmap) (start needed : ℕ)
    → IsFreeRun m start needed
    → IsChoice m needed (one_extent start needed)
unfolding total_blocks
IsFreeRun-IsChoice m start needed r = record {
  few = omega arith;
  free = λ k p. subst (IsFreeExtent m) (ground arith) (IsFreeExtent-run m start needed r);
  sorted = λ j k p q. absurd (omega arith);
  total = ground arith;
}

IsChoice-none : (m : Bitmap) → IsChoice m 0 no_extents
unfolding total_blocks
IsChoice-none m = record {
  few = omega arith;
  free = λ k p. absurd (omega arith);
  sorted = λ j k p q. absurd (omega arith);
  total = refl;
}

choose_extents-positive :
    (n : ℕ) (m : Bitmap) → choose_extents (suc n) m ≡ or_extents (find_free_run (suc n) m) (suc n) m
unfolding choose_extents
choose_extents-positive n m = ground arith

pub choose_extents_lem :
    (needed : ℕ) (m : Bitmap)
    → ((xs : Extents) × (choose_extents needed m ≡ some xs) × IsChoice m needed xs)
      ⊎ ((choose_extents needed m ≡ none)
          × ((s : ℕ) → ¬ IsFreeRun m s needed)
          × ((xs : Extents) × AreTooShort m needed xs))
unfolding choose_extents
choose_extents_lem zero m = inl (no_extents, refl, IsChoice-none m)
choose_extents_lem (suc n) m = elim (find_free_run_lem (suc n) m (omega arith)) [
  | inl (found, e, r) ↦ inl (
    one_extent found (suc n),
    choose_extents-positive n m ∙ ap (λ o. or_extents o (suc n) m) e,
    IsFreeRun-IsChoice m found (suc n) r,
  )
  | inr (e, lacks) ↦
      let chosen : choose_extents (suc n) m ≡ find_free_extents (suc n) m =
        choose_extents-positive n m ∙ ap (λ o. or_extents o (suc n) m) e in
      elim (find_free_extents-IsAnswer (suc n) m) [
        | inl (xs, some_of, c) ↦ inl (xs, chosen ∙ some_of, c)
        | inr (none_of, short) ↦ inr (chosen ∙ none_of, lacks, short)
      ]
]

pub choose_extents-IsChoice :
    (needed : ℕ) (m : Bitmap) (xs : Extents)
    → choose_extents needed m ≡ some xs
    → IsChoice m needed xs
choose_extents-IsChoice needed m xs e = elim (choose_extents_lem needed m) [
  | inl (ys, chosen, c) ↦
      let same : some ys ≡ some xs = sym chosen ∙ e in
      subst (IsChoice m needed) (ap (λ o. elim o [ none ↦ xs | some zs ↦ zs ]) same) c
  | inr (nothing, lacks, short) ↦
      let never : none ≡ some xs = sym nothing ∙ e in absurd (ground arith)
]
