-- ===== src/Fs/Blocks/Search.antt =====
-- What the searches for free blocks of fs.cpp find.
use venom_os.Base.{
  ℕ, zero, suc, ◌+◌, ◌≤◌, ◌<◌, ◌≡◌, ◌≢◌, ◌==◌, if◌then◌else◌, true, false, none, some, refl, sym,
  ◌∙◌, subst, arith, Bool-cases, Option-cases, inl, inr, ◌⊎◌, dec_lt,
}
use venom_os.Bitmap.{Bitmap, test_bit}
use venom_os.Fs.{total_data_blocks}
use venom_os.Fs.Blocks.{run_from, find_free_run}

-- The blocks of the run lie in the data region and are free.
pub record IsFreeRun (m : Bitmap) (start count : ℕ) : Type 0 where
  pub inside : start + count ≤ total_data_blocks
  pub free : (b : ℕ) → start ≤ b → b < start + count → test_bit m b ≡ false

-- What the loop knows of the blocks that it has counted before the one at hand.
record Counted (m : Bitmap) (block start length : ℕ) : Type 0 where
  pub starts : 0 < length → start + length ≡ block
  pub free : (b : ℕ) → block ≤ b + length → b < block → test_bit m b ≡ false

Counted-none : (m : Bitmap) (block start : ℕ) → Counted m block start 0
Counted-none m block start = record {
  starts = λ p. absurd (omega arith);
  free = λ b p q. absurd (omega arith);
}

abbrev start_of : ℕ → ℕ → ℕ → ℕ
start_of length block start = if length == 0 then block else start

Counted-grow :
    (m : Bitmap) (block start length : ℕ)
    → test_bit m block ≡ false
    → Counted m block start length
    → Counted m (block + 1) (start_of length block start) (length + 1)
Counted-grow m block start length free c = record {
  starts = λ p. let h = c.starts in ground arith;
  free = λ b p q. elim (dec_lt b block) [
    | yes lt ↦ c.free b (omega arith) lt
    | no ge ↦ let same : block ≡ b = omega arith in subst (λ x. test_bit m x ≡ false) same free
  ];
}

Counted-IsFreeRun :
    (m : Bitmap) (block start length : ℕ)
    → 0 < length
    → block ≤ total_data_blocks
    → Counted m block start length
    → IsFreeRun m start length
Counted-IsFreeRun m block start length pos fits c =
    let s = c.starts pos in
    record { inside = omega arith; free = λ b p q. c.free b (omega arith) (omega arith) }

run_from-taken :
    (left block start length needed : ℕ) (m : Bitmap)
    → test_bit m block ≡ true
    → run_from (suc left) block start length needed m ≡ run_from left (block + 1) start 0 needed m
unfolding run_from
run_from-taken left block start length needed m h = ground arith

run_from-free :
    (left block start length needed : ℕ) (m : Bitmap)
    → test_bit m block ≡ false
    → run_from (suc left) block start length needed m ≡ (
        if length + 1 == needed
        then some (start_of length block start)
        else run_from left (block + 1) (start_of length block start) (length + 1) needed m)
unfolding run_from
run_from-free left block start length needed m h = ground arith

run_from-IsFreeRun :
    (left block start length needed : ℕ) (m : Bitmap) (found : ℕ)
    → block + left ≤ total_data_blocks
    → Counted m block start length
    → run_from left block start length needed m ≡ some found
    → IsFreeRun m found needed
unfolding run_from
run_from-IsFreeRun zero block start length needed m found fits c e = cc
run_from-IsFreeRun (suc left) block start length needed m found fits c e =
    elim (Bool-cases (test_bit m block)) [
      | inl taken ↦
          run_from-IsFreeRun left (block + 1) start 0 needed m found (omega arith)
            (Counted-none m (block + 1) start)
            (sym (run_from-taken left block start length needed m taken) ∙ e)
      | inr free ↦
          let c' = Counted-grow m block start length free c in
          elim (Bool-cases (length + 1 == needed)) [
            | inl full ↦
                let same : found ≡ start_of length block start =
                  ground (arith, run_from-free left block start length needed m free) in
                let count : length + 1 ≡ needed = ground arith in
                subst (λ x. IsFreeRun m x needed) (sym same)
                  (subst (λ n. IsFreeRun m (start_of length block start) n) count
                    (Counted-IsFreeRun m (block + 1) (start_of length block start) (length + 1)
                      (omega arith) (omega arith) c'))
            | inr more ↦
                run_from-IsFreeRun left (block + 1) (start_of length block start) (length + 1)
                  needed m found (omega arith) c'
                  (ground (arith, run_from-free left block start length needed m free))
          ]
    ]

run_from_complete :
    (left block start length needed : ℕ) (m : Bitmap) (s : ℕ)
    → block + left ≡ total_data_blocks
    → block ≤ s + length
    → length < needed
    → IsFreeRun m s needed
    → run_from left block start length needed m ≢ none
unfolding run_from
run_from_complete zero block start length needed m s all after short r e =
    let i = r.inside in omega arith
run_from_complete (suc left) block start length needed m s all after short r e =
    elim (Bool-cases (test_bit m block)) [
      | inl taken ↦ elim (dec_lt block s) [
        | yes lt ↦
            run_from_complete left (block + 1) start 0 needed m s (omega arith) (omega arith)
              (omega arith) r (sym (run_from-taken left block start length needed m taken) ∙ e)
        | no ge ↦ let f = r.free block (omega arith) (omega arith) in cc
      ]
      | inr free ↦ elim (Bool-cases (length + 1 == needed)) [
        | inl full ↦ ground (arith, run_from-free left block start length needed m free)
        | inr more ↦
            run_from_complete left (block + 1) (start_of length block start) (length + 1) needed m s
              (omega arith) (omega arith) (ground arith) r
              (ground (arith, run_from-free left block start length needed m free))
      ]
    ]

-- `find_free_run` for at least one block: either it finds blocks of the data region that lie together
-- and are all free, or it returns none and there is no such run anywhere in the region.
pub find_free_run_lem :
    (needed : ℕ) (m : Bitmap)
    → 0 < needed
    → ((found : ℕ) × (find_free_run needed m ≡ some found) × IsFreeRun m found needed)
      ⊎ ((find_free_run needed m ≡ none) × ((s : ℕ) → ¬ IsFreeRun m s needed))
unfolding find_free_run
find_free_run_lem needed m pos = elim (Option-cases (run_from total_data_blocks 0 0 0 needed m)) [
  | inl e ↦ inr (
    ground arith,
    λ s r. run_from_complete total_data_blocks 0 0 0 needed m s refl (omega arith) pos r e,
  )
  | inr (found, e) ↦ inl (
    found,
    ground arith,
    run_from-IsFreeRun total_data_blocks 0 0 0 needed m found (omega arith) (Counted-none m 0 0) e,
  )
]
