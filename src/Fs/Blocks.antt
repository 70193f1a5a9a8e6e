-- ===== src/Fs/Blocks.antt =====
-- The search for free blocks in kernel/fs.cpp.
pub mod Search
pub mod Total
pub mod Fragments
pub mod Choice
use venom_os.Base.{
  ℕ, zero, suc, ◌+◌, ◌-◌, ◌==◌, if◌then◌else◌, Bool, true, false, ◌&&◌, ltb, Option, none, some,
}
use venom_os.Base.Memory.{update}
use venom_os.Bitmap.{Bitmap, test_bit}
use venom_os.Fs.{Extent, total_data_blocks, data_start_lba, max_extents, no_extent}

-- The loop of `find_free_run` from a block on, with the blocks left.
unfoldable pub run_from : ℕ → ℕ → ℕ → ℕ → ℕ → Bitmap → Option ℕ
run_from zero block run_start run_length needed m = none
run_from (suc left) block run_start run_length needed m = elim (test_bit m block) [
  | true ↦ run_from left (block + 1) run_start 0 needed m
  | false ↦
      let start = if run_length == 0 then block else run_start in
      elim (run_length + 1 == needed) [
        | true ↦ some start
        | false ↦ run_from left (block + 1) start (run_length + 1) needed m
      ]
]

unfoldable pub find_free_run : ℕ → Bitmap → Option ℕ
find_free_run needed m = if needed == 0 then some 0 else run_from total_data_blocks 0 0 0 needed m

-- The inner loop of `find_free_extents`: the free blocks from `block` on, of the `wanted` ones.
pub count_run : ℕ → ℕ → Bitmap → ℕ
count_run zero block m = 0
count_run (suc wanted) block m =
    let rest = count_run wanted (block + 1) m in
    if ltb block total_data_blocks then (if test_bit m block then 0 else suc rest) else 0

-- The extents found so far.
pub record Extents : Type 0 where
  pub count : ℕ
  pub extents : ℕ → Extent

abbrev pub add_extent : ℕ → ℕ → Extents → Extents
add_extent run_start run_length xs = record {
  count = xs.count + 1;
  extents =
      update xs.extents xs.count
        (record { start_lba = data_start_lba + run_start; block_count = run_length });
}

-- The outer loop; `none` when the fuel runs out, and otherwise the blocks that are still wanted.
unfoldable pub extents_from : ℕ → ℕ → ℕ → Extents → Bitmap → Option (ℕ × Extents)
extents_from zero block remaining xs m = none
extents_from (suc fuel) block remaining xs m =
    elim (ltb block total_data_blocks && (ltb 0 remaining && ltb xs.count max_extents)) [
      | false ↦ some (remaining, xs)
      | true ↦ elim (test_bit m block) [
        | true ↦ extents_from fuel (block + 1) remaining xs m
        | false ↦
            let run = count_run remaining block m in
            extents_from fuel (block + run) (remaining - run) (add_extent block run xs) m
      ]
    ]

abbrev pub no_extents : Extents
no_extents = record { count = 0; extents = λ e. no_extent }

abbrev pub if_enough : Option (ℕ × Extents) → Option Extents
if_enough none = none
if_enough (some (remaining, xs)) = if remaining == 0 then some xs else none

-- `none` where `find_free_extents` returns 0, for at least one block.
unfoldable pub find_free_extents : ℕ → Bitmap → Option Extents
find_free_extents needed m = if_enough (extents_from (suc total_data_blocks) 0 needed no_extents m)

abbrev pub one_extent : ℕ → ℕ → Extents
one_extent start count = add_extent start count no_extents

abbrev pub or_extents : Option ℕ → ℕ → Bitmap → Option Extents
or_extents (some start) needed m = some (one_extent start needed)
or_extents none needed m = find_free_extents needed m

-- The blocks that `write` takes: none, a run, or else up to four extents.
unfoldable pub choose_extents : ℕ → Bitmap → Option Extents
choose_extents needed m =
    if needed == 0 then some no_extents else or_extents (find_free_run needed m) needed m
