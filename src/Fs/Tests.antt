-- ===== src/Fs/Tests.antt =====
-- Runs of the searches and of the rebuilt bitmap of fs.cpp.
use venom_os.Base.{ℕ, ◌≡◌, ◌≢◌, ◌==◌, ◌⊎◌, if◌then◌else◌, true, none, some, arith}
use venom_os.Bitmap.{Bitmap}
use venom_os.Fs.{Fs, FileEntry, empty_entry, rebuild_bitmap_from_file_table}
use venom_os.Fs.Blocks.{find_free_run, extents_from, no_extents}
use venom_os.Fs.Blocks.Search.{IsFreeRun, find_free_run_lem}
use venom_os.Fs.Blocks.Fragments.{extents_from-ends}
use venom_os.Fs.Consistent.{owns, IsConsistent}
use venom_os.Fs.Mount.{rebuild_bitmap_from_file_table-IsConsistent}

-- Every block with an even number is taken.
abbrev striped : Bitmap
striped i = 0x55

find_free_run_lem_example :
    ((found : ℕ) × (find_free_run 2 striped ≡ some found) × IsFreeRun striped found 2)
    ⊎ ((find_free_run 2 striped ≡ none) × ((s : ℕ) → ¬ IsFreeRun striped s 2))
find_free_run_lem_example = find_free_run_lem 2 striped (omega arith)

extents_from-ends_example : extents_from 32495 0 5 no_extents striped ≢ none
extents_from-ends_example = extents_from-ends 5 striped

-- One file of two blocks.
abbrev one_file : FileEntry
one_file = record empty_entry {
  used = 1;
  size_bytes = 600;
  extent_count = 1;
  extents = λ e. record { start_lba = 274; block_count = 2 };
}

abbrev one_file_disk : Fs
one_file_disk = record {
  file_table = λ i. if i == 0 then one_file else empty_entry;
  bitmap = λ i. 0xff;
  drive = record { sectors = λ at i. 0; answers = λ n. true; waits = 0; fault_countdown = none };
}

rebuild_bitmap_from_file_table-IsConsistent_example :
    IsConsistent
      (rebuild_bitmap_from_file_table one_file_disk).file_table
      (rebuild_bitmap_from_file_table one_file_disk).bitmap
unfolding owns
rebuild_bitmap_from_file_table-IsConsistent_example =
    rebuild_bitmap_from_file_table-IsConsistent one_file_disk
      (λ i p u. record {
        few = ground arith;
        in_data = λ k a b. record { above = ground arith; inside = ground arith };
      })
      (λ i j b p q oi oj. ground arith)
