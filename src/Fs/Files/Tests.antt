-- ===== src/Fs/Files/Tests.antt =====
-- A small file on an empty disk, for the operations of fs.cpp.
use venom_os.Base.{ℕ, ◌≡◌, ◌==◌, if◌then◌else◌, true, false, none, refl, arith}
use venom_os.Bitmap.{test_bit}
use venom_os.Bitmap.Count.{test_bit-all_free}
use venom_os.Ata.{Drive}
use venom_os.Fs.{Fs, empty_entry, is_used, free_entry}
use venom_os.Fs.Blocks.{choose_extents, find_free_run, run_from, extents_from, one_extent}
use venom_os.Fs.Consistent.{owns}
use venom_os.Fs.Files.{write, read, remove, find, find_from, unused_from, name_fits}
use venom_os.Fs.{name_equals, name_equals_from, clear_extents}
use venom_os.Fs.Blocks.{find_free_extents}
use venom_os.Fs.Files.Write.{write-loses_old_file}
use venom_os.Fs.Files.Slots.{IsSound}
use venom_os.Fs.Files.Write.{write-IsSound}
use venom_os.Fs.Files.Remove.{Removes, remove-Removes}
use venom_os.Fs.Files.RoundTrip.{write-read}
use venom_os.Fs.Files.Stored.{Delivers}

abbrev good_drive : Drive
good_drive = record { sectors = λ at i. 0; answers = λ n. true; waits = 0; fault_countdown = none }

abbrev empty_disk : Fs
empty_disk = record { file_table = λ i. empty_entry; bitmap = λ i. 0; drive = good_drive }

abbrev letter_a : ℕ → ℕ
letter_a i = if i == 0 then 97 else 0

abbrev sevens : ℕ → ℕ
sevens j = 7

empty_disk-IsSound : IsSound empty_disk
unfolding owns
empty_disk-IsSound = record {
  consistent = record {
    extents = λ i p u. absurd (ground arith);
    marked = λ i b p o. absurd (ground arith);
    owned = λ b taken. absurd (ground (arith, test_bit-all_free b));
    unique = λ i j b p q oi oj. absurd (ground arith);
  };
}

write-IsSound_example : IsSound (write letter_a sevens 600 empty_disk).1
write-IsSound_example = write-IsSound letter_a sevens 600 empty_disk empty_disk-IsSound

remove-Removes_example :
    (let s = (write letter_a sevens 600 empty_disk).1 in Removes letter_a s (remove letter_a s))
remove-Removes_example =
    remove-Removes letter_a (write letter_a sevens 600 empty_disk).1
      (write-IsSound letter_a sevens 600 empty_disk empty_disk-IsSound)

write-read_example :
    ((write letter_a sevens 600 empty_disk).0 ≡ true)
    × ((capacity : ℕ) (buffer : ℕ → ℕ)
        → Delivers sevens 600 capacity buffer
            (read letter_a capacity buffer (write letter_a sevens 600 empty_disk).1))
unfolding find find_from unused_from name_fits choose_extents find_free_run run_from test_bit
write-read_example =
    write-read letter_a sevens 600 0 (one_extent 0 2) empty_disk refl (omega arith)
      (λ j. omega arith) (record { answered = λ n. refl; no_fault = refl }) refl refl

-- The file `a` is empty, and every block is taken.
abbrev full_disk : Fs
full_disk = record empty_disk {
  file_table =
      λ i. if i == 0 then record empty_entry { name = letter_a; used = 1 } else empty_entry;
  bitmap = λ i. 0xff;
}

write-loses_old_file_example :
    ((write letter_a sevens 600 full_disk).0 ≡ false)
    × (is_used ((write letter_a sevens 600 full_disk).1.file_table 0) ≡ false)
unfolding find find_from unused_from name_fits choose_extents find_free_run run_from
    find_free_extents extents_from free_entry clear_extents name_equals name_equals_from test_bit
write-loses_old_file_example = write-loses_old_file letter_a sevens 600 0 full_disk refl refl refl
