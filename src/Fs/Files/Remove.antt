-- ===== src/Fs/Files/Remove.antt =====
-- `remove` keeps the table and the bitmap consistent, also where it fails.
use venom_os.Base.{
  ℕ, ◌<◌, ◌≡◌, Bool, true, false, refl, sym, ◌∙◌, ap, arith, ℕ_discrete, Option, none, some,
}
use venom_os.Base.Memory.{update}
use venom_os.Bitmap.{test_bit}
use venom_os.Fs.{Fs, max_files, is_used, free_entry, cleared}
use venom_os.Fs.Owners.{test_bit-set_extents, test_bit-clear_extents}
use venom_os.Fs.Consistent.{IsConsistent-same, update-at, update-other}
use venom_os.Fs.Format.{AreKept}
use venom_os.Fs.Files.{find, commit, keep_or_restore, remove_slot, remove}
use venom_os.Fs.Files.Slots.{
  IsSound, find-IsFound, owns-used, free_entry-IsSound, AreKept-IsSound, commit-AreKept,
}

-- Two states with the same files and the same blocks taken.
pub record AreAlike (s s' : Fs) : Type 0 where
  pub entries : (k : ℕ) → s'.file_table k ≡ s.file_table k
  pub bits : (b : ℕ) → test_bit s'.bitmap b ≡ test_bit s.bitmap b

AreAlike-IsSound : (s s' : Fs) → AreAlike s s' → IsSound s → IsSound s'
AreAlike-IsSound s s' a sound = record {
  consistent =
      IsConsistent-same s.file_table s'.file_table s.bitmap s'.bitmap a.entries a.bits
        sound.consistent;
}

-- The entry and the blocks of a file, put back after they were released.
put_back :
    (i : ℕ) (s s' : Fs)
    → i < max_files
    → is_used (s.file_table i) ≡ true
    → s'.file_table ≡ (free_entry i s).file_table
    → s'.bitmap ≡ (free_entry i s).bitmap
    → IsSound s
    → AreAlike s (keep_or_restore i (s.file_table i) (false, s')).1
unfolding free_entry
put_back i s s' lt used table bits sound =
    let f = s.file_table i in
    let c = sound.consistent in
    let has = c.extents i lt used in
    record {
      entries = λ k. elim (ℕ_discrete k i) [
        | yes same ↦
            ap (update s'.file_table i f) same
            ∙ update-at s'.file_table i f
            ∙ ap s.file_table (sym same)
        | no other ↦
            update-other s'.file_table i f k other
            ∙ ap (λ t. t k) table
            ∙ update-other s.file_table i (cleared f) k other
      ];
      bits = λ b.
          let marked = c.marked i b lt in
          ground (
            arith,
            owns-used f b used,
            test_bit-set_extents f.extent_count 0 f.extents s'.bitmap b has.in_data,
            test_bit-clear_extents f.extent_count 0 f.extents s.bitmap b has.in_data,
            ap (λ m. test_bit m b) bits,
          );
    }

-- What `remove` leaves of the entry of a slot that is in use.
record IsRemoved (i : ℕ) (s : Fs) (r : Bool × Fs) : Type 0 where
  pub sound : IsSound r.1
  pub gone : r.0 ≡ true → is_used (r.1.file_table i) ≡ false
  pub restored : r.0 ≡ false → AreAlike s r.1

keep_or_restore-IsRemoved :
    (i : ℕ) (s : Fs) (r : Bool × Fs)
    → i < max_files
    → is_used (s.file_table i) ≡ true
    → AreKept (free_entry i s) r.1
    → IsSound s
    → IsRemoved i s (keep_or_restore i (s.file_table i) r)
unfolding free_entry
keep_or_restore-IsRemoved i s (true, s') lt used k sound = record {
  sound = AreKept-IsSound (free_entry i s) s' k (free_entry-IsSound i s lt used sound);
  gone = λ e.
      ap (λ t. is_used (t i)) k.table
      ∙ ap is_used (update-at s.file_table i (cleared (s.file_table i)));
  restored = λ e. ground arith;
}
keep_or_restore-IsRemoved i s (false, s') lt used k sound =
    let alike = put_back i s s' lt used k.table k.bits sound in
    record {
      sound = AreAlike-IsSound s (keep_or_restore i (s.file_table i) (false, s')).1 alike sound;
      gone = λ e. ground arith;
      restored = λ e. alike;
    }

-- What `remove` promises: on success the slot that held the file is free, and on failure, also where the
-- disk failed on the way, every entry and every bit of the bitmap is as it was before. The table and the
-- bitmap are consistent in every case.
pub record Removes (name : ℕ → ℕ) (s : Fs) (r : Bool × Fs) : Type 0 where
  pub sound : IsSound r.1
  pub gone :
      r.0 ≡ true
      → (i : ℕ) × (find s.file_table name ≡ some i) × (is_used (r.1.file_table i) ≡ false)
  pub restored : r.0 ≡ false → AreAlike s r.1

remove_slot-Removes :
    (o : Option ℕ) (name : ℕ → ℕ) (s : Fs)
    → find s.file_table name ≡ o
    → IsSound s
    → Removes name s (remove_slot o s)
remove_slot-Removes none name s e sound = record {
  sound = sound;
  gone = λ h. ground arith;
  restored = λ h. record { entries = λ k. refl; bits = λ b. refl };
}
remove_slot-Removes (some i) name s e sound =
    let f = find-IsFound s.file_table name i e in
    let r =
      keep_or_restore-IsRemoved i s (commit (free_entry i s)) f.inside f.used
        (commit-AreKept (free_entry i s)) sound in
    record { sound = r.sound; gone = λ h. (i, e, r.gone h); restored = r.restored }

-- `remove` keeps the table and the bitmap consistent. When it returns true, the slot of the file is free;
-- when it returns false, for a missing file or a disk that fails, every entry and every bit is as before.
pub remove-Removes : (name : ℕ → ℕ) (s : Fs) → IsSound s → Removes name s (remove name s)
unfolding remove
remove-Removes name s sound = remove_slot-Removes (find s.file_table name) name s refl sound
