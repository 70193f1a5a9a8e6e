-- ===== src/Fs/Files/Write.antt =====
-- `write` keeps the table and the bitmap consistent, also where it fails.
use venom_os.Base.{
  ℕ, ◌<◌, ◌≡◌, if◌then◌else◌, Bool, true, false, refl, sym, ◌∙◌, ap, subst, arith, Bool-cases, inl,
  inr, Option, none, some,
}
use venom_os.Base.Memory.{update}
use venom_os.Bitmap.{Bitmap, test_bit}
use venom_os.Ata.{Drive}
use venom_os.Fs.{
  Fs, FileEntry, max_files, max_filename, is_used, set_extents, clear_extents, free_entry, cleared,
}
use venom_os.Fs.Blocks.{Extents, choose_extents}
use venom_os.Fs.Blocks.Choice.{IsChoice, choose_extents-IsChoice}
use venom_os.Fs.Owners.{test_bit-set_extents, test_bit-clear_extents}
use venom_os.Fs.Consistent.{
  owns, IsConsistent, IsConsistent-release, IsConsistent-claim, IsConsistent-same, update-at,
}
use venom_os.Fs.Format.{save_file_table, save_file_table-AreKept, save_bitmap-AreKept}
use venom_os.Fs.Files.{
  find, release_extents, give_up, filled, undo, commit, keep_or_undo, enter_file, after_data,
  with_extents, write_slot, make_room, write, write_extents, name_fits, blocks_needed,
}
use venom_os.Fs.Files.Slots.{
  IsSound, find-IsFound, unused_from_lem, free_entry-IsSound, AreKept-IsSound, AreKept-then,
  give_up-AreKept, give_up-IsSound, commit-AreKept, choice-AreInData, choice-free,
  taken_and_released, filled-HasExtents, owns-filled,
}

-- A slot is filled, and the disk is updated or everything is undone.
module _ (t : ℕ → FileEntry) (m : Bitmap) (slot needed : ℕ) (xs : Extents) (name : ℕ → ℕ) (size : ℕ)
    (lt : slot < max_files) (unused : is_used (t slot) ≡ false) (chosen : IsChoice m needed xs)
    (c : IsConsistent t m) where
  taken : Bitmap
  taken = set_extents xs.count 0 xs.extents m

  entered : ℕ → FileEntry
  entered = update t slot (filled (t slot) name size xs)

  entered-IsConsistent : IsConsistent entered taken
  unfolding taken entered
  entered-IsConsistent =
      let f = filled (t slot) name size xs in
      let owned = owns-filled m needed xs chosen (t slot) name size in
      IsConsistent-claim t m taken slot f lt unused
        (filled-HasExtents m needed xs chosen (t slot) name size)
        (λ b o. choice-free m needed xs chosen b (sym (owned b) ∙ o))
        (λ b.
          test_bit-set_extents xs.count 0 xs.extents m b (choice-AreInData m needed xs chosen)
          ∙ ap (λ x. if x then true else test_bit m b) (sym (owned b)))
        c

  cleared-IsConsistent :
      IsConsistent
        (update entered slot (cleared (entered slot)))
        (clear_extents xs.count 0 xs.extents taken)
  unfolding entered
  cleared-IsConsistent =
      let f = filled (t slot) name size xs in
      let owned = owns-filled m needed xs chosen (t slot) name size in
      IsConsistent-release entered taken (clear_extents xs.count 0 xs.extents taken) slot
        (cleared (entered slot)) lt refl
        (λ b.
          test_bit-clear_extents xs.count 0 xs.extents taken b (choice-AreInData m needed xs chosen)
          ∙ ap (λ x. if x then false else test_bit taken b)
              (sym (ap (λ g. owns g b) (update-at t slot f) ∙ owned b)))
        entered-IsConsistent

  released-IsConsistent : IsConsistent t (clear_extents xs.count 0 xs.extents taken)
  unfolding taken
  released-IsConsistent =
      IsConsistent-same t t m (clear_extents xs.count 0 xs.extents taken) (λ k. refl)
        (taken_and_released m needed xs chosen) c

  undo-IsSound : (s : Fs) → s.file_table ≡ entered → s.bitmap ≡ taken → IsSound (undo slot xs s).1
  undo-IsSound s table bits =
      let s₁ = record (release_extents xs s) {
        file_table = update s.file_table slot (cleared (s.file_table slot));
      } in
      let sound : IsSound s₁ = record {
        consistent =
            subst
              (λ t'.
                IsConsistent (update t' slot (cleared (t' slot)))
                  (clear_extents xs.count 0 xs.extents s.bitmap))
              (sym table)
              (subst
                (λ m'.
                  IsConsistent (update entered slot (cleared (entered slot)))
                    (clear_extents xs.count 0 xs.extents m'))
                (sym bits) cleared-IsConsistent);
      } in
      AreKept-IsSound s₁ (undo slot xs s).1
        (AreKept-then s₁ (save_file_table s₁).1 (undo slot xs s).1 (save_file_table-AreKept s₁)
          (save_bitmap-AreKept (save_file_table s₁).1))
        sound

  keep_or_undo-IsSound :
      (r : Bool × Fs)
      → r.1.file_table ≡ entered
      → r.1.bitmap ≡ taken
      → IsSound (keep_or_undo slot xs r).1
  keep_or_undo-IsSound (true, s) table bits = record {
    consistent =
        subst (λ t'. IsConsistent t' s.bitmap) (sym table)
          (subst (IsConsistent entered) (sym bits) entered-IsConsistent);
  }
  keep_or_undo-IsSound (false, s) table bits = undo-IsSound s table bits

  -- What `write` does with its blocks, whatever became of the data.
  after_data-IsSound :
      (s : Fs)
      → s.file_table ≡ t
      → s.bitmap ≡ taken
      → (r : Bool × ℕ × Drive) → IsSound (after_data slot xs name size s r).1
  unfolding enter_file entered
  after_data-IsSound s table bits (true, offset, d) =
      let s₁ = record s {
        file_table = update s.file_table slot (filled (s.file_table slot) name size xs);
        drive = d;
      } in
      let k = commit-AreKept s₁ in
      keep_or_undo-IsSound (commit s₁)
        (k.table ∙ ap (λ t'. update t' slot (filled (t' slot) name size xs)) table) (k.bits ∙ bits)
  after_data-IsSound s table bits (false, offset, d) =
      let s₁ = release_extents xs (record s { drive = d }) in
      give_up-IsSound s₁ (record {
        consistent =
            subst (λ t'. IsConsistent t' (clear_extents xs.count 0 xs.extents s.bitmap)) (sym table)
              (subst (λ m'. IsConsistent t (clear_extents xs.count 0 xs.extents m')) (sym bits)
                released-IsConsistent);
      })

with_extents-IsSound :
    (o : Option Extents) (slot needed : ℕ) (name src : ℕ → ℕ) (size : ℕ) (s : Fs)
    → slot < max_files
    → is_used (s.file_table slot) ≡ false
    → ((xs : Extents) → o ≡ some xs → IsChoice s.bitmap needed xs)
    → IsSound s
    → IsSound (with_extents o slot name src size s).1
unfolding taken
with_extents-IsSound none slot needed name src size s lt unused chosen sound =
    give_up-IsSound s sound
with_extents-IsSound (some xs) slot needed name src size s lt unused chosen sound =
    let m' = set_extents xs.count 0 xs.extents s.bitmap in
    after_data-IsSound s.file_table s.bitmap slot needed xs name size lt unused (chosen xs refl)
      sound.consistent (record s { bitmap = m' }) refl refl
      (write_extents xs.count 0 xs.extents src size 0 s.drive)

write_slot-IsSound :
    (o : Option ℕ) (name src : ℕ → ℕ) (size : ℕ) (s : Fs)
    → ((i : ℕ) → o ≡ some i → (i < max_files) × (is_used (s.file_table i) ≡ false))
    → IsSound s
    → IsSound (write_slot o name src size s).1
unfolding write_slot
write_slot-IsSound none name src size s room sound = give_up-IsSound s sound
write_slot-IsSound (some slot) name src size s room sound =
    let (lt, unused) = room slot refl in
    with_extents-IsSound (choose_extents (blocks_needed size) s.bitmap) slot (blocks_needed size)
      name src size s lt unused (choose_extents-IsChoice (blocks_needed size) s.bitmap) sound

make_room-IsSound :
    (o : Option ℕ) (name : ℕ → ℕ) (s : Fs)
    → find s.file_table name ≡ o
    → IsSound s
    → (let (slot, s') = make_room o s in
        IsSound s'
        × ((i : ℕ) → slot ≡ some i → (i < max_files) × (is_used (s'.file_table i) ≡ false)))
unfolding free_entry
make_room-IsSound none name s e sound =
    (sound, λ i same. unused_from_lem max_files 0 s.file_table i (omega arith) same)
make_room-IsSound (some k) name s e sound =
    let f = find-IsFound s.file_table name k e in
    (
      free_entry-IsSound k s f.inside f.used sound,
      λ i same.
          let here : k ≡ i = ground arith in
          (
            subst (λ x. x < max_files) here f.inside,
            ap (λ x. is_used ((free_entry k s).file_table x)) (sym here)
                ∙ ap is_used (update-at s.file_table k (cleared (s.file_table k))),
          ),
    )

-- Whatever becomes of a `write` (a name that is too long, no room, a disk that fails at any point, or
-- success), the file table and the bitmap are consistent after it when they were before it.
pub write-IsSound :
    (name src : ℕ → ℕ) (size : ℕ) (s : Fs) → IsSound s → IsSound (write name src size s).1
unfolding write
write-IsSound name src size s sound =
    let (sound', room) = make_room-IsSound (find s.file_table name) name s refl sound in
    let (slot, s') = make_room (find s.file_table name) s in
    let there : IsSound (write_slot slot name src size s').1 =
      write_slot-IsSound slot name src size s' room sound' in
    elim (Bool-cases (name_fits max_filename 0 name)) [
      | inl fits ↦ rw fits there
      | inr long ↦ rw long sound
    ]

-- When a file of this name exists and the new contents do not fit, even with the blocks of the old file
-- released, `write` fails and the old file is gone.
pub write-loses_old_file :
    (name src : ℕ → ℕ) (size i : ℕ) (s : Fs)
    → name_fits max_filename 0 name ≡ true
    → find s.file_table name ≡ some i
    → choose_extents (blocks_needed size) (free_entry i s).bitmap ≡ none
    → ((write name src size s).0 ≡ false)
      × (is_used ((write name src size s).1.file_table i) ≡ false)
unfolding write write_slot free_entry
write-loses_old_file name src size i s fits found full =
    let s₁ = free_entry i s in
    let steps : write name src size s ≡ give_up s₁ =
      ap
        (λ b.
          if b
          then (let (slot, s') = make_room (find s.file_table name) s in
              write_slot slot name src size s')
          else (false, s))
        fits
      ∙ ap (λ o. (let (slot, s') = make_room o s in write_slot slot name src size s')) found
      ∙ ap (λ o. with_extents o i name src size s₁) full in
    let kept = give_up-AreKept s₁ in
    (
      ap (λ (r : Bool × Fs). r.0) steps,
      ap (λ (r : Bool × Fs). is_used (r.1.file_table i)) steps
          ∙ ap (λ (t : ℕ → FileEntry). is_used (t i)) kept.table
          ∙ ap is_used (update-at s.file_table i (cleared (s.file_table i))),
    )
