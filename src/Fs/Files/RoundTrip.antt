-- ===== src/Fs/Files/RoundTrip.antt =====
-- What `write` stores, `read` returns.
use venom_os.Base.{
  ℕ, ◌<◌, ◌^◌, ◌≡◌, ◌≢◌, if◌then◌else◌, Bool, true, false, ◌&&◌, refl, sym, ◌∙◌, ap, subst, arith,
  Option, none, some,
}
use venom_os.Base.Memory.{update}
use venom_os.Ata.Sectors.{IsHealthy}
use venom_os.Fs.{Fs, FileEntry, max_files, max_filename, is_used, free_entry, cleared, name_equals}
use venom_os.Fs.Blocks.{Extents, choose_extents}
use venom_os.Fs.Blocks.Choice.{choose_extents-IsChoice}
use venom_os.Fs.Consistent.{update-at, update-other}
use venom_os.Fs.Files.{
  find, filled, write_slot, make_room, write, name_fits, blocks_needed, read_extents, read_limit,
  read_slot, read,
}
use venom_os.Fs.Files.Slots.{find-IsFound, unused_from_lem}
use venom_os.Fs.Files.Names.{name_equals-copy_name, is_named, find-first, find-before}
use venom_os.Fs.Files.Stored.{write_slot-IsStored, Delivers, read_entry-Delivers}

-- Whether the slot that `write` takes is the first of that name after it.
make_room_first :
    (o : Option ℕ) (name : ℕ → ℕ) (s : Fs) (slot k : ℕ)
    → find s.file_table name ≡ o
    → (make_room o s).0 ≡ some slot
    → slot < max_files
    → k < slot
    → is_named (make_room o s).1.file_table name k ≡ false
unfolding free_entry
make_room_first none name s slot k e room inside lt =
    find-before s.file_table name k (omega arith) (λ i e'. let clash = sym e ∙ e' in ground arith)
make_room_first (some i) name s slot k e room inside lt =
    let at : i ≡ slot = ground arith in
    let other : k ≢ i = omega arith in
    ap (λ f. is_used f && name_equals f.name name)
      (update-other s.file_table i (cleared (s.file_table i)) k other)
    ∙ find-before s.file_table name k (omega arith)
        (λ j e'. let same : some i ≡ some j = sym e ∙ e' in ground arith)

make_room_inside :
    (o : Option ℕ) (name : ℕ → ℕ) (s : Fs) (slot : ℕ)
    → find s.file_table name ≡ o
    → (make_room o s).0 ≡ some slot
    → slot < max_files
make_room_inside none name s slot e room =
    (unused_from_lem max_files 0 s.file_table slot (omega arith) room).0
make_room_inside (some i) name s slot e room =
    let f = find-IsFound s.file_table name i e in
    let at : i ≡ slot = ground arith in let inside = f.inside in omega arith

make_room_drive : (o : Option ℕ) (s : Fs) → (make_room o s).1.drive ≡ s.drive
unfolding free_entry
make_room_drive none s = refl
make_room_drive (some i) s = refl

-- A slot that is filled last is found by its name.
stored-find :
    (t t' : ℕ → FileEntry) (slot : ℕ) (name : ℕ → ℕ) (size : ℕ) (xs : Extents)
    → slot < max_files
    → name_fits max_filename 0 name ≡ true
    → ((k : ℕ) → k < slot → is_named t name k ≡ false)
    → t' ≡ update t slot (filled (t slot) name size xs)
    → (find t' name ≡ some slot) × (t' slot ≡ filled (t slot) name size xs)
stored-find t t' slot name size xs inside fits first table =
    let f = filled (t slot) name size xs in
    let at : t' slot ≡ f = ap (λ g. g slot) table ∙ update-at t slot f in
    (
      find-first t' name slot inside
          (λ k lt.
            ap (λ g. is_used g && name_equals g.name name)
              (ap (λ g. g k) table ∙ update-other t slot f k (omega arith))
            ∙ first k lt)
          (ap (λ g. is_used g && name_equals g.name name) at
            ∙ name_equals-copy_name (t slot).name name fits),
      at,
    )

-- On a healthy drive, with a name that fits, less than 2 ^ 32 bytes, a slot for the file, and blocks that
-- `choose_extents` finds for it once an older file of the name is released, `write` succeeds; a `read` of
-- the name into any buffer then succeeds with the bytes that were written, as many as the buffer takes,
-- and leaves the rest of the buffer alone.
pub write-read :
    (name src : ℕ → ℕ) (size slot : ℕ) (xs : Extents) (s : Fs)
    → name_fits max_filename 0 name ≡ true
    → size < 2 ^ 32
    → ((j : ℕ) → src j < 256)
    → IsHealthy s.drive
    → (make_room (find s.file_table name) s).0 ≡ some slot
    → choose_extents (blocks_needed size) (make_room (find s.file_table name) s).1.bitmap ≡ some xs
    → ((write name src size s).0 ≡ true)
      × ((capacity : ℕ) (buffer : ℕ → ℕ)
          → Delivers src size capacity buffer (read name capacity buffer (write name src size s).1))
unfolding write read
write-read name src size slot xs s fits small bytes h room chosen =
    let o = find s.file_table name in
    let s₁ = (make_room o s).1 in
    let c = choose_extents-IsChoice (blocks_needed size) s₁.bitmap xs chosen in
    let inside = make_room_inside o name s slot refl room in
    let stored =
      write_slot-IsStored slot name src size xs s₁ chosen
        (subst IsHealthy (sym (make_room_drive o s)) h) in
    let s₂ = (write_slot (some slot) name src size s₁).1 in
    let (found, at) =
      stored-find s₁.file_table s₂.file_table slot name size xs inside fits
        (λ k lt. make_room_first o name s slot k refl room inside lt) stored.table in
    let steps : write name src size s ≡ write_slot (some slot) name src size s₁ =
      ap (λ b. if b then write_slot (make_room o s).0 name src size s₁ else (false, s)) fits
      ∙ ap (λ i. write_slot i name src size s₁) room in
    (
      ap (λ (r : Bool × Fs). r.0) steps ∙ stored.done,
      λ capacity buffer.
          subst
            (λ (r : Bool × Fs). Delivers src size capacity buffer (read name capacity buffer r.1))
            (sym steps)
            (subst (λ i. Delivers src size capacity buffer (read_slot i capacity buffer s₂))
              (sym found)
              (subst
                (λ (f : FileEntry). Delivers src size capacity buffer (
                  read_extents f.extent_count 0 f.extents (read_limit f capacity)
                    (record { bytes_read = 0; dest = buffer; drive = s₂.drive })))
                (sym at)
                (read_entry-Delivers (s₁.file_table slot) name src size xs c small bytes s₂.drive
                  stored.healthy stored.held capacity buffer))),
    )
