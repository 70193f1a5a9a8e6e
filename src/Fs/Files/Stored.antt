-- ===== src/Fs/Files/Stored.antt =====
-- The state after `write` of fs.cpp has stored a file, and what a read of its entry delivers.
use venom_os.Base.{
  ℕ, ◌+◌, ◌*◌, ◌≤◌, ◌<◌, ◌^◌, ◌≡◌, if◌then◌else◌, Bool, true, false, ltb, refl, sym, ◌∙◌, ap, subst,
  arith, some,
}
use venom_os.Base.Memory.{update, u8}
use venom_os.Bitmap.{Bitmap}
use venom_os.Ata.{Drive, sector_size}
use venom_os.Ata.Sectors.{IsHealthy}
use venom_os.Fs.{Fs, Extent, FileEntry, set_extents}
use venom_os.Fs.Blocks.{Extents, choose_extents}
use venom_os.Fs.Blocks.Choice.{IsChoice, choose_extents-IsChoice}
use venom_os.Fs.Blocks.Total.{total_blocks, total_blocks-cong}
use venom_os.Fs.Owners.{IsInData}
use venom_os.Fs.Format.{save_file_table, AreSaved, save_file_table-AreSaved, save_bitmap-AreSaved}
use venom_os.Fs.Files.{
  filled, commit, enter_file, after_data, with_extents, write_slot, write_extents, blocks_needed,
  keep_or_undo, read_extents, read_limit, Reading,
}
use venom_os.Fs.Files.Slots.{commit-AreKept}
use venom_os.Fs.Files.Data.{Holds, AreInOrder, WritesExtents, write_extents-WritesExtents}
use venom_os.Fs.Files.Read.{read_extents-HasRead}

pub commit-AreSaved : (s : Fs) → IsHealthy s.drive → AreSaved s (commit s)
unfolding commit
commit-AreSaved s h =
    let a = save_file_table-AreSaved s h in
    let b = save_bitmap-AreSaved (save_file_table s).1 a.healthy in
    let a_done = a.done in
    let b_done = b.done in
    record {
      done = rw (a_done, b_done) refl;
      healthy = b.healthy;
      data_kept = λ at p. b.data_kept at p ∙ a.data_kept at p;
    }

-- The state after `write` has put a file into a slot.
pub record IsStored (name src : ℕ → ℕ) (size slot : ℕ) (xs : Extents) (s : Fs) (r : Bool × Fs)
    : Type 0 where
  pub done : r.0 ≡ true
  pub healthy : IsHealthy r.1.drive
  pub table : r.1.file_table ≡ update s.file_table slot (filled (s.file_table slot) name size xs)
  pub held :
      (k : ℕ)
      → k < xs.count
      → Holds src size (xs.extents k) (total_blocks k xs.extents * sector_size) r.1.drive

pub IsChoice-AreInOrder :
    {m : Bitmap} {needed : ℕ} {xs : Extents}
    → IsChoice m needed xs
    → AreInOrder xs.count 0 xs.extents
IsChoice-AreInOrder c = record {
  in_data =
      λ k p q. (let f = c.free k (omega arith) in record { above = f.above; inside = f.inside });
  sorted = λ j k p q r. c.sorted j k q (omega arith);
}

pub keep_or_undo-kept :
    (slot : ℕ) (xs : Extents) (r : Bool × Fs) → r.0 ≡ true → keep_or_undo slot xs r ≡ r
keep_or_undo-kept slot xs (true, s) e = refl
keep_or_undo-kept slot xs (false, s) e = ground arith

pub after_data-done :
    (slot : ℕ) (xs : Extents) (name : ℕ → ℕ) (size : ℕ) (s : Fs) (r : Bool × ℕ × Drive)
    → r.0 ≡ true
    → after_data slot xs name size s r ≡ enter_file slot xs name size (record s { drive = r.2 })
after_data-done slot xs name size s (true, offset, d) e = refl
after_data-done slot xs name size s (false, offset, d) e = ground arith

pub write_slot-IsStored :
    (slot : ℕ) (name src : ℕ → ℕ) (size : ℕ) (xs : Extents) (s : Fs)
    → choose_extents (blocks_needed size) s.bitmap ≡ some xs
    → IsHealthy s.drive
    → IsStored name src size slot xs s (write_slot (some slot) name src size s)
unfolding write_slot enter_file total_blocks
write_slot-IsStored slot name src size xs s chosen h =
    let c = choose_extents-IsChoice (blocks_needed size) s.bitmap xs chosen in
    let s₁ = record s { bitmap = set_extents xs.count 0 xs.extents s.bitmap } in
    let order = IsChoice-AreInOrder c in
    let data_written = write_extents xs.count 0 xs.extents src size 0 s.drive in
    let w : WritesExtents src size xs.count 0 xs.extents s.drive data_written =
      write_extents-WritesExtents src size xs.count 0 xs.extents s.drive order h in
    let s₂ = record s₁ {
      drive = data_written.2;
      file_table = update s.file_table slot (filled (s.file_table slot) name size xs);
    } in
    let a = commit-AreSaved s₂ w.healthy in
    let k = commit-AreKept s₂ in
    let steps : write_slot (some slot) name src size s ≡ commit s₂ =
      ap (λ o. with_extents o slot name src size s) chosen
      ∙ after_data-done slot xs name size s₁ data_written w.done
      ∙ keep_or_undo-kept slot xs (commit s₂) a.done in
    subst (IsStored name src size slot xs s) (sym steps) (record {
      done = a.done;
      healthy = a.healthy;
      table = k.table;
      held = λ n p j b q q'.
          let i = order.in_data n (omega arith) (omega arith) in
          let above = i.above in
          ap (λ f. f b) (a.data_kept ((xs.extents n).start_lba + j) (omega arith))
          ∙ w.held n (omega arith) (omega arith) j b q q';
    })

-- The entry that `write` makes.
module _ {m : Bitmap} (f : FileEntry) (name src : ℕ → ℕ) (size : ℕ) (xs : Extents)
    (c : IsChoice m (blocks_needed size) xs) (small : size < 2 ^ 32) where
  abbrev entry : FileEntry
  entry = filled f name size xs

  entry_count : u8 xs.count ≡ xs.count
  entry_count = let h = c.few in omega arith

  entry_extent : (k : ℕ) → k < xs.count → entry.extents k ≡ xs.extents k
  entry_extent k p = let h = c.few in ground arith

  entry-AreInOrder : AreInOrder (u8 xs.count) 0 entry.extents
  entry-AreInOrder =
      let h = c.few in
      let o = IsChoice-AreInOrder c in
      record {
        in_data = λ k p q.
            subst IsInData (sym (entry_extent k (omega arith))) (o.in_data k p (omega arith));
        sorted = λ j k p q r.
            let before = o.sorted j k p q (omega arith) in
            let here = ap (λ (x : Extent). x.start_lba) (entry_extent k (omega arith)) in
            let a = ap (λ (x : Extent). x.start_lba) (entry_extent j (omega arith)) in
            let b = ap (λ (x : Extent). x.block_count) (entry_extent j (omega arith)) in
            omega arith;
      }

  -- The blocks are enough for the bytes.
  entry_room : size ≤ total_blocks (0 + u8 xs.count) entry.extents * sector_size
  entry_room =
      let h = c.few in
      let t = c.total in
      let n : total_blocks (0 + u8 xs.count) entry.extents ≡ total_blocks xs.count xs.extents =
        ap (λ n. total_blocks n entry.extents) (omega arith)
        ∙ total_blocks-cong xs.count entry.extents xs.extents entry_extent in
      omega arith

  entry-Holds :
      (d : Drive)
      → ((k : ℕ)
          → k < xs.count
          → Holds src size (xs.extents k) (total_blocks k xs.extents * sector_size) d)
      → (k : ℕ) → 0 ≤ k
      → k < 0 + u8 xs.count
      → Holds src size (entry.extents k) (total_blocks k entry.extents * sector_size) d
  entry-Holds d held k p q =
      let h = c.few in
      let lt : k < xs.count = omega arith in
      subst (λ x. Holds src size x (total_blocks k entry.extents * sector_size) d)
        (sym (entry_extent k lt))
        (subst (λ n. Holds src size (xs.extents k) (n * sector_size) d)
          (sym (total_blocks-cong k entry.extents xs.extents (λ j r. entry_extent j (omega arith))))
          (held k lt))

-- What a `read` of `capacity` bytes into a buffer gives for a file of these bytes.
pub record Delivers (src : ℕ → ℕ) (size capacity : ℕ) (buffer : ℕ → ℕ) (r : Bool × Reading)
    : Type 0 where
  pub done : r.0 ≡ true
  pub count : r.1.bytes_read ≡ (if ltb capacity size then capacity else size)
  pub copied : (j : ℕ) → j < r.1.bytes_read → r.1.dest j ≡ src j
  pub rest : (j : ℕ) → r.1.bytes_read ≤ j → r.1.dest j ≡ buffer j

pub read_entry-Delivers :
    {m : Bitmap} (f : FileEntry) (name src : ℕ → ℕ) (size : ℕ) (xs : Extents)
    → IsChoice m (blocks_needed size) xs
    → size < 2 ^ 32
    → ((j : ℕ) → src j < 256)
    → (d : Drive) → IsHealthy d
    → ((k : ℕ)
        → k < xs.count
        → Holds src size (xs.extents k) (total_blocks k xs.extents * sector_size) d)
    → (capacity : ℕ) (buffer : ℕ → ℕ)
    → Delivers src size capacity buffer (
        read_extents
          (u8 xs.count)
          0
          (filled f name size xs).extents
          (read_limit (filled f name size xs) capacity)
          (record { bytes_read = 0; dest = buffer; drive = d }))
unfolding total_blocks
read_entry-Delivers f name src size xs c small bytes d h held capacity buffer =
    let e = filled f name size xs in
    let limit = read_limit e capacity in
    let limited : limit ≤ size = ground arith in
    let room = entry_room f name src size xs c small in
    let start : Reading = record { bytes_read = 0; dest = buffer; drive = d } in
    let r =
      read_extents-HasRead src size limit buffer d.sectors bytes limited (u8 xs.count) 0 e.extents
        start (entry-AreInOrder f name src size xs c small)
        (entry-Holds f name src size xs c small d held)
        (record {
          done = refl;
          healthy = h;
          disk = refl;
          progress = ground arith;
          copied = λ j p. absurd (omega arith);
          rest = λ j p. refl;
        }) in
    record {
      done = r.done;
      count = let p = r.progress in ground arith;
      copied = r.copied;
      rest = r.rest;
    }
