-- ===== src/Fs/Files/Read.antt =====
-- What `read` delivers when the blocks of the file hold its bytes.
use venom_os.Base.{
  ℕ, zero, suc, ◌+◌, ◌-◌, ◌*◌, ◌≤◌, ◌<◌, ◌≡◌, if◌then◌else◌, Bool, true, false, ltb, refl, sym, ◌∙◌,
  ap, subst, arith, dec_lt,
}
use venom_os.Base.Memory.{u8, u32}
use venom_os.Base.Copy.{copy_bytes, copy_bytes_lem}
use venom_os.Ata.{Drive, sector_size, read_sectors}
use venom_os.Ata.Sectors.{IsHealthy, read_sectors-healthy, waited}
use venom_os.Fs.{Extent, total_disk_sectors}
use venom_os.Fs.Blocks.Total.{total_blocks, total_blocks-next, total_blocks-grow}
use venom_os.Fs.Files.{
  sector_of, Reading, take_sector, after_read, read_blocks, then_read, read_extents,
}
use venom_os.Fs.Files.Data.{AreInOrder, AreInOrder-tail}

-- The bytes of the file are bytes, and at most `to_read` of them are wanted.
module _ (src : ℕ → ℕ) (size to_read : ℕ) (buffer : ℕ → ℕ) (sectors : ℕ → ℕ → ℕ)
    (bytes : (j : ℕ) → src j < 256) (within : to_read ≤ size) where
  -- The bytes before `offset` that are wanted have been read, and the rest of the buffer is as before.
  pub record HasRead (offset : ℕ) (r : Bool × Reading) : Type 0 where
    pub done : r.0 ≡ true
    pub healthy : IsHealthy r.1.drive
    pub disk : r.1.drive.sectors ≡ sectors
    pub progress : r.1.bytes_read ≡ (if ltb to_read offset then to_read else offset)
    pub copied : (j : ℕ) → j < r.1.bytes_read → r.1.dest j ≡ src j
    pub rest : (j : ℕ) → r.1.bytes_read ≤ j → r.1.dest j ≡ buffer j

  -- Once everything wanted is read, nothing more happens.
  HasRead-full :
      (offset offset' : ℕ) (r : Reading)
      → to_read ≤ r.bytes_read
      → offset ≤ offset'
      → HasRead offset (true, r)
      → HasRead offset' (true, r)
  HasRead-full offset offset' r full le h = record {
    done = refl;
    healthy = h.healthy;
    disk = h.disk;
    progress = let p = h.progress in ground arith;
    copied = h.copied;
    rest = h.rest;
  }

  -- The bytes of one sector are those of the file.
  sector_byte :
      (offset j : ℕ)
      → offset ≤ j
      → j < to_read
      → u8 (sector_of src size offset (j - offset)) ≡ src j
  sector_byte offset j le lt =
      let at : offset + (j - offset) ≡ j = omega arith in
      let small = bytes j in
      let same : src (offset + (j - offset)) ≡ src j = ap src at in ground arith

  abbrev chunk_of : ℕ → ℕ
  chunk_of done = if ltb (to_read - done) sector_size then to_read - done else sector_size

  copied_sector :
      (content : ℕ → ℕ) (b : ℕ)
      → b < sector_size
      → copy_bytes sector_size 0 0 content (λ b. 0) b ≡ content b
  copied_sector content b lt = copy_bytes_lem sector_size 0 0 content (λ b. 0) b ∙ (ground arith)

  -- One more sector.
  take_sector-HasRead :
      (offset : ℕ) (r : Reading) (d : Drive) (lba : ℕ)
      → r.bytes_read < to_read
      → IsHealthy d
      → d.sectors ≡ sectors
      → ((b : ℕ) → b < sector_size → sectors lba b ≡ u8 (sector_of src size offset b))
      → HasRead offset (true, r)
      → HasRead
          (offset + sector_size)
          (true, take_sector to_read (copy_bytes sector_size 0 0 (d.sectors lba) (λ b. 0)) d r)
  unfolding take_sector
  take_sector-HasRead offset r d lba lt healthy disk held h = record {
    done = refl;
    healthy = healthy;
    disk = disk;
    progress = let p = h.progress in ground arith;
    copied = λ j p.
        let br = r.bytes_read in
        let content = copy_bytes sector_size 0 0 (d.sectors lba) (λ b. 0) in
        let step = copy_bytes_lem (chunk_of br) br 0 content r.dest j in
        elim (dec_lt j br) [
          | yes old ↦ let same = h.copied j old in ground arith
          | no new ↦
              let q = h.progress in
              let at_br : br ≡ offset = ground arith in
              let small : j - br < sector_size = ground arith in
              let below : j < to_read = ground arith in
              let read : content (0 + (j - br)) ≡ src j =
                copied_sector (d.sectors lba) (0 + (j - br)) (omega arith)
                ∙ ap (λ s. s lba (0 + (j - br))) disk
                ∙ held (0 + (j - br)) (omega arith)
                ∙ ap (λ b. u8 (sector_of src size offset b)) (omega arith)
                ∙ sector_byte offset j (omega arith) below in
              ground arith
        ];
    rest = λ j p.
        let br = r.bytes_read in
        let content = copy_bytes sector_size 0 0 (d.sectors lba) (λ b. 0) in
        let step = copy_bytes_lem (chunk_of br) br 0 content r.dest j in
        let same = h.rest j in ground arith;
  }

  read_one :
      (x : Extent) (i left : ℕ) (r : Reading)
      → r.bytes_read < to_read
      → x.start_lba + i < total_disk_sectors
      → IsHealthy r.drive
      → read_blocks (suc left) i x to_read r
        ≡ read_blocks left (i + 1) x to_read (
            take_sector to_read
              (copy_bytes sector_size 0 0 (r.drive.sectors (x.start_lba + i)) (λ b. 0))
              (waited (waited r.drive))
              r)
  unfolding read_blocks
  read_one x i left r lt inside h =
      let lba : u32 (x.start_lba + i) ≡ x.start_lba + i = omega arith in
      let test : ltb r.bytes_read to_read ≡ true = ground arith in
      let next = read_blocks left (i + 1) x to_read in
      let got = read_sectors-healthy (x.start_lba + i) (λ b. 0) r.drive (omega arith) h in
      ap
        (λ b.
          if b
          then after_read (read_sectors (u32 (x.start_lba + i)) 1 (λ b. 0) r.drive) to_read r next
          else (true, r))
        test
      ∙ ap (λ l. after_read (read_sectors l 1 (λ b. 0) r.drive) to_read r next) lba
      ∙ ap (λ g. after_read g to_read r next) got

  read_stop :
      (x : Extent) (i left : ℕ) (r : Reading)
      → to_read ≤ r.bytes_read
      → read_blocks (suc left) i x to_read r ≡ (true, r)
  unfolding read_blocks
  read_stop x i left r full = ground arith

  -- The sectors of the drive hold these blocks.
  abbrev pub IsHeld : Extent → ℕ → Type 0
  IsHeld x offset =
      (j b : ℕ)
      → j < x.block_count
      → b < sector_size
      → sectors (x.start_lba + j) b ≡ u8 (sector_of src size (offset + j * sector_size) b)

  read_blocks-HasRead :
      (left i : ℕ) (x : Extent) (start : ℕ) (r : Reading)
      → x.start_lba + (i + left) ≤ total_disk_sectors
      → i + left ≤ x.block_count
      → IsHeld x start
      → HasRead (start + i * sector_size) (true, r)
      → HasRead (start + (i + left) * sector_size) (read_blocks left i x to_read r)
  unfolding read_blocks
  read_blocks-HasRead zero i x start r fits count held h =
      subst (λ n. HasRead n (true, r)) (omega arith) h
  read_blocks-HasRead (suc left) i x start r fits count held h =
      elim (dec_lt r.bytes_read to_read) [
        | no full ↦
            subst (HasRead (start + (i + suc left) * sector_size))
              (sym (read_stop x i left r (omega arith)))
              (HasRead-full (start + i * sector_size) (start + (i + suc left) * sector_size) r
                (omega arith) (omega arith) h)
        | yes lt ↦
            let d = r.drive in
            let lba = x.start_lba + i in
            let r' =
              take_sector to_read (copy_bytes sector_size 0 0 (d.sectors lba) (λ b. 0))
                (waited (waited d)) r in
            let healthy : IsHealthy (waited (waited d)) =
              (let g = h.healthy in record { answered = g.answered; no_fault = g.no_fault }) in
            let one =
              take_sector-HasRead (start + i * sector_size) r (waited (waited d)) lba lt healthy
                h.disk (λ b q. held i b (omega arith) q) h in
            let more =
              read_blocks-HasRead left (i + 1) x start r' (omega arith) (omega arith) held
                (subst (λ n. HasRead n (true, r')) (omega arith) one) in
            subst (HasRead (start + (i + suc left) * sector_size))
              (sym (read_one x i left r lt (omega arith) h.healthy))
              (subst (λ n. HasRead n (read_blocks left (i + 1) x to_read r')) (omega arith) more)
      ]

  read_extent_stop :
      (left e : ℕ) (xs : ℕ → Extent) (r : Reading)
      → to_read ≤ r.bytes_read
      → read_extents (suc left) e xs to_read r ≡ (true, r)
  unfolding read_extents
  read_extent_stop left e xs r full = ground arith

  read_extent_on :
      (left e : ℕ) (xs : ℕ → Extent) (r r' : Reading)
      → r.bytes_read < to_read
      → read_blocks (xs e).block_count 0 (xs e) to_read r ≡ (true, r')
      → read_extents (suc left) e xs to_read r ≡ read_extents left (e + 1) xs to_read r'
  unfolding read_extents
  read_extent_on left e xs r r' lt done =
      let test : ltb r.bytes_read to_read ≡ true = ground arith in
      let next = read_extents left (e + 1) xs to_read in
      ap
        (λ b.
          if b
          then then_read (read_blocks (xs e).block_count 0 (xs e) to_read r) next
          else (true, r))
        test
      ∙ ap (λ g. then_read g next) done

  HasRead-pair : (offset : ℕ) (r : Bool × Reading) → HasRead offset r → r ≡ (true, r.1)
  HasRead-pair offset (true, r) h = refl
  HasRead-pair offset (false, r) h = let d = h.done in ground arith

  pub read_extents-HasRead :
      (left e : ℕ) (xs : ℕ → Extent) (r : Reading)
      → AreInOrder left e xs
      → ((k : ℕ) → e ≤ k → k < e + left → IsHeld (xs k) (total_blocks k xs * sector_size))
      → HasRead (total_blocks e xs * sector_size) (true, r)
      → HasRead (total_blocks (e + left) xs * sector_size) (read_extents left e xs to_read r)
  unfolding read_extents
  read_extents-HasRead zero e xs r o held h =
      subst (λ n. HasRead (total_blocks n xs * sector_size) (true, r)) (omega arith) h
  read_extents-HasRead (suc left) e xs r o held h = elim (dec_lt r.bytes_read to_read) [
    | no full ↦
        let grows = total_blocks-grow (suc left) e xs in
        subst (HasRead (total_blocks (e + suc left) xs * sector_size))
          (sym (read_extent_stop left e xs r (omega arith)))
          (HasRead-full (total_blocks e xs * sector_size)
            (total_blocks (e + suc left) xs * sector_size) r (omega arith) (omega arith) h)
    | yes lt ↦
        let x = xs e in
        let inside = (o.in_data e (omega arith) (omega arith)).inside in
        let one =
          read_blocks-HasRead x.block_count 0 x (total_blocks e xs * sector_size) r (omega arith)
            (omega arith) (held e (omega arith) (omega arith))
            (subst (λ n. HasRead n (true, r)) (omega arith) h) in
        let r' = (read_blocks x.block_count 0 x to_read r).1 in
        let pair = HasRead-pair _ _ one in
        let next = total_blocks-next e xs in
        let more =
          read_extents-HasRead left (e + 1) xs r' (AreInOrder-tail left e xs o)
            (λ k p q. held k (omega arith) (omega arith))
            (subst (λ n. HasRead n (true, r')) (omega arith) (subst (HasRead _) pair one)) in
        let shift : e + 1 + left ≡ e + suc left = omega arith in
        subst (HasRead (total_blocks (e + suc left) xs * sector_size))
          (sym (read_extent_on left e xs r r' lt pair))
          (subst
            (λ n.
              HasRead (total_blocks n xs * sector_size) (read_extents left (e + 1) xs to_read r'))
            shift more)
  ]
