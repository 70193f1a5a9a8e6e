-- ===== src/Fs/Files/Data.antt =====
-- Where `write` puts the bytes of a file on a healthy drive.
use venom_os.Base.{
  ℕ, zero, suc, ◌+◌, ◌-◌, ◌*◌, ◌≤◌, ◌<◌, ◌≡◌, ◌≢◌, Bool, true, false, refl, sym, ◌∙◌, ap, subst,
  arith, ◌⊎◌, inl, inr, ℕ_discrete,
}
use venom_os.Base.Memory.{u8, u32}
use venom_os.Ata.{Drive, sector_size, write_sectors}
use venom_os.Ata.Sectors.{IsHealthy, Writes, write_sectors-Writes}
use venom_os.Fs.{Extent, total_disk_sectors}
use venom_os.Fs.Blocks.Total.{total_blocks, total_blocks-next}
use venom_os.Fs.Owners.{IsInData}
use venom_os.Fs.Files.{sector_of, write_blocks, then_write, write_extents}

-- The blocks of an extent from its `i`-th on hold the bytes from `offset` on.
record WritesBlocks (src : ℕ → ℕ) (size left i : ℕ) (x : Extent) (offset : ℕ) (d : Drive)
    (r : Bool × ℕ × Drive) : Type 0 where
  pub done : r.0 ≡ true
  pub next : r.1 ≡ offset + left * sector_size
  pub healthy : IsHealthy r.2
  pub held :
      (j b : ℕ)
      → j < left
      → b < sector_size
      → r.2.sectors (x.start_lba + (i + j)) b ≡ u8 (sector_of src size (offset + j * sector_size) b)
  pub kept :
      (at : ℕ)
      → (at < x.start_lba + i) ⊎ (x.start_lba + (i + left) ≤ at)
      → r.2.sectors at ≡ d.sectors at

write_block :
    (src : ℕ → ℕ) (size left i : ℕ) (x : Extent) (offset : ℕ) (d : Drive)
    → (write_sectors (u32 (x.start_lba + i)) 1 (sector_of src size offset) d).0 ≡ true
    → write_blocks (suc left) i x src size offset d
      ≡ write_blocks left
          (i + 1)
          x
          src
          size
          (offset + sector_size)
          (write_sectors (u32 (x.start_lba + i)) 1 (sector_of src size offset) d).1
unfolding write_blocks
write_block src size left i x offset d done = rw (done, write_blocks) refl

weaken :
    (start i left at : ℕ)
    → (at < start + i) ⊎ (start + (i + suc left) ≤ at)
    → (at < start + (i + 1)) ⊎ (start + (i + 1 + left) ≤ at)
weaken start i left at (inl p) = inl (omega arith)
weaken start i left at (inr p) = inr (omega arith)

weaken_one :
    (start i left at : ℕ)
    → (at < start + i) ⊎ (start + (i + suc left) ≤ at)
    → (at < start + i + 0) ⊎ (start + i + 0 + 1 ≤ at)
weaken_one start i left at (inl p) = inl (omega arith)
weaken_one start i left at (inr p) = inr (omega arith)

the_first : (start i j : ℕ) → j ≡ 0 → start + (i + j) ≡ start + i
the_first start i j e = omega arith

the_next : (start i j : ℕ) → j ≢ 0 → start + (i + j) ≡ start + (i + 1 + (j - 1))
the_next start i j e = omega arith

offset_zero : (offset j : ℕ) → j ≡ 0 → offset ≡ offset + j * sector_size
offset_zero offset j e = omega arith

offset_next :
    (offset j : ℕ) → j ≢ 0 → offset + sector_size + (j - 1) * sector_size ≡ offset + j * sector_size
offset_next offset j e = omega arith

write_blocks-WritesBlocks :
    (src : ℕ → ℕ) (size left i : ℕ) (x : Extent) (offset : ℕ) (d : Drive)
    → x.start_lba + (i + left) ≤ total_disk_sectors
    → IsHealthy d
    → WritesBlocks src size left i x offset d (write_blocks left i x src size offset d)
unfolding write_blocks
write_blocks-WritesBlocks src size zero i x offset d fits h = record {
  done = refl;
  next = omega arith;
  healthy = h;
  held = λ j b p q. absurd (omega arith);
  kept = λ at o. refl;
}
write_blocks-WritesBlocks src size (suc left) i x offset d fits h =
    let lba : u32 (x.start_lba + i) ≡ x.start_lba + i = omega arith in
    let bytes = sector_of src size offset in
    let w =
      subst (λ l. Writes 1 0 l bytes d (write_sectors (u32 (x.start_lba + i)) 1 bytes d)) lba
        (write_sectors-Writes (u32 (x.start_lba + i)) 1 bytes d (omega arith) (omega arith) h) in
    let d' = (write_sectors (u32 (x.start_lba + i)) 1 bytes d).1 in
    let r =
      write_blocks-WritesBlocks src size left (i + 1) x (offset + sector_size) d' (omega arith)
        w.healthy in
    let reached = (write_blocks left (i + 1) x src size (offset + sector_size) d').2 in
    subst (WritesBlocks src size (suc left) i x offset d)
      (sym (write_block src size left i x offset d w.done))
      (record {
        done = r.done;
        next = r.next ∙ (omega arith);
        healthy = r.healthy;
        held = λ j b p q. elim (ℕ_discrete j 0) [
          | yes first ↦
              ap (λ k. reached.sectors k b) (the_first x.start_lba i j first)
              ∙ ap (λ f. f b) (r.kept (x.start_lba + i) (inl (omega arith)))
              ∙ ap (λ k. d'.sectors k b) (omega arith)
              ∙ w.inside 0 b (omega arith) (omega arith)
              ∙ ap (λ k. u8 (bytes k)) (omega arith)
              ∙ ap (λ o. u8 (sector_of src size o b)) (offset_zero offset j first)
          | no later ↦
              ap (λ k. reached.sectors k b) (the_next x.start_lba i j later)
              ∙ r.held (j - 1) b (omega arith) q
              ∙ ap (λ o. u8 (sector_of src size o b)) (offset_next offset j later)
        ];
        kept = λ at o.
            r.kept at (weaken x.start_lba i left at o)
            ∙ w.outside at (weaken_one x.start_lba i left at o);
      })

-- The extents from `e` on, in the order of the disk.
pub record AreInOrder (left e : ℕ) (xs : ℕ → Extent) : Type 0 where
  pub in_data : (k : ℕ) → e ≤ k → k < e + left → IsInData (xs k)
  pub sorted :
      (j k : ℕ)
      → e ≤ j
      → j < k
      → k < e + left
      → (xs j).start_lba + (xs j).block_count ≤ (xs k).start_lba

pub AreInOrder-tail :
    (left e : ℕ) (xs : ℕ → Extent) → AreInOrder (suc left) e xs → AreInOrder left (e + 1) xs
AreInOrder-tail left e xs o = record {
  in_data = λ k p q. o.in_data k (omega arith) (omega arith);
  sorted = λ j k p q r. o.sorted j k (omega arith) q (omega arith);
}

-- The blocks of one extent hold the bytes of a file from `offset` on.
abbrev pub Holds : (ℕ → ℕ) → ℕ → Extent → ℕ → Drive → Type 0
Holds src size x offset d =
    (j b : ℕ)
    → j < x.block_count
    → b < sector_size
    → d.sectors (x.start_lba + j) b ≡ u8 (sector_of src size (offset + j * sector_size) b)

pub record WritesExtents (src : ℕ → ℕ) (size left e : ℕ) (xs : ℕ → Extent) (d : Drive)
    (r : Bool × ℕ × Drive) : Type 0 where
  pub done : r.0 ≡ true
  pub healthy : IsHealthy r.2
  pub held :
      (k : ℕ) → e ≤ k → k < e + left → Holds src size (xs k) (total_blocks k xs * sector_size) r.2
  pub kept :
      (at : ℕ)
      → ((k : ℕ)
          → e ≤ k
          → k < e + left
          → (at < (xs k).start_lba) ⊎ ((xs k).start_lba + (xs k).block_count ≤ at))
      → r.2.sectors at ≡ d.sectors at

then_write-done :
    (r : Bool × ℕ × Drive) (k : ℕ → Drive → Bool × ℕ × Drive)
    → r.0 ≡ true
    → then_write r k ≡ k r.1 r.2
then_write-done (true, offset, d) k e = refl
then_write-done (false, offset, d) k e = ground arith

next_offset :
    (xs : ℕ → Extent) (e n : ℕ)
    → n ≡ total_blocks e xs * sector_size + (xs e).block_count * sector_size
    → n ≡ total_blocks (e + 1) xs * sector_size
next_offset xs e n p = let one_more = total_blocks-next e xs in omega arith

from_zero : (j : ℕ) → j ≡ 0 + j
from_zero j = omega arith

from_start :
    (start count at : ℕ)
    → (at < start) ⊎ (start + count ≤ at)
    → (at < start + 0) ⊎ (start + (0 + count) ≤ at)
from_start start count at (inl p) = inl (omega arith)
from_start start count at (inr p) = inr (omega arith)

pub write_extents-WritesExtents :
    (src : ℕ → ℕ) (size left e : ℕ) (xs : ℕ → Extent) (d : Drive)
    → AreInOrder left e xs
    → IsHealthy d
    → WritesExtents src size left e xs d
        (write_extents left e xs src size (total_blocks e xs * sector_size) d)
unfolding write_extents
write_extents-WritesExtents src size zero e xs d o h = record {
  done = refl;
  healthy = h;
  held = λ k p q. absurd (omega arith);
  kept = λ at a. refl;
}
write_extents-WritesExtents src size (suc left) e xs d o h =
    let x = xs e in
    let offset = total_blocks e xs * sector_size in
    let here = o.in_data e (omega arith) (omega arith) in
    let inside = here.inside in
    let w = write_blocks-WritesBlocks src size x.block_count 0 x offset d (omega arith) h in
    let d' = (write_blocks x.block_count 0 x src size offset d).2 in
    let next = next_offset xs e _ w.next in
    let r =
      write_extents-WritesExtents src size left (e + 1) xs d' (AreInOrder-tail left e xs o)
        w.healthy in
    let reached =
      (write_extents left (e + 1) xs src size (total_blocks (e + 1) xs * sector_size) d').2 in
    let here_holds : Holds src size x offset reached = λ j b p q.
      ap (λ f. f b)
        (r.kept (x.start_lba + j) (λ k p' q'.
          let s = o.sorted e k (omega arith) (omega arith) (omega arith) in inl (omega arith)))
      ∙ ap (λ n. d'.sectors (x.start_lba + n) b) (from_zero j)
      ∙ w.held j b p q in
    subst (WritesExtents src size (suc left) e xs d)
      (sym
        (then_write-done _ _ w.done ∙ ap (λ n. write_extents left (e + 1) xs src size n d') next))
      (record {
        done = r.done;
        healthy = r.healthy;
        held = λ k p q. elim (ℕ_discrete k e) [
          | yes same ↦
              subst (λ n. Holds src size (xs n) (total_blocks n xs * sector_size) reached)
                (sym same) here_holds
          | no other ↦ r.held k (omega arith) (omega arith)
        ];
        kept = λ at a.
            r.kept at (λ k p q. a k (omega arith) (omega arith))
            ∙ w.kept at (from_start x.start_lba x.block_count at (a e (omega arith) (omega arith)));
      })
