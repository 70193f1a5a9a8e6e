-- ===== src/Fat32/Read/Sectors.antt =====
-- What `read` of fat32.cpp takes from the sectors of a cluster.
use venom_os.Base.{
  ℕ, zero, suc, ◌+◌, ◌-◌, ◌*◌, ◌≤◌, ◌<◌, ◌≡◌, if◌then◌else◌, true, false, some, ltb, leb, ◌&&◌,
  refl, sym, ◌∙◌, ap, subst, arith, Bool-cases, Option-cases, inl, inr, ◌⊎◌,
}
use venom_os.Base.Memory.{u32}
use venom_os.Base.Copy.{copy_bytes_lem}
use venom_os.Fat32.{Sector, Volume, sector_size, cluster_sector, read_volume_sector}
use venom_os.Fat32.Read.{Progress, copy_chunk, read_sectors}
use venom_os.Fat32.Read.Buffer.{Within, read_sectors-Within, copy_chunk-Within}

-- The byte is byte `b` of the `s`-th sector of the cluster, which can be read.
abbrev pub IsByteOf : Volume → ℕ → ℕ → ℕ → ℕ → Type 0
IsByteOf vol cluster s b byte =
    (bytes : Sector) × (read_volume_sector vol (u32 (cluster_sector vol cluster + s)) ≡ some bytes)
    × (byte ≡ bytes b)

copy_chunk-done :
    (limit : ℕ) (bytes : Sector) (g : Progress)
    → g.done < limit
    → (((copy_chunk limit bytes g).done ≡ limit) ⊎ ((copy_chunk limit bytes g).done ≡ g.done + 512))
      × ((copy_chunk limit bytes g).done ≤ g.done + 512)
unfolding copy_chunk
copy_chunk-done limit bytes g h = ground arith

copy_chunk-byte :
    (limit : ℕ) (bytes : Sector) (g : Progress) (b : ℕ)
    → b < 512
    → g.done + b < limit
    → (copy_chunk limit bytes g).dest (g.done + b) ≡ bytes b
unfolding copy_chunk
copy_chunk-byte limit bytes g b small lt =
    let chunk = if ltb sector_size (limit - g.done) then sector_size else limit - g.done in
    let h = copy_bytes_lem chunk g.done 0 bytes g.dest (g.done + b) in
    let test : (leb g.done (g.done + b) && ltb (g.done + b) (g.done + chunk)) ≡ true =
      ground arith in
    h ∙ (rw test (ap bytes (omega arith)))

-- The sectors of a cluster have been read.
pub record HasSectors (limit : ℕ) (vol : Volume) (cluster s left : ℕ) (g g' : Progress)
    : Type 0 where
  pub reached : (g'.done ≡ limit) ⊎ (g'.done ≡ g.done + left * 512)
  pub most : g'.done ≤ g.done + left * 512
  pub bytes :
      (j b : ℕ)
      → j < left
      → b < 512
      → g.done + (j * 512 + b) < limit
      → IsByteOf vol cluster (s + j) b (g'.dest (g.done + (j * 512 + b)))

HasSectors-more :
    (limit : ℕ) (vol : Volume) (cluster s left : ℕ) (bytes : Sector) (g g' : Progress)
    → g.done < limit
    → read_volume_sector vol (u32 (cluster_sector vol cluster + s)) ≡ some bytes
    → Within limit (copy_chunk limit bytes g) g'
    → HasSectors limit vol cluster (s + 1) left (copy_chunk limit bytes g) g'
    → HasSectors limit vol cluster s (suc left) g g'
HasSectors-more limit vol cluster s left bytes g g' lt good w r =
    let (chunk, short) = copy_chunk-done limit bytes g lt in
    let reached = r.reached in
    let most = r.most in
    let bounded = w.bounded in
    let grows = w.grows in
    record {
      reached = ground arith;
      most = omega arith;
      bytes = λ j.
          elim j
            as (λ j.
              (b : ℕ)
              → j < suc left
              → b < 512
              → g.done + (j * 512 + b) < limit
              → IsByteOf vol cluster (s + j) b (g'.dest (g.done + (j * 512 + b)))) [
                | zero ↦ λ b p q k. (
                  bytes,
                  subst
                      (λ i.
                        read_volume_sector vol (u32 (cluster_sector vol cluster + i)) ≡ some bytes)
                      (omega arith) good,
                  w.kept (g.done + (0 * 512 + b)) (ground arith)
                      ∙ (subst (λ i. (copy_chunk limit bytes g).dest i ≡ bytes b) (omega arith)
                          (copy_chunk-byte limit bytes g b q (omega arith))),
                )
                | suc j' ↦ λ b p q k.
                    let full : (copy_chunk limit bytes g).done ≡ g.done + 512 = ground arith in
                    let h = r.bytes j' b (omega arith) q (omega arith) in
                    let at : (copy_chunk limit bytes g).done + (j' * 512 + b)
                        ≡ g.done + (suc j' * 512 + b) =
                      omega arith in
                    let sector : s + 1 + j' ≡ s + suc j' = omega arith in
                    subst (λ i. IsByteOf vol cluster (s + suc j') b (g'.dest i)) at
                      (subst
                        (λ i.
                          IsByteOf vol cluster i b
                            (g'.dest ((copy_chunk limit bytes g).done + (j' * 512 + b))))
                        sector h)
              ];
    }

pub read_sectors-HasSectors :
    (left s limit : ℕ) (vol : Volume) (cluster : ℕ) (g : Progress)
    → g.done ≤ limit
    → (read_sectors left s limit vol cluster g).0 ≡ true
    → HasSectors limit vol cluster s left g (read_sectors left s limit vol cluster g).1
unfolding read_sectors
read_sectors-HasSectors zero s limit vol cluster g h e = record {
  reached = inr (omega arith);
  most = omega arith;
  bytes = λ j b p q k. absurd (omega arith);
}
read_sectors-HasSectors (suc left) s limit vol cluster g h e =
    elim (Bool-cases (ltb g.done limit)) [
      | inr full ↦ rw full (record {
        reached = inl (ground arith);
        most = omega arith;
        bytes = λ j b p q k. absurd (ground arith);
      })
      | inl more ↦
          elim (Option-cases (read_volume_sector vol (u32 (cluster_sector vol cluster + s)))) [
            | inl bad ↦
                let no : false ≡ true = sym (rw (more, bad, read_sectors) refl) ∙ e in
                absurd (ground arith)
            | inr (bytes, good) ↦
                let g₁ = copy_chunk limit bytes g in
                let first = copy_chunk-Within limit bytes g h in
                let ok : (read_sectors left (s + 1) limit vol cluster g₁).0 ≡ true =
                  sym (rw (more, good, read_sectors) refl) ∙ e in
                rw (more, good, read_sectors)
                  (HasSectors-more limit vol cluster s left bytes g
                    (read_sectors left (s + 1) limit vol cluster g₁).1 (ground arith) good
                    (read_sectors-Within left (s + 1) limit vol cluster g₁ first.bounded)
                    (read_sectors-HasSectors left (s + 1) limit vol cluster g₁ first.bounded ok))
          ]
    ]
