-- ===== src/Fat32/Geometry.antt =====
-- What `mount` establishes of a volume, and where the sectors of its clusters lie.
use venom_os.Base.{
  ℕ, ◌+◌, ◌-◌, ◌*◌, ◌/◌, ◌^◌, ◌≤◌, ◌<◌, ◌≡◌, true, ◌&&◌, some, refl, sym, subst, arith, Bool-cases,
  Option-cases, inl, inr,
}
use native.Mathlib.Nat.{div-le_self, div-mul-le_self, mul-le-mul_right}
use venom_os.Base.Memory.{u32}
use venom_os.Base.Bytes.{read_le, read_le-lt_1, read_le-lt_2, read_le-lt_4}
use venom_os.Fat32.{
  Sector, Reader, Volume, Driver, BootSector, boot_sector, boot_data_start, boot_clusters, is_fat32,
  volume_of, mount_sector, mount, no_sector, valid_cluster, cluster_sector, has_signature,
}

-- The fields of a mounted volume fit together: its clusters lie behind the FAT and before the last
-- sector, the FAT has a link for each, and the root is one of them.
pub record IsVolume (v : Volume) (total : ℕ) : Type 0 where
  pub cluster_size : (1 ≤ v.sectors_per_cluster) × (v.sectors_per_cluster < 256)
  pub small : total < 2 ^ 32
  pub reserved : (1 ≤ v.reserved_sectors) × (v.reserved_sectors < 2 ^ 16)
  pub fat_first : v.reserved_sectors + v.fat_sectors ≤ v.data_start
  pub clusters_fit : v.data_start + v.cluster_count * v.sectors_per_cluster ≤ total
  pub links_fit : v.cluster_count + 2 ≤ v.fat_sectors * 128
  pub many : 65525 ≤ v.cluster_count
  pub root : (2 ≤ v.root_cluster) × (v.root_cluster < v.cluster_count + 2)

-- The fields have the widths that the boot sector gives them.
pub record HasWidths (b : BootSector) : Type 0 where
  pub spc : b.spc < 2 ^ 8
  pub reserved : b.reserved < 2 ^ 16
  pub total32 : b.total32 < 2 ^ 32

boot_sector-HasWidths : (bs : Sector) → HasWidths (boot_sector bs)
unfolding boot_sector
boot_sector-HasWidths bs = record {
  spc = read_le-lt_1 bs 13;
  reserved = read_le-lt_2 bs 14;
  total32 = read_le-lt_4 bs 32;
}

-- The checks of `mount`, as facts about the fields.
pub record Passes (b : BootSector) : Type 0 where
  pub cluster_size : 1 ≤ b.spc
  pub reserved : 1 ≤ b.reserved
  pub fats : 1 ≤ b.num_fats
  pub data_inside : boot_data_start b < b.total32
  pub many : 65525 ≤ boot_clusters b
  pub links_fit : boot_clusters b + 2 ≤ b.fat32_sectors * 128
  pub root : (2 ≤ b.root_cluster) × (b.root_cluster < u32 (boot_clusters b + 2))

is_fat32-Passes : (b : BootSector) → is_fat32 b ≡ true → Passes b
unfolding is_fat32
is_fat32-Passes b e = record {
  cluster_size = ground arith;
  reserved = ground arith;
  fats = ground arith;
  data_inside = ground arith;
  many = ground arith;
  links_fit = ground arith;
  root = ground arith;
}

boot_clusters_fit :
    (b : BootSector)
    → HasWidths b
    → Passes b
    → (boot_clusters b ≡ (b.total32 - boot_data_start b) / b.spc)
      × (boot_clusters b * b.spc ≤ b.total32 - boot_data_start b)
      × (b.reserved + b.fat32_sectors ≤ boot_data_start b)
boot_clusters_fit b w p =
    (exact, subst (λ (n : ℕ). n * b.spc ≤ room) (sym exact) times, omega (arith, fats))
  where
    room : ℕ
    room = b.total32 - boot_data_start b

    le : room / b.spc ≤ room
    le = div-le_self room b.spc

    exact : boot_clusters b ≡ room / b.spc
    exact = omega (arith, le, w.total32)

    times : room / b.spc * b.spc ≤ room
    times = div-mul-le_self room b.spc

    fats : b.fat32_sectors ≤ b.num_fats * b.fat32_sectors
    fats = omega (arith, mul-le-mul_right b.fat32_sectors p.fats)

volume_of-IsVolume :
    (reader : Reader) (lba : ℕ) (b : BootSector)
    → HasWidths b
    → is_fat32 b ≡ true
    → IsVolume (volume_of reader lba b) b.total32
unfolding volume_of
volume_of-IsVolume reader lba b w e =
    let p = is_fat32-Passes b e in
    let fit = boot_clusters_fit b w p in
    record {
      cluster_size = omega (arith, p.cluster_size, w.spc);
      small = w.total32;
      reserved = omega (arith, p.reserved, w.reserved);
      fat_first = omega (arith, p.data_inside, w.total32, fit.2);
      clusters_fit = omega (arith, p.data_inside, w.total32, fit.2);
      links_fit = p.links_fit;
      many = p.many;
      root = omega (arith, p.root, fit.2, w.total32);
    }

-- When `mount` reports success, the volume that it leaves fits together, within the number of
-- sectors that the boot sector gives, and nothing of the FAT is cached.
pub mount-IsVolume :
    (reader : Reader) (lba : ℕ) (d : Driver)
    → (mount (some reader) lba d).0 ≡ true
    → (v : Volume) × (bs : Sector) × ((mount (some reader) lba d).1.vol ≡ some v)
      × (reader lba ≡ some bs)
      × IsVolume v (read_le 4 bs 32)
      × ((mount (some reader) lba d).1.cache.sector ≡ no_sector)
unfolding mount mount_sector
mount-IsVolume reader lba d e = elim (Option-cases (reader lba)) [
  | inl bad ↦ absurd (ground (arith, bad))
  | inr (bs, good) ↦ elim (Bool-cases (has_signature bs && is_fat32 (boot_sector bs))) [
    | inr wrong ↦ absurd (ground (arith, good, wrong))
    | inl right ↦ (
      volume_of reader lba (boot_sector bs),
      bs,
      ground (arith, good, right),
      good,
      unfold boot_sector in
          volume_of-IsVolume reader lba (boot_sector bs) (boot_sector-HasWidths bs) (ground arith),
      refl,
    )
  ]
]

-- In a volume that fits together, every sector of a valid cluster lies behind the FAT and before the end of the volume, and its
-- number does not wrap around.
pub cluster_sector_inside :
    (v : Volume) (total c s : ℕ)
    → IsVolume v total
    → valid_cluster v c ≡ true
    → s < v.sectors_per_cluster
    → (v.data_start ≤ cluster_sector v c + s) × (cluster_sector v c + s < total)
unfolding cluster_sector
cluster_sector_inside v total c s w ok h = omega (arith, w.clusters_fit, w.small, below, times)
  where
    below : c - 2 + 1 ≤ v.cluster_count
    below = ground (arith, w.clusters_fit, w.small, w.links_fit)

    times : (c - 2 + 1) * v.sectors_per_cluster ≤ v.cluster_count * v.sectors_per_cluster
    times = mul-le-mul_right v.sectors_per_cluster below

cluster_sector_before :
    (v : Volume) (total c d s r : ℕ)
    → IsVolume v total
    → valid_cluster v c ≡ true
    → valid_cluster v d ≡ true
    → s < v.sectors_per_cluster
    → c < d
    → cluster_sector v c + s < cluster_sector v d + r
unfolding cluster_sector
cluster_sector_before v total c d s r w okc okd h lt =
    omega (arith, w.clusters_fit, w.small, d_below, d_times, c_times)
  where
    d_below : d - 2 + 1 ≤ v.cluster_count
    d_below = ground (arith, w.clusters_fit, w.small, w.links_fit)

    d_times : (d - 2 + 1) * v.sectors_per_cluster ≤ v.cluster_count * v.sectors_per_cluster
    d_times = mul-le-mul_right v.sectors_per_cluster d_below

    c_times : (c - 2 + 1) * v.sectors_per_cluster ≤ (d - 2) * v.sectors_per_cluster
    c_times = mul-le-mul_right v.sectors_per_cluster (ground arith)

-- In a volume that fits together, different valid clusters share no sector.
pub cluster_sector_apart :
    (v : Volume) (total c d s r : ℕ)
    → IsVolume v total
    → valid_cluster v c ≡ true
    → valid_cluster v d ≡ true
    → s < v.sectors_per_cluster
    → r < v.sectors_per_cluster
    → cluster_sector v c + s ≡ cluster_sector v d + r
    → c ≡ d
cluster_sector_apart v total c d s r w okc okd hs hr e = omega (arith, c_first, d_first)
  where
    c_first : ¬ (c < d)
    c_first lt = omega (arith, cluster_sector_before v total c d s r w okc okd hs lt, e)

    d_first : ¬ (d < c)
    d_first lt = omega (arith, cluster_sector_before v total d c r s w okd okc hr lt, e)
