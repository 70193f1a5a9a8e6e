-- ===== src/Fat32.antt =====
-- kernel/fat32.cpp: the read-only FAT32 driver, its volume and its cluster chains. The disk is the
-- sector reader that `mount` is given: a function from a block address to the 512 bytes there, or
-- `none` when the read fails.
pub mod Names
pub mod Files
pub mod Geometry
pub mod Cache
pub mod Read
mod Tests
use venom_os.Base.{
  ℕ, zero, suc, ◌+◌, ◌-◌, ◌*◌, ◌/◌, ◌%◌, ◌^◌, bit_and, ◌==◌, if◌then◌else◌, Bool, true, false, ◌&&◌,
  ◌||◌, Option, none, some, ltb, leb,
}
use venom_os.Base.Memory.{u32}
use venom_os.Base.Bytes.{read_le}

abbrev pub Sector : Type 0
Sector = ℕ → ℕ

-- `ReadSectorsFn`, for one sector.
abbrev pub Reader : Type 0
Reader = ℕ → Option Sector

abbrev pub sector_size : ℕ
sector_size = 512

abbrev pub fat_eoc_min : ℕ
fat_eoc_min = 0x0fff_fff8

abbrev pub fat_bad : ℕ
fat_bad = 0x0fff_fff7

-- What `next_cluster` returns for a bad, free or out-of-range link.
abbrev pub chain_error : ℕ
chain_error = 0xffff_ffff

pub record Volume : Type 0 where
  pub reader : Reader
  pub volume_lba : ℕ
  pub sectors_per_cluster : ℕ
  pub reserved_sectors : ℕ
  pub fat_sectors : ℕ
  pub data_start : ℕ
  pub root_cluster : ℕ
  pub cluster_count : ℕ

-- `fat_cache` and `fat_cache_sector`.
pub record FatCache : Type 0 where
  pub bytes : Sector
  pub sector : ℕ

abbrev pub no_sector : ℕ
no_sector = 0xffff_ffff

-- The driver: `vol`, if it is mounted, and the cache.
pub record Driver : Type 0 where
  pub vol : Option Volume
  pub cache : FatCache

abbrev pub rd16 : Sector → ℕ → ℕ
rd16 p at = read_le 2 p at

abbrev pub rd32 : Sector → ℕ → ℕ
rd32 p at = read_le 4 p at

abbrev pub read_volume_sector : Volume → ℕ → Option Sector
read_volume_sector vol sector = vol.reader (u32 (vol.volume_lba + sector))

abbrev pub valid_cluster : Volume → ℕ → Bool
valid_cluster vol c = leb 2 c && ltb c (u32 (vol.cluster_count + 2))

-- Called on valid clusters only.
pub cluster_sector : Volume → ℕ → ℕ
cluster_sector vol c = u32 (vol.data_start + (c - 2) * vol.sectors_per_cluster)

-- What a FAT entry says about the cluster `c`: the next one, 0 at the end, or an error.
pub link_of : Volume → ℕ → ℕ → ℕ
link_of vol c v =
    if leb fat_eoc_min v
    then 0
    else (if v == fat_bad
        then chain_error
        else (if valid_cluster vol v then (if v == c then chain_error else v) else chain_error))

abbrev pub fat_sector : Volume → ℕ → ℕ
fat_sector vol c = u32 (vol.reserved_sectors + u32 (c * 4) / sector_size)

-- `rd32(&fat_cache[byte_off % SECTOR]) & FAT_MASK`
abbrev pub fat_entry : Sector → ℕ → ℕ
fat_entry bytes c = rd32 bytes (u32 (c * 4) % sector_size) % 2 ^ 28

pub load_fat : Option Sector → ℕ → FatCache → Option FatCache
load_fat none sector cache = none
load_fat (some bytes) sector cache = some (record { bytes = bytes; sector = sector })

-- The cache with the sector wanted, read again only if it holds another one.
pub fetch_fat : Volume → ℕ → FatCache → Option FatCache
fetch_fat vol sector cache =
    if cache.sector == sector
    then some cache
    else load_fat (read_volume_sector vol sector) sector cache

pub next_in : Option FatCache → Volume → ℕ → FatCache → ℕ × FatCache
next_in none vol c cache = (chain_error, record cache { sector = no_sector })
next_in (some cache') vol c cache = (link_of vol c (fat_entry (cache'.bytes) c), cache')

-- `next_cluster`. A failed read forgets what the cache held.
pub next_cluster : Volume → ℕ → FatCache → ℕ × FatCache
next_cluster vol c cache =
    if leb vol.fat_sectors (u32 (c * 4) / sector_size)
    then (chain_error, cache)
    else next_in (fetch_fat vol (fat_sector vol c) cache) vol c cache

-- The fields of the boot sector that `mount` reads.
pub record BootSector : Type 0 where
  pub bytes_per_sector : ℕ
  pub spc : ℕ
  pub reserved : ℕ
  pub num_fats : ℕ
  pub root_entries : ℕ
  pub total16 : ℕ
  pub fat16 : ℕ
  pub total32 : ℕ
  pub fat32_sectors : ℕ
  pub fs_version : ℕ
  pub root_cluster : ℕ

pub boot_sector : Sector → BootSector
boot_sector bs = record {
  bytes_per_sector = rd16 bs 11;
  spc = read_le 1 bs 13;
  reserved = rd16 bs 14;
  num_fats = read_le 1 bs 16;
  root_entries = rd16 bs 17;
  total16 = rd16 bs 19;
  fat16 = rd16 bs 22;
  total32 = rd32 bs 32;
  fat32_sectors = rd32 bs 36;
  fs_version = rd16 bs 42;
  root_cluster = rd32 bs 44;
}

abbrev pub boot_data_start : BootSector → ℕ
boot_data_start b = b.reserved + b.num_fats * b.fat32_sectors

abbrev pub boot_clusters : BootSector → ℕ
boot_clusters b = u32 ((b.total32 - boot_data_start b) / b.spc)

abbrev pub has_signature : Sector → Bool
has_signature bs = read_le 1 bs 510 == 0x55 && read_le 1 bs 511 == 0xaa

-- The checks of the fields, in the order of the code.
pub is_fat32 : BootSector → Bool
is_fat32 b =
    b.bytes_per_sector == sector_size
    && (ltb 0 b.spc && bit_and b.spc (b.spc - 1) == 0)
    && (ltb 0 b.reserved && ltb 0 b.num_fats)
    && (b.root_entries == 0 && b.total16 == 0 && b.fat16 == 0)
    && b.fs_version == 0
    && (ltb 0 b.fat32_sectors && ltb 0 b.total32)
    && ltb (boot_data_start b) b.total32
    && leb 65525 (boot_clusters b)
    && leb (boot_clusters b + 2) (b.fat32_sectors * (sector_size / 4))
    && (leb 2 b.root_cluster && ltb b.root_cluster (u32 (boot_clusters b + 2)))

pub volume_of : Reader → ℕ → BootSector → Volume
volume_of reader volume_lba b = record {
  reader = reader;
  volume_lba = volume_lba;
  sectors_per_cluster = b.spc;
  reserved_sectors = b.reserved;
  fat_sectors = b.fat32_sectors;
  data_start = u32 (boot_data_start b);
  root_cluster = b.root_cluster;
  cluster_count = boot_clusters b;
}

-- `mount` after the boot sector was read.
pub mount_sector : Reader → ℕ → Option Sector → Option Volume
mount_sector reader volume_lba none = none
mount_sector reader volume_lba (some bs) =
    if has_signature bs && is_fat32 (boot_sector bs)
    then some (volume_of reader volume_lba (boot_sector bs))
    else none

abbrev pub mount_with : Option Reader → ℕ → Option Volume
mount_with none volume_lba = none
mount_with (some reader) volume_lba = mount_sector reader volume_lba (reader volume_lba)

abbrev pub is_some : {A : Type 0} → Option A → Bool
is_some none = false
is_some (some a) = true

-- `mount`, for a reader that may be a null pointer. Whatever was mounted before is forgotten.
pub mount : Option Reader → ℕ → Driver → Bool × Driver
mount reader volume_lba d =
    let vol = mount_with reader volume_lba in
    (is_some vol, record { vol = vol; cache = record (d.cache) { sector = no_sector } })
