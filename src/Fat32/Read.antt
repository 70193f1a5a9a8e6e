-- ===== src/Fat32/Read.antt =====
-- `read` of kernel/fat32.cpp.
pub mod Buffer
pub mod Sectors
pub mod Contents
use venom_os.Base.{
  ℕ, zero, suc, ◌+◌, ◌-◌, ◌*◌, ◌/◌, ◌%◌, ◌^◌, ◌==◌, if◌then◌else◌, Bool, true, false, ◌&&◌, ◌||◌,
  Option, none, some, ltb, leb, List, min,
}
use venom_os.Base.Memory.{u32}
use venom_os.Base.Copy.{copy_bytes}
use venom_os.Fat32.{
  Sector, Volume, FatCache, sector_size, chain_error, valid_cluster, cluster_sector,
  read_volume_sector, next_cluster,
}
use venom_os.Fat32.Files.{Found, resolve}

-- The bytes copied so far and the buffer.
pub record Progress : Type 0 where
  pub done : ℕ
  pub dest : ℕ → ℕ

-- The chunk of one sector.
unfoldable pub copy_chunk : ℕ → Sector → Progress → Progress
copy_chunk to_read bytes g =
    let chunk = if ltb sector_size (to_read - g.done) then sector_size else to_read - g.done in
    record { done = g.done + chunk; dest = copy_bytes chunk g.done 0 bytes g.dest }

abbrev pub on_sector : ℕ → Option Sector → Progress → (Progress → Bool × Progress) → Bool × Progress
on_sector to_read none g k = (false, g)
on_sector to_read (some bytes) g k = k (copy_chunk to_read bytes g)

-- The sectors of a cluster from the `s`-th on, with the rounds left; false when one cannot be read.
unfoldable pub read_sectors : ℕ → ℕ → ℕ → Volume → ℕ → Progress → Bool × Progress
read_sectors zero s to_read vol cluster g = (true, g)
read_sectors (suc left) s to_read vol cluster g =
    if ltb g.done to_read
    then on_sector to_read (read_volume_sector vol (u32 (cluster_sector vol cluster + s))) g
        (read_sectors left (s + 1) to_read vol cluster)
    else (true, g)

-- What `read` returns and what it leaves: `*out_bytes_read`, the buffer, and the FAT cache.
pub record ReadResult : Type 0 where
  pub success : Bool
  pub bytes_read : ℕ
  pub progress : Progress
  pub cache : FatCache

abbrev pub finish : Bool → ℕ → Progress → FatCache → ReadResult
finish success bytes_read g cache = record {
  success = success;
  bytes_read = bytes_read;
  progress = g;
  cache = cache;
}

abbrev pub read_link : Progress → ℕ × FatCache → (ℕ → Progress → FatCache → ReadResult) → ReadResult
read_link g (cluster, cache) k =
    if cluster == 0 || cluster == chain_error
    then finish false g.done g cache
    else k cluster g cache

-- The rest of a round of the loop, after the sectors of a cluster.
abbrev pub read_on :
    Bool × Progress
    → ℕ
    → Volume
    → ℕ
    → FatCache
    → (ℕ → Progress → FatCache → ReadResult)
    → ReadResult
read_on (false, g) to_read vol cluster cache k = finish false g.done g cache
read_on (true, g) to_read vol cluster cache k =
    if leb to_read g.done
    then finish true g.done g cache
    else read_link g (next_cluster vol cluster cache) k

-- The loop over the clusters, with the steps left. A cluster outside the volume, or more steps than
-- it has clusters, leave `*out_bytes_read` at 0.
unfoldable pub read_clusters : ℕ → ℕ → Volume → ℕ → Progress → FatCache → ReadResult
read_clusters zero to_read vol cluster g cache =
    if ltb g.done to_read then finish false 0 g cache else finish true g.done g cache
read_clusters (suc left) to_read vol cluster g cache =
    if ltb g.done to_read
    then (if valid_cluster vol cluster
        then read_on (read_sectors vol.sectors_per_cluster 0 to_read vol cluster g) to_read vol
            cluster cache (read_clusters left to_read vol)
        else finish false 0 g cache)
    else finish true g.done g cache

abbrev pub read_found : ℕ → (ℕ → ℕ) → Volume → Option Found × FatCache → ReadResult
read_found capacity dest vol (none, cache) = finish false 0 (record { done = 0; dest = dest }) cache
read_found capacity dest vol (some f, cache) =
    if f.is_dir
    then finish false 0 (record { done = 0; dest = dest }) cache
    else read_clusters vol.cluster_count (if ltb capacity f.size then capacity else f.size) vol
        f.first_cluster (record { done = 0; dest = dest }) cache

-- `read`, on a mounted volume.
unfoldable pub read : List ℕ → ℕ → (ℕ → ℕ) → Volume → FatCache → ReadResult
read path capacity dest vol cache = read_found capacity dest vol (resolve path vol cache)
