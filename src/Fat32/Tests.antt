-- ===== src/Fat32/Tests.antt =====
-- A small disk for the driver of fat32.cpp.
use venom_os.Base.{◌≡◌, ◌==◌, if◌then◌else◌, ltb, refl, arith, true, some, none, [], ◌∷◌, inl}
use venom_os.Base.Bytes.{read_le}
use venom_os.Fat32.{
  Sector, Reader, Volume, FatCache, Driver, no_sector, cluster_sector, next_cluster, boot_sector,
  is_fat32, volume_of, mount_sector, mount,
}
use venom_os.Fat32.Names.{
  upper, split_dot, field, short_name_of, to_short_name, split_slash, components,
}
use venom_os.Fat32.Geometry.{IsVolume, mount-IsVolume}
use venom_os.Fat32.Cache.{IsCoherent, link_on_disk, next_cluster-IsCoherent}
use venom_os.Fat32.Files.{
  look_at, walk_entries, walk_sectors, walk_clusters, walk_dir, has_name, look_for, enter,
  resolve_parts, resolve,
}
use venom_os.Fat32.Read.{copy_chunk, read_sectors, read_clusters, read}
use venom_os.Fat32.Read.Contents.{HasRead, read-HasRead}
use venom_os.Fat32.Read.Buffer.{StaysInside, read-StaysInside}

-- One sector for each cluster, two FATs of 600 sectors, 70000 sectors in all.
abbrev boot_bytes : Sector
boot_bytes i =
    if i == 12
    then 2
    else (if i == 13
        then 1
        else (if i == 14
            then 32
            else (if i == 16
                then 2
                else (if i == 32
                    then 0x70
                    else (if i == 33
                        then 0x11
                        else (if i == 34
                            then 1
                            else (if i == 36
                                then 0x58
                                else (if i == 37
                                    then 2
                                    else (if i == 44
                                        then 2
                                        else (if i == 510
                                            then 0x55
                                            else (if i == 511 then 0xaa else 0)))))))))))

-- The root directory has one file, A, of five bytes in cluster 3.
abbrev root_bytes : Sector
root_bytes i =
    if i == 0
    then b'A'
    else (if ltb i 12 then b' ' else (if i == 26 then 3 else (if i == 28 then 5 else 0)))

abbrev fat_bytes : Sector
fat_bytes i = if ltb i 16 then 0xff else 0

abbrev disk : Reader
disk lba =
    if lba == 0
    then some boot_bytes
    else (if lba == 32
        then some fat_bytes
        else (if lba == 1232
            then some root_bytes
            else (if lba == 1233 then some (λ i. 7) else none)))

abbrev vol : Volume
vol = record {
  reader = disk;
  volume_lba = 0;
  sectors_per_cluster = 1;
  reserved_sectors = 32;
  fat_sectors = 600;
  data_start = 1232;
  root_cluster = 2;
  cluster_count = 68768;
}

abbrev empty_cache : FatCache
empty_cache = record { bytes = λ i. 0; sector = no_sector }

abbrev unmounted : Driver
unmounted = record { vol = none; cache = empty_cache }

vol-IsVolume : IsVolume vol 70000
vol-IsVolume = record {
  cluster_size = omega arith;
  small = omega arith;
  reserved = omega arith;
  fat_first = omega arith;
  clusters_fit = omega arith;
  links_fit = omega arith;
  many = omega arith;
  root = omega arith;
}

mounts : (mount (some disk) 0 unmounted).0 ≡ true
unfolding mount mount_sector boot_sector is_fat32 volume_of read_le
mounts = refl

mount-IsVolume_example :
    (v : Volume) × (bs : Sector) × ((mount (some disk) 0 unmounted).1.vol ≡ some v)
    × (disk 0 ≡ some bs)
    × IsVolume v (read_le 4 bs 32)
    × ((mount (some disk) 0 unmounted).1.cache.sector ≡ no_sector)
mount-IsVolume_example = mount-IsVolume disk 0 unmounted mounts

next_cluster-IsCoherent_example :
    ((next_cluster vol 3 empty_cache).0 ≡ link_on_disk vol 3)
    × IsCoherent vol (next_cluster vol 3 empty_cache).1
next_cluster-IsCoherent_example = next_cluster-IsCoherent vol 3 empty_cache (omega arith) (inl refl)

reads : (read (b'a' ∷ []) 64 (λ i. 0) vol empty_cache).success ≡ true
unfolding read resolve resolve_parts components split_slash enter to_short_name split_dot
    short_name_of field upper walk_dir walk_clusters walk_sectors walk_entries look_at look_for
    has_name cluster_sector read_le read_clusters read_sectors copy_chunk
reads = refl

read-StaysInside_example : StaysInside 64 (λ i. 0) (read (b'a' ∷ []) 64 (λ i. 0) vol empty_cache)
read-StaysInside_example = read-StaysInside (b'a' ∷ []) 64 (λ i. 0) vol empty_cache

read-HasRead_example :
    HasRead 64 vol
      (resolve (b'a' ∷ []) vol empty_cache)
      (read (b'a' ∷ []) 64 (λ i. 0) vol empty_cache)
read-HasRead_example = read-HasRead (b'a' ∷ []) 64 (λ i. 0) vol empty_cache reads
