-- ===== src/Fat32/Files.antt =====
-- Directories and files of kernel/fat32.cpp: the walk of a directory, paths, and the read of a file.
use venom_os.Base.{
  ℕ, zero, suc, ◌+◌, ◌*◌, ◌^◌, ◌==◌, if◌then◌else◌, Bool, true, false, ◌&&◌, ◌||◌, Option, none,
  some, List, [], ◌∷◌, ◌++◌,
}
use venom_os.Base.Bits.{bit}
use venom_os.Base.Memory.{u8, u32}
use venom_os.Fat32.{
  Sector, Volume, FatCache, chain_error, rd16, rd32, valid_cluster, cluster_sector,
  read_volume_sector, next_cluster,
}
use venom_os.Fat32.Names.{to_short_name, components}

abbrev pub attr_lfn : ℕ
attr_lfn = 0x0f

-- The 32 bytes of a directory entry.
abbrev pub Entry : Type 0
Entry = ℕ → ℕ

-- `attr & ATTR_DIRECTORY` and `attr & ATTR_VOLUME_ID`
abbrev pub is_directory : Entry → Bool
is_directory e = bit (e 11) 4 == 1

abbrev pub is_volume_id : Entry → Bool
is_volume_id e = bit (e 11) 3 == 1

-- How a part of the walk ends: with the next part, with `return true`, or with `return false`.
pub data Walk : Type 0 where
  going stopped failed : Walk

-- `visit` sees an entry and what it has gathered; true stops the walk.
abbrev pub Visit : Type 0 → Type 0
Visit A = Entry → A → Bool × A

abbrev pub and_on : {A : Type 0} → Walk × A → (A → Walk × A) → Walk × A
and_on (going, a) k = k a
and_on (stopped, a) k = (stopped, a)
and_on (failed, a) k = (failed, a)

abbrev pub visited : {A : Type 0} → Bool × A → Walk × A
visited (true, a) = (stopped, a)
visited (false, a) = (going, a)

-- One round of the loop over the entries of a sector.
unfoldable pub look_at : {A : Type 0} → Visit A → Entry → A → Walk × A
look_at visit e a =
    if u8 (e 0) == 0
    then (stopped, a)
    else (if u8 (e 0) == 0xe5
        then (going, a)
        else (if u8 (e 11) == attr_lfn || is_volume_id e then (going, a) else visited (visit e a)))

-- The entries of a sector from the offset on, with the rounds left.
unfoldable pub walk_entries : {A : Type 0} → ℕ → ℕ → Visit A → Sector → A → Walk × A
walk_entries zero off visit bytes a = (going, a)
walk_entries (suc left) off visit bytes a =
    and_on (look_at visit (λ i. bytes (off + i)) a) (walk_entries left (off + 32) visit bytes)

abbrev pub walk_read : {A : Type 0} → Visit A → Option Sector → A → Walk × A
walk_read visit none a = (failed, a)
walk_read visit (some bytes) a = walk_entries 16 0 visit bytes a

-- The sectors of a cluster from the `s`-th on, with the rounds left.
unfoldable pub walk_sectors : {A : Type 0} → ℕ → ℕ → Visit A → Volume → ℕ → A → Walk × A
walk_sectors zero s visit vol cluster a = (going, a)
walk_sectors (suc left) s visit vol cluster a =
    and_on (walk_read visit (read_volume_sector vol (u32 (cluster_sector vol cluster + s))) a)
      (walk_sectors left (s + 1) visit vol cluster)

-- What the walk of a directory returns, what was gathered, and the FAT cache.
abbrev pub Walked : Type 0 → Type 0
Walked A = Bool × A × FatCache

abbrev pub walk_next : {A : Type 0} → A → ℕ × FatCache → (ℕ → A → FatCache → Walked A) → Walked A
walk_next a (cluster, cache) k =
    if cluster == chain_error then (false, a, cache) else k cluster a cache

abbrev pub walk_on :
    {A : Type 0} → Walk × A → Volume → ℕ → FatCache → (ℕ → A → FatCache → Walked A) → Walked A
walk_on (going, a) vol cluster cache k = walk_next a (next_cluster vol cluster cache) k
walk_on (stopped, a) vol cluster cache k = (true, a, cache)
walk_on (failed, a) vol cluster cache k = (false, a, cache)

-- The loop of `walk_dir` over the clusters of the chain, with the steps that are left: as many as
-- the volume has clusters.
unfoldable pub walk_clusters : {A : Type 0} → ℕ → Visit A → Volume → ℕ → A → FatCache → Walked A
walk_clusters zero visit vol cluster a cache =
    if cluster == 0 then (true, a, cache) else (false, a, cache)
walk_clusters (suc left) visit vol cluster a cache =
    if cluster == 0
    then (true, a, cache)
    else (if valid_cluster vol cluster
        then walk_on (walk_sectors vol.sectors_per_cluster 0 visit vol cluster a) vol cluster cache
            (walk_clusters left visit vol)
        else (false, a, cache))

unfoldable pub walk_dir : {A : Type 0} → Visit A → Volume → ℕ → A → FatCache → Walked A
walk_dir visit vol dir_cluster a cache =
    walk_clusters vol.cluster_count visit vol dir_cluster a cache

pub record Found : Type 0 where
  pub first_cluster : ℕ
  pub size : ℕ
  pub is_dir : Bool

abbrev pub entry_cluster : Entry → ℕ
entry_cluster e = rd16 e 20 * 2 ^ 16 + rd16 e 26

-- The first bytes of an entry are the name wanted.
unfoldable pub has_name : List ℕ → ℕ → Entry → Bool
has_name [] i e = true
has_name (c ∷ want) i e = if u8 (e i) == u8 c then has_name want (i + 1) e else false

-- The entry that `resolve` looks for.
unfoldable pub look_for : List ℕ → Visit (Option Found)
look_for want e found =
    if has_name want 0 e
    then (
      true,
      some (record { first_cluster = entry_cluster e; size = rd32 e 28; is_dir = is_directory e }),
    )
    else (false, found)

-- A directory entry that says cluster 0 is the root.
abbrev pub from_root : Volume → Found → Found
from_root vol f =
    if f.is_dir && f.first_cluster == 0 then record f { first_cluster = vol.root_cluster } else f

abbrev pub found_in : Volume → Walked (Option Found) → Option Found × FatCache
found_in vol (true, some f, cache) = (some (from_root vol f), cache)
found_in vol (true, none, cache) = (none, cache)
found_in vol (false, found, cache) = (none, cache)

-- One round of the loop of `resolve`.
unfoldable pub enter : Volume → Option (List ℕ) → Found → FatCache → Option Found × FatCache
enter vol none cur cache = (none, cache)
enter vol (some want) cur cache =
    if cur.is_dir
    then found_in vol (walk_dir (look_for want) vol cur.first_cluster none cache)
    else (none, cache)

abbrev pub resolve_on :
    Option Found × FatCache → (Found → FatCache → Option Found × FatCache) → Option Found × FatCache
resolve_on (none, cache) k = (none, cache)
resolve_on (some f, cache) k = k f cache

unfoldable pub resolve_parts : List (List ℕ) → Volume → Found → FatCache → Option Found × FatCache
resolve_parts [] vol cur cache = (some cur, cache)
resolve_parts (part ∷ parts) vol cur cache =
    resolve_on (enter vol (to_short_name part) cur cache) (resolve_parts parts vol)

-- `resolve`, on a mounted volume.
unfoldable pub resolve : List ℕ → Volume → FatCache → Option Found × FatCache
resolve path vol cache =
    resolve_parts (components path) vol
      (record { first_cluster = vol.root_cluster; size = 0; is_dir = true }) cache

-- -1 is `none`.
abbrev pub size_of : Option Found × FatCache → Option ℕ × FatCache
size_of (none, cache) = (none, cache)
size_of (some f, cache) = (if f.is_dir then none else some f.size, cache)

pub file_size : List ℕ → Volume → FatCache → Option ℕ × FatCache
file_size path vol cache = size_of (resolve path vol cache)

-- What `list` tells its callback of an entry.
pub record DirEntryInfo : Type 0 where
  pub name : List ℕ
  pub size : ℕ
  pub is_dir : Bool

-- The bytes up to the first blank, of those left.
pub until_blank : ℕ → ℕ → Entry → List ℕ
until_blank zero i e = []
until_blank (suc left) i e =
    let rest = until_blank left (i + 1) e in if u8 (e i) == b' ' then [] else u8 (e i) ∷ rest

pub info_of : Entry → DirEntryInfo
info_of e = record {
  name = until_blank 8 0 e ++ (if u8 (e 8) == b' ' then [] else b'.' ∷ until_blank 3 8 e);
  size = if is_directory e then 0 else rd32 e 28;
  is_dir = is_directory e;
}

-- The callback receives every entry; here they are gathered, the last one first.
pub gather : Visit (List DirEntryInfo)
gather e infos = (false, info_of e ∷ infos)

abbrev pub list_found : Volume → Option Found × FatCache → Walked (List DirEntryInfo)
list_found vol (none, cache) = (false, [], cache)
list_found vol (some f, cache) =
    if f.is_dir then walk_dir gather vol f.first_cluster [] cache else (false, [], cache)

pub list : List ℕ → Volume → FatCache → Walked (List DirEntryInfo)
list path vol cache = list_found vol (resolve path vol cache)
