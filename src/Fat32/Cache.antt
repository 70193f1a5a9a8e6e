-- ===== src/Fat32/Cache.antt =====
-- The cluster chain of fat32.cpp, with the FAT cache and without it.
use venom_os.Base.{
  ℕ, ◌*◌, ◌/◌, ◌^◌, ◌<◌, ◌≡◌, ◌≢◌, ◌==◌, if◌then◌else◌, true, Option, none, some, leb, refl, sym,
  subst, arith, Bool-cases, Option-cases, inl, inr, ◌⊎◌, ap,
}
use venom_os.Base.Memory.{u32}
use venom_os.Fat32.{
  Sector, Volume, FatCache, no_sector, chain_error, sector_size, read_volume_sector, valid_cluster,
  link_of, fat_sector, fat_entry, load_fat, fetch_fat, next_in, next_cluster,
}

-- What the FAT on the disk says of a cluster, with every sector read afresh.
pub link_read : Volume → ℕ → Option Sector → ℕ
link_read vol c none = chain_error
link_read vol c (some bytes) = link_of vol c (fat_entry bytes c)

pub link_on_disk : Volume → ℕ → ℕ
link_on_disk vol c =
    if leb vol.fat_sectors (u32 (c * 4) / sector_size)
    then chain_error
    else link_read vol c (read_volume_sector vol (fat_sector vol c))

-- The cache holds nothing, or what the disk has.
abbrev pub IsCoherent : Volume → FatCache → Type 0
IsCoherent vol cache =
    (cache.sector ≡ no_sector) ⊎ (read_volume_sector vol cache.sector ≡ some cache.bytes)

held_on_disk :
    (vol : Volume) (c : ℕ) (cache : FatCache)
    → vol.reserved_sectors < 2 ^ 16
    → IsCoherent vol cache
    → (cache.sector == fat_sector vol c) ≡ true
    → read_volume_sector vol (fat_sector vol c) ≡ some cache.bytes
held_on_disk vol c cache small coherent held = elim coherent [
  | inl nothing ↦ absurd (ground arith)
  | inr disk ↦ subst (λ (n : ℕ). read_volume_sector vol n ≡ some cache.bytes) (ground arith) disk
]

-- On a disk whose sectors do not change, a coherent cache stays coherent and `next_cluster` answers
-- what the FAT on the disk says.
pub next_cluster-IsCoherent :
    (vol : Volume) (c : ℕ) (cache : FatCache)
    → vol.reserved_sectors < 2 ^ 16
    → IsCoherent vol cache
    → ((next_cluster vol c cache).0 ≡ link_on_disk vol c)
      × IsCoherent vol (next_cluster vol c cache).1
unfolding next_cluster link_on_disk fetch_fat load_fat next_in link_read
next_cluster-IsCoherent vol c cache small coherent =
    elim (Bool-cases (leb vol.fat_sectors (u32 (c * 4) / sector_size))) [
      | inl past ↦ rw past (refl, coherent)
      | inr inside ↦ elim (Bool-cases (cache.sector == fat_sector vol c)) [
        | inl held ↦
            let disk : read_volume_sector vol (fat_sector vol c) ≡ some cache.bytes =
              held_on_disk vol c cache small coherent held in
            rw (inside, held) (sym (ap (link_read vol c) disk), coherent)
        | inr other ↦ elim (Option-cases (read_volume_sector vol (fat_sector vol c))) [
          | inl bad ↦ rw (inside, other, bad) (refl, inl refl)
          | inr (bytes, good) ↦ rw (inside, other, good) (refl, inr good)
        ]
      ]
    ]

-- The end, an error, or another valid cluster.
abbrev pub IsLink : Volume → ℕ → ℕ → Type 0
IsLink vol c v = (v ≡ 0) ⊎ (v ≡ chain_error) ⊎ ((valid_cluster vol v ≡ true) × (v ≢ c))

link_of-IsLink : (vol : Volume) (c v : ℕ) → IsLink vol c (link_of vol c v)
unfolding link_of
link_of-IsLink vol c v = ground arith

next_in-IsLink :
    (o : Option FatCache) (vol : Volume) (c : ℕ) (cache : FatCache)
    → IsLink vol c (next_in o vol c cache).0
unfolding next_in
next_in-IsLink none vol c cache = inr (inl refl)
next_in-IsLink (some cache') vol c cache = link_of-IsLink vol c (fat_entry cache'.bytes c)

-- What `next_cluster` returns is the end of the chain, an error, or another valid cluster.
pub next_cluster-IsLink :
    (vol : Volume) (c : ℕ) (cache : FatCache) → IsLink vol c (next_cluster vol c cache).0
unfolding next_cluster
next_cluster-IsLink vol c cache =
    elim (Bool-cases (leb vol.fat_sectors (u32 (c * 4) / sector_size))) [
      | inl past ↦ rw past (inr (inl refl))
      | inr inside ↦ rw inside (next_in-IsLink (fetch_fat vol (fat_sector vol c) cache) vol c cache)
    ]
