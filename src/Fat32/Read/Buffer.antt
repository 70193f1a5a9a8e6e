-- ===== src/Fat32/Read/Buffer.antt =====
-- `read` of fat32.cpp and the buffer that it is given.
use venom_os.Base.{
  ℕ, zero, suc, ◌+◌, ◌-◌, ◌≤◌, ◌<◌, ◌≡◌, ◌==◌, if◌then◌else◌, Bool, true, false, ◌||◌, Option, none,
  some, ltb, leb, List, refl, arith, Bool-cases, Option-cases, inl, inr, ◌⊎◌,
}
use venom_os.Base.Memory.{u32}
use venom_os.Base.Copy.{copy_bytes_lem}
use venom_os.Fat32.{
  Sector, Volume, FatCache, sector_size, chain_error, valid_cluster, cluster_sector,
  read_volume_sector, next_cluster,
}
use venom_os.Fat32.Files.{Found, resolve}
use venom_os.Fat32.Read.{
  Progress, ReadResult, copy_chunk, read_sectors, read_on, read_link, read_clusters, read_found,
  read, finish,
}

-- From one progress to a later one, nothing at or past the limit is written, and what was read
-- before stays.
pub record Within (limit : ℕ) (g g' : Progress) : Type 0 where
  pub bounded : g'.done ≤ limit
  pub grows : g.done ≤ g'.done
  pub outside : (j : ℕ) → limit ≤ j → g'.dest j ≡ g.dest j
  pub kept : (j : ℕ) → j < g.done → g'.dest j ≡ g.dest j

Within-self : (limit : ℕ) (g : Progress) → g.done ≤ limit → Within limit g g
Within-self limit g h = record {
  bounded = h;
  grows = omega arith;
  outside = λ j k. refl;
  kept = λ j k. refl;
}

Within-trans :
    (limit : ℕ) (g g' g'' : Progress) → Within limit g g' → Within limit g' g'' → Within limit g g''
Within-trans limit g g' g'' w v = record {
  bounded = v.bounded;
  grows = omega (arith, w.grows, v.grows);
  outside = λ j k. omega (arith, w.outside j k, v.outside j k);
  kept = λ j k. omega (arith, w.grows, w.kept j k, v.kept j (omega (arith, w.grows)));
}

pub copy_chunk-Within :
    (limit : ℕ) (bytes : Sector) (g : Progress)
    → g.done ≤ limit
    → Within limit g (copy_chunk limit bytes g)
unfolding copy_chunk
copy_chunk-Within limit bytes g h = record {
  bounded = ground arith;
  grows = ground arith;
  outside = λ j k. ground (
    arith,
    copy_bytes_lem (if ltb sector_size (limit - g.done) then sector_size else limit - g.done) g.done
        0 bytes g.dest j,
  );
  kept = λ j k. ground (
    arith,
    copy_bytes_lem (if ltb sector_size (limit - g.done) then sector_size else limit - g.done) g.done
        0 bytes g.dest j,
  );
}

pub read_sectors-Within :
    (left s limit : ℕ) (vol : Volume) (cluster : ℕ) (g : Progress)
    → g.done ≤ limit
    → Within limit g (read_sectors left s limit vol cluster g).1
unfolding read_sectors
read_sectors-Within zero s limit vol cluster g h = Within-self limit g h
read_sectors-Within (suc left) s limit vol cluster g h = elim (Bool-cases (ltb g.done limit)) [
  | inr full ↦ rw full (Within-self limit g h)
  | inl more ↦ elim (Option-cases (read_volume_sector vol (u32 (cluster_sector vol cluster + s)))) [
    | inl bad ↦ rw (more, bad, read_sectors) (Within-self limit g h)
    | inr (bytes, good) ↦
        let first = copy_chunk-Within limit bytes g h in
        rw (more, good, read_sectors)
          (Within-trans limit g (copy_chunk limit bytes g) _ first (
            read_sectors-Within left (s + 1) limit vol cluster (copy_chunk limit bytes g)
              first.bounded))
  ]
]

-- A read of `limit` bytes either succeeds and says so, or fails and says no more than it wrote.
pub record Reads (limit : ℕ) (g : Progress) (r : ReadResult) : Type 0 where
  pub within : Within limit g r.progress
  pub result :
      ((r.success ≡ true) × (r.bytes_read ≡ limit) × (r.progress.done ≡ limit))
      ⊎ ((r.success ≡ false) × (r.bytes_read ≤ r.progress.done))

Reads-trans :
    (limit : ℕ) (g g' : Progress) (r : ReadResult)
    → Within limit g g'
    → Reads limit g' r
    → Reads limit g r
Reads-trans limit g g' r w v = record {
  within = Within-trans limit g g' r.progress w v.within;
  result = v.result;
}

finish-Reads :
    (limit : ℕ) (b : Bool) (n : ℕ) (g : Progress) (cache : FatCache)
    → g.done ≤ limit
    → ((b ≡ true) × (n ≡ limit) × (g.done ≡ limit)) ⊎ ((b ≡ false) × (n ≤ g.done))
    → Reads limit g (finish b n g cache)
finish-Reads limit b n g cache h e = record { within = Within-self limit g h; result = e }

read_link-Reads :
    (limit : ℕ) (g : Progress) (link : ℕ × FatCache) (k : ℕ → Progress → FatCache → ReadResult)
    → g.done ≤ limit
    → ((cluster : ℕ) (cache : FatCache) → Reads limit g (k cluster g cache))
    → Reads limit g (read_link g link k)
read_link-Reads limit g (cluster, cache) k h works =
    elim (Bool-cases (cluster == 0 || cluster == chain_error)) [
      | inl ends ↦ rw ends (finish-Reads limit false g.done g cache h (inr (refl, omega arith)))
      | inr goes ↦ rw goes (works cluster cache)
    ]

read_on-Reads :
    (limit : ℕ) (g : Progress) (o : Bool × Progress) (vol : Volume) (cluster : ℕ) (cache : FatCache)
    (k : ℕ → Progress → FatCache → ReadResult)
    → Within limit g o.1
    → ((cluster : ℕ) (g : Progress) (cache : FatCache)
        → g.done ≤ limit
        → Reads limit g (k cluster g cache))
    → Reads limit g (read_on o limit vol cluster cache k)
read_on-Reads limit g (false, g') vol cluster cache k w works =
    Reads-trans limit g g' _ w
      (finish-Reads limit false g'.done g' cache w.bounded (inr (refl, omega arith)))
read_on-Reads limit g (true, g') vol cluster cache k w works =
    elim (Bool-cases (leb limit g'.done)) [
      | inl all ↦ rw all (
          Reads-trans limit g g' _ w (
            finish-Reads limit true g'.done g' cache w.bounded
              (inl (refl, ground (arith, w.bounded), ground (arith, w.bounded)))))
      | inr more ↦ rw more (
          Reads-trans limit g g' _ w (
            read_link-Reads limit g' (next_cluster vol cluster cache) k w.bounded
              (λ c cache'. works c g' cache' w.bounded)))
    ]

pub read_clusters-Reads :
    (left limit : ℕ) (vol : Volume) (cluster : ℕ) (g : Progress) (cache : FatCache)
    → g.done ≤ limit
    → Reads limit g (read_clusters left limit vol cluster g cache)
unfolding read_clusters
read_clusters-Reads zero limit vol cluster g cache h = elim (Bool-cases (ltb g.done limit)) [
  | inl more ↦ rw more (finish-Reads limit false 0 g cache h (inr (refl, omega arith)))
  | inr all ↦
      rw all (finish-Reads limit true g.done g cache h (inl (refl, ground arith, ground arith)))
]
read_clusters-Reads (suc left) limit vol cluster g cache h = elim (Bool-cases (ltb g.done limit)) [
  | inr all ↦
      rw all (finish-Reads limit true g.done g cache h (inl (refl, ground arith, ground arith)))
  | inl more ↦ elim (Bool-cases (valid_cluster vol cluster)) [
    | inr outside ↦
        rw (more, outside) (finish-Reads limit false 0 g cache h (inr (refl, omega arith)))
    | inl inside ↦
        rw (more, inside)
          (read_on-Reads limit g (read_sectors vol.sectors_per_cluster 0 limit vol cluster g) vol
            cluster cache (read_clusters left limit vol)
            (read_sectors-Within vol.sectors_per_cluster 0 limit vol cluster g h)
            (λ c g' cache' h'. read_clusters-Reads left limit vol c g' cache' h'))
  ]
]

-- The bytes that are to be read of a file.
abbrev pub wanted : ℕ → Found → ℕ
wanted capacity f = if ltb capacity f.size then capacity else f.size

-- What a read leaves outside the buffer, and what it says.
pub record StaysInside (capacity : ℕ) (dest : ℕ → ℕ) (r : ReadResult) : Type 0 where
  pub outside : (j : ℕ) → capacity ≤ j → r.progress.dest j ≡ dest j
  pub written : r.progress.done ≤ capacity
  pub reported : r.bytes_read ≤ r.progress.done

read_found-StaysInside :
    (capacity : ℕ) (dest : ℕ → ℕ) (vol : Volume) (o : Option Found × FatCache)
    → StaysInside capacity dest (read_found capacity dest vol o)
read_found-StaysInside capacity dest vol (none, cache) = record {
  outside = λ j h. refl;
  written = omega arith;
  reported = omega arith;
}
read_found-StaysInside capacity dest vol (some f, cache) = elim (Bool-cases (f.is_dir)) [
  | inl dir ↦
      rw dir (record { outside = λ j h. refl; written = omega arith; reported = omega arith })
  | inr file ↦
      let all =
        read_clusters-Reads vol.cluster_count (wanted capacity f) vol f.first_cluster
          (record { done = 0; dest = dest }) cache (omega arith) in
      rw file (record {
        outside = λ j h. all.within.outside j (ground arith);
        written = ground (arith, all.within.bounded);
        reported = elim all.result [ inl ok ↦ omega (arith, ok) | inr failed ↦ failed.1 ];
      })
]

-- Whatever the disk holds, `read` writes nothing at or past the buffer's capacity, and reports no
-- more bytes than it wrote.
pub read-StaysInside :
    (path : List ℕ) (capacity : ℕ) (dest : ℕ → ℕ) (vol : Volume) (cache : FatCache)
    → StaysInside capacity dest (read path capacity dest vol cache)
unfolding read
read-StaysInside path capacity dest vol cache =
    read_found-StaysInside capacity dest vol (resolve path vol cache)
