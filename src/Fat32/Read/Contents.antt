-- ===== src/Fat32/Read/Contents.antt =====
-- What `read` of fat32.cpp puts in the buffer.
use venom_os.Base.{
  ℕ, zero, suc, ◌+◌, ◌*◌, ◌≤◌, ◌<◌, ◌≡◌, ◌==◌, if◌then◌else◌, Bool, true, false, ◌||◌, Option, none,
  some, ltb, leb, List, refl, sym, ◌∙◌, ap, subst, arith, Bool-cases, inl, inr,
}
use venom_os.Base.Memory.{u32}
use venom_os.Fat32.{
  Volume, FatCache, chain_error, valid_cluster, cluster_sector, read_volume_sector, next_cluster,
}
use venom_os.Fat32.Files.{Found, resolve}
use venom_os.Fat32.Read.{
  Progress, ReadResult, read_sectors, read_on, read_link, read_clusters, read_found, read, finish,
}
use venom_os.Fat32.Read.Buffer.{Reads, read_clusters-Reads, wanted}
use venom_os.Fat32.Read.Sectors.{IsByteOf, HasSectors, read_sectors-HasSectors}

-- The `n`-th cluster of a chain, and the cache after the links to it.
pub cluster_at : ℕ → Volume → ℕ → FatCache → ℕ × FatCache
cluster_at zero vol cluster cache = (cluster, cache)
cluster_at (suc n) vol cluster cache =
    let (next, cache') = next_cluster vol cluster cache in cluster_at n vol next cache'

-- From `from` on, the bytes below the limit are those of the clusters of the chain, one sector after
-- another.
abbrev pub HasChain : ℕ → ℕ → Volume → ℕ → FatCache → (ℕ → ℕ) → Type 0
HasChain limit from vol cluster cache dest =
    (n s b : ℕ)
    → s < vol.sectors_per_cluster
    → b < 512
    → from + ((n * vol.sectors_per_cluster + s) * 512 + b) < limit
    → IsByteOf vol (cluster_at n vol cluster cache).0 s b
        (dest (from + ((n * vol.sectors_per_cluster + s) * 512 + b)))

-- A result that says that it succeeded has the bytes of the chain.
abbrev Delivers : ℕ → ℕ → Volume → ℕ → FatCache → ReadResult → Type 0
Delivers limit from vol cluster cache r =
    r.success ≡ true → HasChain limit from vol cluster cache r.progress.dest

nothing-HasChain :
    (limit from : ℕ) (vol : Volume) (cluster : ℕ) (cache : FatCache) (dest : ℕ → ℕ)
    → limit ≤ from
    → HasChain limit from vol cluster cache dest
nothing-HasChain limit from vol cluster cache dest le n s b p q k = absurd (ground arith)

-- The place of a byte of a later cluster.
place_suc : (spc n s b : ℕ) → (suc n * spc + s) * 512 + b ≡ spc * 512 + ((n * spc + s) * 512 + b)
place_suc spc n s b = omega arith

cluster_at-next :
    (n : ℕ) (vol : Volume) (cluster next : ℕ) (cache cache' : FatCache)
    → next_cluster vol cluster cache ≡ (next, cache')
    → (cluster_at (suc n) vol cluster cache).0 ≡ (cluster_at n vol next cache').0
unfolding cluster_at
cluster_at-next n vol cluster next cache cache' link =
    ap (λ (r : ℕ × FatCache). (cluster_at n vol r.0 r.1).0) link

-- A byte of the first cluster.
first_cluster_byte :
    (limit s b : ℕ) (vol : Volume) (cluster : ℕ) (cache : FatCache) (g g' : Progress) (dest : ℕ → ℕ)
    → HasSectors limit vol cluster 0 vol.sectors_per_cluster g g'
    → ((j : ℕ) → j < g'.done → dest j ≡ g'.dest j)
    → s < vol.sectors_per_cluster
    → b < 512
    → g.done + ((0 * vol.sectors_per_cluster + s) * 512 + b) < limit
    → IsByteOf vol
        (cluster_at 0 vol cluster cache).0
        s
        b
        (dest (g.done + ((0 * vol.sectors_per_cluster + s) * 512 + b)))
unfolding cluster_at
first_cluster_byte limit s b vol cluster cache g g' dest h kept p q k =
    let at : g.done + (s * 512 + b) ≡ g.done + ((0 * vol.sectors_per_cluster + s) * 512 + b) =
      omega arith in
    let reached = h.reached in
    let (bytes, good, same) = h.bytes s b p q (omega arith) in
    (
      bytes,
      subst (λ i. read_volume_sector vol (u32 (cluster_sector vol cluster + i)) ≡ some bytes)
          (omega arith) good,
      subst (λ i. dest i ≡ bytes b) at (kept (g.done + (s * 512 + b)) (ground arith) ∙ same),
    )

-- The file ends in this cluster.
HasChain-last :
    (limit : ℕ) (vol : Volume) (cluster : ℕ) (cache : FatCache) (g g' : Progress) (dest : ℕ → ℕ)
    → HasSectors limit vol cluster 0 vol.sectors_per_cluster g g'
    → ((j : ℕ) → j < g'.done → dest j ≡ g'.dest j)
    → limit ≤ g'.done
    → HasChain limit g.done vol cluster cache dest
HasChain-last limit vol cluster cache g g' dest h kept all zero s b p q k =
    first_cluster_byte limit s b vol cluster cache g g' dest h kept p q k
HasChain-last limit vol cluster cache g g' dest h kept all (suc n) s b p q k =
    let most = h.most in let place = place_suc vol.sectors_per_cluster n s b in absurd (omega arith)

-- The sectors of a cluster, and then the rest of the chain.
HasChain-next :
    (limit : ℕ) (vol : Volume) (cluster next : ℕ) (cache cache' : FatCache) (g g' : Progress)
    (dest : ℕ → ℕ)
    → next_cluster vol cluster cache ≡ (next, cache')
    → HasSectors limit vol cluster 0 vol.sectors_per_cluster g g'
    → ((j : ℕ) → j < g'.done → dest j ≡ g'.dest j)
    → g'.done < limit
    → HasChain limit g'.done vol next cache' dest
    → HasChain limit g.done vol cluster cache dest
HasChain-next limit vol cluster next cache cache' g g' dest link h kept more rest zero s b p q k =
    first_cluster_byte limit s b vol cluster cache g g' dest h kept p q k
HasChain-next limit vol cluster next cache cache' g g' dest link h kept more rest (suc n) s b p q
      k =
    let reached = h.reached in
    let full : g'.done ≡ g.done + vol.sectors_per_cluster * 512 = ground arith in
    let place = place_suc vol.sectors_per_cluster n s b in
    let at : g'.done + ((n * vol.sectors_per_cluster + s) * 512 + b)
        ≡ g.done + ((suc n * vol.sectors_per_cluster + s) * 512 + b) =
      omega arith in
    let here = rest n s b p q (subst (λ i. i < limit) (sym at) k) in
    subst (λ i. IsByteOf vol (cluster_at (suc n) vol cluster cache).0 s b (dest i)) at
      (subst
        (λ c. IsByteOf vol c s b (dest (g'.done + ((n * vol.sectors_per_cluster + s) * 512 + b))))
        (sym (cluster_at-next n vol cluster next cache cache' link)) here)

read_link-Delivers :
    (limit : ℕ) (vol : Volume) (cluster : ℕ) (cache : FatCache) (g g' : Progress)
    (link : ℕ × FatCache) (k : ℕ → Progress → FatCache → ReadResult)
    → next_cluster vol cluster cache ≡ link
    → HasSectors limit vol cluster 0 vol.sectors_per_cluster g g'
    → g'.done < limit
    → ((c : ℕ) (d : FatCache) → Reads limit g' (k c g' d))
    → ((c : ℕ) (d : FatCache) → Delivers limit g'.done vol c d (k c g' d))
    → Delivers limit g.done vol cluster cache (read_link g' link k)
read_link-Delivers limit vol cluster cache g g' (next, cache') k follows h more reads works e =
    elim (Bool-cases (next == 0 || next == chain_error)) [
      | inl ends ↦ let no : false ≡ true = sym (rw ends refl) ∙ e in absurd (ground arith)
      | inr goes ↦
          let ok : (k next g' cache').success ≡ true = sym (rw goes refl) ∙ e in
          rw goes (
            HasChain-next limit vol cluster next cache cache' g g' (k next g' cache').progress.dest
              follows h (reads next cache').within.kept more (works next cache' ok))
    ]

read_on-Delivers :
    (limit : ℕ) (vol : Volume) (cluster : ℕ) (cache : FatCache) (g : Progress) (o : Bool × Progress)
    (k : ℕ → Progress → FatCache → ReadResult)
    → (o.0 ≡ true → HasSectors limit vol cluster 0 vol.sectors_per_cluster g o.1)
    → ((c : ℕ) (d : FatCache) → o.1.done ≤ limit → Reads limit o.1 (k c o.1 d))
    → ((c : ℕ) (d : FatCache) → o.1.done ≤ limit → Delivers limit o.1.done vol c d (k c o.1 d))
    → Delivers limit g.done vol cluster cache (read_on o limit vol cluster cache k)
read_on-Delivers limit vol cluster cache g (false, g') k sectors reads works e =
    absurd (ground arith)
read_on-Delivers limit vol cluster cache g (true, g') k sectors reads works e =
    elim (Bool-cases (leb limit g'.done)) [
      | inl all ↦ rw all (
          HasChain-last limit vol cluster cache g g' g'.dest (sectors refl) (λ j p. refl)
            (ground arith))
      | inr more ↦
          let ok : (read_link g' (next_cluster vol cluster cache) k).success ≡ true =
            sym (rw more refl) ∙ e in
          rw more (
            read_link-Delivers limit vol cluster cache g g' (next_cluster vol cluster cache) k refl
              (sectors refl) (ground arith) (λ c d. reads c d (ground arith))
              (λ c d. works c d (ground arith)) ok)
    ]

read_clusters-Delivers :
    (left limit : ℕ) (vol : Volume) (cluster : ℕ) (g : Progress) (cache : FatCache)
    → g.done ≤ limit
    → Delivers limit g.done vol cluster cache (read_clusters left limit vol cluster g cache)
unfolding read_clusters
read_clusters-Delivers zero limit vol cluster g cache h e = elim (Bool-cases (ltb g.done limit)) [
  | inl more ↦
      let no : false ≡ true = sym (rw (more, read_clusters) refl) ∙ e in absurd (ground arith)
  | inr all ↦
      rw (all, read_clusters)
        (nothing-HasChain limit g.done vol cluster cache g.dest (ground arith))
]
read_clusters-Delivers (suc left) limit vol cluster g cache h e =
    elim (Bool-cases (ltb g.done limit)) [
      | inr all ↦
          rw (all, read_clusters)
            (nothing-HasChain limit g.done vol cluster cache g.dest (ground arith))
      | inl more ↦ elim (Bool-cases (valid_cluster vol cluster)) [
        | inr outside ↦
            let no : false ≡ true = sym (rw (more, outside, read_clusters) refl) ∙ e in
            absurd (ground arith)
        | inl inside ↦
            let o = read_sectors vol.sectors_per_cluster 0 limit vol cluster g in
            let k = read_clusters left limit vol in
            let ok : (read_on o limit vol cluster cache k).success ≡ true =
              sym (rw (more, inside, read_clusters) refl) ∙ e in
            rw (more, inside, read_clusters)
              (read_on-Delivers limit vol cluster cache g o k
                (read_sectors-HasSectors vol.sectors_per_cluster 0 limit vol cluster g h)
                (λ c d b. read_clusters-Reads left limit vol c o.1 d b)
                (λ c d b. read_clusters-Delivers left limit vol c o.1 d b) ok)
      ]
    ]

-- A read that has found the file and delivered the bytes that are wanted of it.
pub record HasRead (capacity : ℕ) (vol : Volume) (found : Option Found × FatCache) (r : ReadResult)
    : Type 0 where
  pub file : Found
  pub is_found : found.0 ≡ some file
  pub is_file : file.is_dir ≡ false
  pub reported : r.bytes_read ≡ wanted capacity file
  pub delivered : HasChain (wanted capacity file) 0 vol file.first_cluster found.1 r.progress.dest

read_found-HasRead :
    (capacity : ℕ) (dest : ℕ → ℕ) (vol : Volume) (found : Option Found × FatCache)
    → (read_found capacity dest vol found).success ≡ true
    → HasRead capacity vol found (read_found capacity dest vol found)
read_found-HasRead capacity dest vol (none, cache) e = absurd (ground arith)
read_found-HasRead capacity dest vol (some f, cache) e = elim (Bool-cases (f.is_dir)) [
  | inl dir ↦ absurd (ground arith)
  | inr is_file ↦
      let g : Progress = record { done = 0; dest = dest } in
      let n = wanted capacity f in
      let r = read_clusters vol.cluster_count n vol f.first_cluster g cache in
      let all = read_clusters-Reads vol.cluster_count n vol f.first_cluster g cache (omega arith) in
      let step : read_found capacity dest vol (some f, cache) ≡ r =
        ap (λ dir. if dir then finish false 0 g cache else r) is_file in
      let ok : r.success ≡ true = sym (ap (λ (x : ReadResult). x.success) step) ∙ e in
      subst (HasRead capacity vol (some f, cache)) (sym step) (record {
        file = f;
        is_found = refl;
        is_file = is_file;
        reported = ground (arith, all.result);
        delivered =
            read_clusters-Delivers vol.cluster_count n vol f.first_cluster g cache (omega arith) ok;
      })
]

-- A read that succeeds found a file and delivers as many of its bytes as the directory says that it has,
-- or as fit in the buffer: it reports that number, and each byte of the buffer below it is the byte in its
-- place of the clusters of the file's chain, as `next_cluster` follows it, from sectors that can be read.
pub read-HasRead :
    (path : List ℕ) (capacity : ℕ) (dest : ℕ → ℕ) (vol : Volume) (cache : FatCache)
    → (read path capacity dest vol cache).success ≡ true
    → HasRead capacity vol (resolve path vol cache) (read path capacity dest vol cache)
unfolding read
read-HasRead path capacity dest vol cache e =
    read_found-HasRead capacity dest vol (resolve path vol cache) e
