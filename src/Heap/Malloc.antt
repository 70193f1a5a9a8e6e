-- ===== src/Heap/Malloc.antt =====
-- Allocation from the blocks at hand.
use venom_os.Base.{
  ℕ, ◌+◌, ◌-◌, ◌%◌, ◌≤◌, ◌≡◌, inl, inr, true, false, ◌&&◌, some, subst, ◌∙◌, List, [], ◌∷◌, leb,
  arith, refl, Bool-cases, Option-cases,
}
use mathlib.Core.Option.{some-injective}
use venom_os.Heap.{
  Block, data_ptr, magic_allocated, bytes_in_use, carve, take_fit, find_block, as_allocated,
}
use venom_os.Heap.Chain.{Chain, block_end, span, Chain-le, find_block-past}

-- The first free block that is large enough is carved, and no other block changes.
pub data Took (size : ℕ) : List Block → ℕ → List Block → Type 0 where
  here :
      {b : Block} {bs : List Block}
      → b.free ≡ true
      → size ≤ b.size
      → Took size (b ∷ bs) (data_ptr b) (carve size b bs)
  past :
      {b : Block} {bs : List Block} {a : ℕ} {out : List Block}
      → (b.free && leb size b.size) ≡ false
      → Took size bs a out
      → Took size (b ∷ bs) a (b ∷ out)

pub take_fit-Took :
    (size : ℕ) (bs : List Block) (r : ℕ × List Block)
    → take_fit size bs ≡ some r
    → Took size bs r.0 r.1
unfolding take_fit
take_fit-Took size [] r e = cc
take_fit-Took size (b ∷ bs) r e = elim (Bool-cases (b.free && leb size b.size)) [
  | inl fits ↦
      subst (λ (o : ℕ × List Block). Took size (b ∷ bs) o.0 o.1) (some-injective _ _ (rw fits at e))
        (here (ground arith) (ground arith))
  | inr skip ↦ elim (Option-cases (take_fit size bs)) [
    | inl full ↦ absurd (ground arith)
    | inr (q, found) ↦
        subst (λ (o : ℕ × List Block). Took size (b ∷ bs) o.0 o.1)
          (some-injective _ _ (rw (skip, found) at e)) (past skip (take_fit-Took size bs q found))
  ]
]

carve-Chain :
    (size : ℕ) (b : Block) (lo hi : ℕ) (bs : List Block)
    → size % 16 ≡ 0
    → size ≤ b.size
    → Chain lo hi (b ∷ bs)
    → Chain lo hi (carve size b bs)
unfolding carve
carve-Chain size b lo hi bs aligned fits (above, block, rest) =
    elim (Bool-cases (leb 64 (b.size - size))) [
      | inl large ↦
          let same : b.addr + 32 + b.size ≡ b.addr + 32 + size + 32 + (b.size - size - 32) =
            ground arith in
          rw large (
            above,
            ground arith,
            (omega arith, ground arith, subst (λ (n : ℕ). Chain n hi bs) same rest),
          )
      | inr small ↦ rw small (above, ground arith, rest)
    ]

-- The block that is handed out: where it stands, and that it is in use with room enough.
pub record HandsOut (size lo hi a : ℕ) (bs out : List Block) : Type 0 where
  pub block : Block
  pub at : data_ptr block ≡ a
  pub inside : (lo ≤ block.addr) × (block_end block ≤ hi)
  pub aligned : a % 16 ≡ 0
  pub room : size ≤ block.size
  pub in_use : (block.free ≡ false) × (block.magic ≡ magic_allocated)
  pub found : find_block block.addr out ≡ some block
  pub accounted : bytes_in_use out ≡ block.size + bytes_in_use bs

module _ {size : ℕ} where
  pub Took-Chain :
      {bs out : List Block} {a : ℕ} (lo hi : ℕ)
      → size % 16 ≡ 0
      → Took size bs a out
      → Chain lo hi bs
      → Chain lo hi out
  Took-Chain lo hi aligned (here {b} {bs} f fits) c = carve-Chain size b lo hi bs aligned fits c
  Took-Chain lo hi aligned (past {b} skip t) (above, block, rest) =
      (above, block, Took-Chain (block_end b) hi aligned t rest)

  -- Only the block that is handed out counts as newly in use; no space is lost.
  pub Took-span : {bs out : List Block} {a : ℕ} → Took size bs a out → span out ≡ span bs
  unfolding span carve
  Took-span (here {b} {bs} f fits) = ground arith
  Took-span (past {b} skip t) = omega (arith, Took-span t)

  pub Took-HandsOut :
      {bs out : List Block} {a : ℕ} (lo hi : ℕ)
      → size % 16 ≡ 0
      → Took size bs a out
      → Chain lo hi bs
      → HandsOut size lo hi a bs out
  unfolding carve find_block bytes_in_use
  Took-HandsOut lo hi al (here {b} {bs} f fits) (above, block, rest) =
      elim (Bool-cases (leb 64 (b.size - size))) [
        | inl large ↦ rw large (record {
          block = as_allocated (record b { size = size });
          at = refl;
          inside = omega (arith, Chain-le (block_end b) hi bs rest);
          aligned = omega (arith, block);
          room = omega arith;
          in_use = (refl, refl);
          found = ground arith;
          accounted = ground arith;
        })
        | inr small ↦ rw small (record {
          block = as_allocated b;
          at = refl;
          inside = omega (arith, Chain-le (block_end b) hi bs rest);
          aligned = omega (arith, block);
          room = fits;
          in_use = (refl, refl);
          found = ground arith;
          accounted = ground arith;
        })
      ]
  Took-HandsOut lo hi al (past {b} skip t) (above, block, rest) =
      let h = Took-HandsOut (block_end b) hi al t rest in
      record {
        block = h.block;
        at = h.at;
        inside = omega (arith, h.inside);
        aligned = h.aligned;
        room = h.room;
        in_use = h.in_use;
        found = find_block-past h.block.addr b _ (omega (arith, h.inside)) ∙ h.found;
        accounted = omega (arith, h.accounted);
      }
