-- ===== src/Heap/Free.antt =====
-- Freeing a block, and what `kfree` refuses.
use venom_os.Base.{
  ℕ, ◌+◌, ◌-◌, ◌%◌, ◌≤◌, ◌<◌, ◌≡◌, ◌≢◌, inl, inr, ◌==◌, true, false, ◌&&◌, some, List, [], ◌∷◌,
  arith, refl, Bool-cases, Option-cases, subst, ◌∙◌,
}
use venom_os.Heap.{
  Block, Heap, header_size, magic_allocated, magic_freed, bytes_in_use, find_block, as_free,
  release, join_next, join_prev, absorb, adjacent, kfree, free_block, FreeResult, freed, take_fit,
}
use venom_os.Heap.Chain.{Chain, IsHeap, block_end, span, find_block-none, heap_min_pos}
use venom_os.Heap.Malloc.{Took, take_fit-Took, Took-Chain, Took-span, Took-HandsOut, HandsOut}

join_next-Chain :
    (b : Block) (lo hi : ℕ) (bs : List Block) → Chain lo hi (b ∷ bs) → Chain lo hi (join_next b bs)
unfolding join_next
join_next-Chain b lo hi [] c = c
join_next-Chain b lo hi (n ∷ bs) (above, block, (above', block', rest)) =
    elim (Bool-cases (n.free && adjacent b n)) [
      | inl joins ↦
          let same : block_end n ≡ block_end (absorb b n) = ground arith in
          rw joins (above, ground arith, subst (λ (e : ℕ). Chain e hi bs) same rest)
      | inr apart ↦ rw apart (above, block, (above', block', rest))
    ]

join_prev-Chain :
    (addr : ℕ) (b : Block) (lo hi : ℕ) (bs : List Block)
    → Chain lo hi (b ∷ bs)
    → Chain lo hi (join_prev addr b bs)
unfolding join_prev
join_prev-Chain addr b lo hi [] c = c
join_prev-Chain addr b lo hi (n ∷ bs) (above, block, (above', block', rest)) =
    elim (Bool-cases (n.addr == addr && (b.free && adjacent b n))) [
      | inl joins ↦
          let same : block_end n ≡ block_end (absorb b n) = ground arith in
          rw joins (above, ground arith, subst (λ (e : ℕ). Chain e hi bs) same rest)
      | inr apart ↦ rw apart (above, block, (above', block', rest))
    ]

pub release-Chain :
    (addr lo hi : ℕ) (bs : List Block) → Chain lo hi bs → Chain lo hi (release addr bs)
unfolding release
release-Chain addr lo hi [] c = c
release-Chain addr lo hi (b ∷ bs) (above, block, rest) = elim (Bool-cases (b.addr == addr)) [
  | inl here ↦ rw here (join_next-Chain (as_free b) lo hi bs (above, ground arith, rest))
  | inr other ↦ rw other (
      join_prev-Chain addr b lo hi (release addr bs)
        (above, block, release-Chain addr (block_end b) hi bs rest))
]

span-join_next : (b : Block) (bs : List Block) → span (join_next b bs) ≡ span (b ∷ bs)
unfolding join_next span
span-join_next b [] = refl
span-join_next b (n ∷ bs) = ground arith

span-join_prev :
    (addr : ℕ) (b : Block) (bs : List Block) → span (join_prev addr b bs) ≡ span (b ∷ bs)
unfolding join_prev span
span-join_prev addr b [] = refl
span-join_prev addr b (n ∷ bs) = ground arith

-- Freeing loses no space.
pub span-release : (addr : ℕ) (bs : List Block) → span (release addr bs) ≡ span bs
unfolding release span
span-release addr [] = refl
span-release addr (b ∷ bs) = ground (
  arith,
  span-join_next (as_free b) bs,
  span-join_prev addr b (release addr bs),
  span-release addr bs,
)

-- The block at an address, if there is one, is free.
abbrev FreeAt : ℕ → List Block → Type 0
FreeAt addr bs =
    (c : Block) → find_block addr bs ≡ some c → (c.free ≡ true) × (c.magic ≡ magic_freed)

FreeAt-join_next : (b : Block) (bs : List Block) → FreeAt b.addr (join_next (as_free b) bs)
unfolding join_next find_block
FreeAt-join_next b [] c e = ground arith
FreeAt-join_next b (n ∷ bs) c e = ground arith

FreeAt-join_prev :
    (addr lo hi : ℕ) (b : Block) (bs : List Block)
    → b.addr ≢ addr
    → Chain lo hi bs
    → FreeAt addr bs
    → FreeAt addr (join_prev addr b bs)
unfolding join_prev find_block
FreeAt-join_prev addr lo hi b [] ne chain f c e = ground arith
FreeAt-join_prev addr lo hi b (n ∷ bs) ne chain f c e =
    ground (arith, f c, find_block-none addr (block_end n) hi bs)

pub release-FreeAt :
    (addr lo hi : ℕ) (bs : List Block) → Chain lo hi bs → FreeAt addr (release addr bs)
unfolding release
release-FreeAt addr lo hi [] chain = λ c e. unfold find_block in cc
release-FreeAt addr lo hi (b ∷ bs) (above, block, rest) = elim (Bool-cases (b.addr == addr)) [
  | inl here ↦
      let at : b.addr ≡ addr = ground arith in
      rw here (subst (λ (n : ℕ). FreeAt n (join_next (as_free b) bs)) at (FreeAt-join_next b bs))
  | inr other ↦ rw other (
      FreeAt-join_prev addr (block_end b) hi b (release addr bs) (ground arith)
        (release-Chain addr (block_end b) hi bs rest)
        (release-FreeAt addr (block_end b) hi bs rest))
]

bytes_in_use-join_next :
    (b : Block) (bs : List Block) → b.free ≡ true → bytes_in_use (join_next b bs) ≡ bytes_in_use bs
unfolding join_next bytes_in_use
bytes_in_use-join_next b [] f = ground arith
bytes_in_use-join_next b (n ∷ bs) f = ground arith

bytes_in_use-join_prev :
    (addr : ℕ) (b : Block) (bs : List Block)
    → FreeAt addr bs
    → bytes_in_use (join_prev addr b bs) ≡ bytes_in_use (b ∷ bs)
unfolding join_prev bytes_in_use find_block
bytes_in_use-join_prev addr b [] f = refl
bytes_in_use-join_prev addr b (n ∷ bs) f = ground (arith, f n)

-- Exactly the freed block's bytes leave the count of bytes in use.
pub bytes_in_use-release :
    (addr lo hi : ℕ) (bs : List Block) (b : Block)
    → Chain lo hi bs
    → find_block addr bs ≡ some b
    → b.free ≡ false
    → bytes_in_use (release addr bs) + b.size ≡ bytes_in_use bs
unfolding release find_block bytes_in_use
bytes_in_use-release addr lo hi [] b chain e u = cc
bytes_in_use-release addr lo hi (c ∷ bs) b (above, block, rest) e u =
    elim (Bool-cases (c.addr == addr)) [
      | inl here ↦ ground (arith, here, bytes_in_use-join_next (as_free c) bs)
      | inr other ↦ ground (
        arith,
        other,
        bytes_in_use-join_prev addr c (release addr bs)
            (release-FreeAt addr (block_end c) hi bs rest),
        bytes_in_use-release addr (block_end c) hi bs b rest,
      )
    ]

-- What `kfree` does not free, it leaves as it is.
pub kfree_refused : (ptr : ℕ) (h : Heap) → (kfree ptr h).0 ≢ freed → (kfree ptr h).1 ≡ h
unfolding kfree free_block
kfree_refused ptr h ne = elim (Option-cases (find_block (ptr - header_size) h.blocks)) [
  | inl none_there ↦ rw none_there (ground arith)
  | inr (b, found) ↦ rw found (ground arith)
]

-- The block was freed.
pub record Freed (b : Block) (h : Heap) (out : FreeResult × Heap) : Type 0 where
  pub result : out.0 ≡ freed
  pub valid : IsHeap out.1
  pub space : span out.1.blocks ≡ span h.blocks
  pub in_use : bytes_in_use out.1.blocks + b.size ≡ bytes_in_use h.blocks

-- In a valid heap, `kfree` of the aligned pointer to a block in use, inside the heap's range, frees
-- it: the heap stays valid over the same space, and exactly that block's bytes are no longer in
-- use.
pub kfree-Freed :
    (ptr : ℕ) (h : Heap) (b : Block)
    → IsHeap h
    → ptr % 16 ≡ 0
    → h.heap_min + header_size ≤ ptr
    → ptr < h.heap_max
    → find_block (ptr - header_size) h.blocks ≡ some b
    → b.free ≡ false
    → b.magic ≡ magic_allocated
    → Freed b h (kfree ptr h)
unfolding kfree free_block
kfree-Freed ptr h b v al lo hi found used magic =
    let runs : kfree ptr h ≡ (freed, record h { blocks = release (ptr - header_size) h.blocks }) =
      ground (arith, found, heap_min_pos h (ptr - header_size) b v found) in
    rw runs (record {
      result = refl;
      valid = record {
        chain = release-Chain (ptr - header_size) h.heap_min h.heap_max h.blocks v.chain;
        low = inr (heap_min_pos h (ptr - header_size) b v found);
      };
      space = span-release (ptr - header_size) h.blocks;
      in_use =
          bytes_in_use-release (ptr - header_size) h.heap_min h.heap_max h.blocks b v.chain found
            used;
    })

kfree-release :
    (ptr : ℕ) (h : Heap)
    → (kfree ptr h).0 ≡ freed
    → (kfree ptr h).1 ≡ record h { blocks = release (ptr - header_size) h.blocks }
unfolding kfree free_block
kfree-release ptr h e = elim (Option-cases (find_block (ptr - header_size) h.blocks)) [
  | inl none_there ↦ absurd (ground (arith, none_there))
  | inr (b, found) ↦ ground (arith, found)
]

kfree-FreeAt : (ptr : ℕ) (h : Heap) → FreeAt (ptr - header_size) h.blocks → (kfree ptr h).0 ≢ freed
unfolding kfree free_block
kfree-FreeAt ptr h f e = elim (Option-cases (find_block (ptr - header_size) h.blocks)) [
  | inl none_there ↦ ground (arith, none_there)
  | inr (b, found) ↦ ground (arith, found, f b found)
]

-- In a valid heap, a pointer that was freed is refused the second time, and the heap is left as it is.
pub kfree_twice :
    (ptr : ℕ) (h : Heap)
    → IsHeap h
    → (kfree ptr h).0 ≡ freed
    → ((kfree ptr (kfree ptr h).1).0 ≢ freed) × ((kfree ptr (kfree ptr h).1).1 ≡ (kfree ptr h).1)
kfree_twice ptr h v once = (refused, kfree_refused ptr (kfree ptr h).1 refused)
  where
    refused : (kfree ptr (kfree ptr h).1).0 ≢ freed
    refused = rw (kfree-release ptr h once) (
        kfree-FreeAt ptr (record h { blocks = release (ptr - header_size) h.blocks })
          (release-FreeAt (ptr - header_size) h.heap_min h.heap_max h.blocks v.chain))

pub heap_min_pos_of_take_fit :
    (size : ℕ) (h : Heap) (r : ℕ × List Block)
    → IsHeap h
    → take_fit size h.blocks ≡ some r
    → 0 < h.heap_min
heap_min_pos_of_take_fit size h r v e = elim v.low [
  | inl empty ↦ absurd (take_fit-nil (rw empty at e))
  | inr pos ↦ pos
]
  where
    take_fit-nil : take_fit size [] ≡ some r → ⊥
    take_fit-nil e = unfold take_fit in cc

-- What the scan of `kmalloc` hands out of a valid heap for a positive multiple of 16 bytes, `kfree`
-- takes back: the heap is valid again, the blocks take the same
-- space, and as many bytes are in use as before.
pub kfree-take_fit :
    (size : ℕ) (h : Heap) (r : ℕ × List Block)
    → IsHeap h
    → 0 < size
    → size % 16 ≡ 0
    → take_fit size h.blocks ≡ some r
    → let out = kfree r.0 (record h { blocks = r.1 }) in
      (out.0 ≡ freed)
      × IsHeap out.1
      × (span out.1.blocks ≡ span h.blocks)
      × (bytes_in_use out.1.blocks ≡ bytes_in_use h.blocks)
kfree-take_fit size h r v pos al e = (
  done.result,
  done.valid,
  done.space ∙ Took-span took,
  omega (arith, done.in_use, given.accounted),
)
  where
    took : Took size h.blocks r.0 r.1
    took = take_fit-Took size h.blocks r e

    given : HandsOut size h.heap_min h.heap_max r.0 h.blocks r.1
    given = Took-HandsOut h.heap_min h.heap_max al took v.chain

    min_pos : 0 < h.heap_min
    min_pos = heap_min_pos_of_take_fit size h r v e

    after : Heap
    after = record h { blocks = r.1 }

    found : find_block (r.0 - header_size) r.1 ≡ some given.block
    found =
        subst (λ (n : ℕ). find_block n r.1 ≡ some given.block) (omega (arith, given.at)) given.found

    done : Freed given.block after (kfree r.0 after)
    done =
        kfree-Freed r.0 after given.block
          (record { chain = Took-Chain h.heap_min h.heap_max al took v.chain; low = inr min_pos })
          given.aligned (omega (arith, given.at, given.inside))
          (omega (arith, given.at, given.inside, given.room)) found given.in_use.0 given.in_use.1
