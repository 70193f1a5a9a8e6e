-- ===== src/Heap/Grow.antt =====
-- A new frame becomes a block of the heap.
use venom_os.Base.{
  ℕ, ◌+◌, ◌-◌, ◌%◌, ◌≤◌, ◌<◌, ◌≡◌, ◌⊎◌, inl, inr, true, false, ◌&&◌, List, [], ◌∷◌, ◌++◌, ltb,
  arith, refl, Bool-cases, subst, ap, sym, All,
}
use venom_os.Heap.{
  Block, Heap, header_size, magic_freed, bytes_in_use, as_free, absorb, adjacent, link_next,
  link_prev, insert_after, insert_free_block, add_frame,
}
use venom_os.Heap.Chain.{IsBlock, Chain, IsHeap, block_end, span, Chain-raise}
use venom_os.Pmm.{frame_size}

-- Two blocks that share no byte.
abbrev pub Apart : Block → Block → Type 0
Apart b n = (block_end n ≤ b.addr) ⊎ (block_end b ≤ n.addr)

link_next-Chain :
    (b : Block) (lo hi : ℕ) (bs : List Block) → Chain lo hi (b ∷ bs) → Chain lo hi (link_next b bs)
unfolding link_next
link_next-Chain b lo hi [] c = c
link_next-Chain b lo hi (n ∷ bs) (above, block, (above', block', rest)) =
    elim (Bool-cases (adjacent b n)) [
      | inl joins ↦
          let same : block_end n ≡ block_end (absorb b n) = ground arith in
          rw joins (above, ground arith, subst (λ (e : ℕ). Chain e hi bs) same rest)
      | inr apart ↦ rw apart (above, block, (above', block', rest))
    ]

link_prev-Chain :
    (b : Block) (lo hi : ℕ) (bs : List Block) → Chain lo hi (b ∷ bs) → Chain lo hi (link_prev b bs)
unfolding link_prev
link_prev-Chain b lo hi [] c = c
link_prev-Chain b lo hi (n ∷ bs) (above, block, (above', block', rest)) =
    elim (Bool-cases (adjacent b n && b.free)) [
      | inl joins ↦
          let same : block_end n ≡ block_end (absorb b n) = ground arith in
          rw joins (above, ground arith, subst (λ (e : ℕ). Chain e hi bs) same rest)
      | inr apart ↦ rw apart (above, block, (above', block', rest))
    ]

module _ (b : Block) (good : IsBlock b) (hi hi' : ℕ) (grows : hi ≤ hi')
    (fits : block_end b ≤ hi') where
  -- In front of blocks that lie above it.
  before-Chain :
      (lo : ℕ) (bs : List Block)
      → lo ≤ b.addr
      → Chain (block_end b) hi' bs
      → Chain lo hi' (link_next b bs)
  before-Chain lo bs h c = link_next-Chain b lo hi' bs (h, good, c)

  insert_after-Chain :
      (prev : Block) (lo : ℕ) (bs : List Block)
      → block_end prev ≤ b.addr
      → All (Apart b) bs
      → Chain lo hi (prev ∷ bs)
      → Chain lo hi' (insert_after prev b bs)
  unfolding insert_after
  insert_after-Chain prev lo [] below apart (above, block, rest) =
      link_prev-Chain prev lo hi' (link_next b [])
        (above, block, before-Chain (block_end prev) [] below fits)
  insert_after-Chain prev lo (n ∷ bs) below (clear, apart) (above, block, (above', block', rest)) =
      elim (Bool-cases (ltb n.addr b.addr)) [
        | inl lower ↦ rw lower (
          above,
          block,
          insert_after-Chain n (block_end prev) bs (ground arith) apart (above', block', rest),
        )
        | inr higher ↦ rw higher (
            link_prev-Chain prev lo hi' (link_next b (n ∷ bs)) (
              above,
              block,
              before-Chain (block_end prev) (n ∷ bs) below
                  (ground arith, block', Chain-raise (block_end n) hi hi' bs grows rest),
            ))
      ]

-- A block that shares no byte with the others finds its place among them.
pub insert_free_block-Chain :
    (b : Block) (lo lo' hi hi' : ℕ) (bs : List Block)
    → IsBlock b
    → b.free ≡ true
    → lo' ≤ lo
    → lo' ≤ b.addr
    → hi ≤ hi'
    → block_end b ≤ hi'
    → All (Apart b) bs
    → Chain lo hi bs
    → Chain lo' hi' (insert_free_block b bs)
unfolding insert_free_block
insert_free_block-Chain b lo lo' hi hi' [] good f p q r s apart c = (q, ground arith, s)
insert_free_block-Chain b lo lo' hi hi' (head ∷ bs) good f p q r s (clear, apart)
      (above, block, rest) =
    elim (Bool-cases (ltb b.addr head.addr)) [
      | inl lower ↦ rw lower (
          before-Chain (as_free b) (ground arith) hi hi' r s lo' (head ∷ bs) q
            (ground arith, block, Chain-raise (block_end head) hi hi' bs r rest))
      | inr higher ↦ rw higher (
          insert_after-Chain (as_free b) (ground arith) hi hi' r s head lo' bs (ground arith) apart
            (omega arith, block, rest))
    ]

span-link_next : (b : Block) (bs : List Block) → span (link_next b bs) ≡ span (b ∷ bs)
unfolding link_next span
span-link_next b [] = refl
span-link_next b (n ∷ bs) = ground arith

span-link_prev : (b : Block) (bs : List Block) → span (link_prev b bs) ≡ span (b ∷ bs)
unfolding link_prev span
span-link_prev b [] = refl
span-link_prev b (n ∷ bs) = ground arith

span-insert_after :
    (prev b : Block) (bs : List Block) → span (insert_after prev b bs) ≡ span (prev ∷ b ∷ bs)
unfolding insert_after span
span-insert_after prev b [] =
    ground (arith, span-link_prev prev (link_next b []), span-link_next b [])
span-insert_after prev b (n ∷ bs) = ground (
  arith,
  span-insert_after n b bs,
  span-link_prev prev (link_next b (n ∷ bs)),
  span-link_next b (n ∷ bs),
)

pub span-insert_free_block :
    (b : Block) (bs : List Block) → span (insert_free_block b bs) ≡ span (b ∷ bs)
unfolding insert_free_block span
span-insert_free_block b [] = refl
span-insert_free_block b (head ∷ bs) =
    ground (arith, span-insert_after head (as_free b) bs, span-link_next (as_free b) (head ∷ bs))

abbrev pub frame_block : ℕ → Block
frame_block frame = record {
  addr = frame;
  size = frame_size - header_size;
  free = true;
  magic = magic_freed;
}

add_frame-Chain :
    (frame : ℕ) (h : Heap)
    → IsHeap h
    → frame % frame_size ≡ 0
    → All (Apart (frame_block frame)) h.blocks
    → Chain (add_frame frame h).heap_min (add_frame frame h).heap_max (add_frame frame h).blocks
add_frame-Chain frame h v al apart = elim v.low [
  | inl empty ↦
      subst (λ bs. Chain lo hi bs) (alone empty)
        (insert_free_block-Chain (frame_block frame) lo lo hi hi [] (omega arith) refl (omega arith)
          room.0 (omega arith) (omega (arith, room)) tt (omega (arith, room)))
  | inr pos ↦
      unfold add_frame in
      insert_free_block-Chain (frame_block frame) h.heap_min lo h.heap_max hi h.blocks (omega arith)
        refl (ground arith) (ground arith) (ground arith) (ground arith) apart v.chain
]
  where
    lo : ℕ
    lo = (add_frame frame h).heap_min

    hi : ℕ
    hi = (add_frame frame h).heap_max

    room : (lo ≤ frame) × (frame + frame_size ≤ hi)
    room = unfold add_frame in ground arith

    alone : h.blocks ≡ [] → insert_free_block (frame_block frame) [] ≡ (add_frame frame h).blocks
    alone empty = unfold add_frame in ap (insert_free_block (frame_block frame)) (sym empty)

-- Growing a valid heap by a frame other than 0 that no block touches keeps it valid, and adds that frame's space.
pub add_frame-IsHeap :
    (frame : ℕ) (h : Heap)
    → IsHeap h
    → 0 < frame
    → frame % frame_size ≡ 0
    → All (Apart (frame_block frame)) h.blocks
    → IsHeap (add_frame frame h) × (span (add_frame frame h).blocks ≡ frame_size + span h.blocks)
add_frame-IsHeap frame h v pos al apart = (
  record { chain = add_frame-Chain frame h v al apart; low = unfold add_frame in ground arith },
  unfold add_frame span in omega (arith, span-insert_free_block (frame_block frame) h.blocks),
)

link_prev-in_use :
    (prev b : Block) (bs : List Block)
    → b.free ≡ true
    → bytes_in_use (link_prev prev (b ∷ bs)) ≡ bytes_in_use (prev ∷ b ∷ bs)
unfolding link_prev bytes_in_use
link_prev-in_use prev b bs free = ground arith

-- A block that is joined with the block in use after it.
absorbed :
    (b n : Block) (bs : List Block) → adjacent b n ≡ true → link_next b (n ∷ bs) ≡ absorb b n ∷ bs
unfolding link_next
absorbed b n bs adj = rw adj refl

insert_after-absorbs_allocated :
    (prev b n : Block) (before after : List Block)
    → All (λ p. p.addr < b.addr) before
    → b.addr < n.addr
    → b.free ≡ true
    → adjacent b n ≡ true
    → n.free ≡ false
    → bytes_in_use (insert_after prev b (before ++ n ∷ after)) + n.size
      ≡ bytes_in_use (prev ∷ (before ++ n ∷ after))
unfolding insert_after bytes_in_use
insert_after-absorbs_allocated prev b n [] after below above free adj used =
    let joined = absorbed b n after adj in
    let linked = link_prev-in_use prev (absorb b n) after free in ground arith
insert_after-absorbs_allocated prev b n (p ∷ before) after (lower, below) above free adj used =
    let rest = insert_after-absorbs_allocated p b n before after below above free adj used in
    ground arith

-- `insert_free_block` joins a new block with the block in use that starts where it ends, wherever in the
-- list it stands: the bytes in use of the heap become less by those of an allocation that nobody has freed.
pub insert_free_block-absorbs_allocated :
    (b n : Block) (before after : List Block)
    → All (λ p. p.addr < b.addr) before
    → b.addr < n.addr
    → adjacent b n ≡ true
    → n.free ≡ false
    → bytes_in_use (insert_free_block b (before ++ n ∷ after)) + n.size
      ≡ bytes_in_use (before ++ n ∷ after)
unfolding insert_free_block bytes_in_use
insert_free_block-absorbs_allocated b n [] after below above adj used =
    let joined = absorbed (as_free b) n after adj in ground arith
insert_free_block-absorbs_allocated b n (p ∷ before) after (lower, below) above adj used =
    let rest =
      insert_after-absorbs_allocated p (as_free b) n before after below above refl adj used in
    ground arith
