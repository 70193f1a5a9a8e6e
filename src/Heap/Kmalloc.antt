-- ===== src/Heap/Kmalloc.antt =====
-- `kmalloc` of heap.cpp as a whole, with the frame allocator.
use venom_os.Base.{
  ℕ, zero, suc, ◌+◌, ◌-◌, ◌*◌, ◌%◌, ◌^◌, ◌≤◌, ◌<◌, ◌≡◌, ◌≢◌, ◌⊎◌, inl, inr, ◌==◌, false, Option,
  none, some, List, [], ◌∷◌, ltb, arith, refl, Bool-cases, Option-cases, subst, sym, ℕ_discrete,
  All,
}
use mathlib.Core.Option.{some-injective}
use venom_os.Bitmap.{test_bit}
use venom_os.Pmm.{Pmm, managed_frames, frame_size, alloc_frame}
use venom_os.Pmm.Invariant.{IsValid, alloc_frame-IsValid}
use venom_os.Pmm.Alloc.{alloc_frame_lem, Allocated}
use venom_os.Heap.{
  Block, Heap, data_ptr, magic_allocated, find_block, take_fit, carve, link_next, link_prev,
  insert_after, insert_free_block, add_frame, grow_heap, attempt, retry, kmalloc, align_up, Outcome,
}
use venom_os.Heap.Chain.{IsHeap}
use venom_os.Heap.Malloc.{Took, take_fit-Took, Took-Chain, Took-HandsOut, HandsOut}
use venom_os.Heap.Free.{heap_min_pos_of_take_fit}
use venom_os.Heap.Grow.{Apart, frame_block, add_frame-IsHeap}

module _ (x : Block) where
  link_next-Apart :
      (b : Block) (bs : List Block) → All (Apart x) (b ∷ bs) → All (Apart x) (link_next b bs)
  unfolding link_next
  link_next-Apart b [] a = a
  link_next-Apart b (n ∷ bs) a = ground arith

  link_prev-Apart :
      (b : Block) (bs : List Block) → All (Apart x) (b ∷ bs) → All (Apart x) (link_prev b bs)
  unfolding link_prev
  link_prev-Apart b [] a = a
  link_prev-Apart b (n ∷ bs) a = ground arith

  insert_after-Apart :
      (prev b : Block) (bs : List Block)
      → Apart x prev
      → Apart x b
      → All (Apart x) bs
      → All (Apart x) (insert_after prev b bs)
  unfolding insert_after
  insert_after-Apart prev b [] p q a =
      link_prev-Apart prev (link_next b []) (p, link_next-Apart b [] (q, a))
  insert_after-Apart prev b (n ∷ bs) p q a = elim (Bool-cases (ltb n.addr b.addr)) [
    | inl lower ↦ rw lower (p, insert_after-Apart n b bs a.0 q a.1)
    | inr higher ↦
        rw higher
          (link_prev-Apart prev (link_next b (n ∷ bs)) (p, link_next-Apart b (n ∷ bs) (q, a)))
  ]

  insert_free_block-Apart :
      (b : Block) (bs : List Block)
      → Apart x b
      → All (Apart x) bs
      → All (Apart x) (insert_free_block b bs)
  unfolding insert_free_block
  insert_free_block-Apart b [] q a = (q, tt)
  insert_free_block-Apart b (head ∷ bs) q a = elim (Bool-cases (ltb b.addr head.addr)) [
    | inl lower ↦ rw lower (link_next-Apart _ (head ∷ bs) (q, a))
    | inr higher ↦ rw higher (insert_after-Apart head _ bs a.0 q a.1)
  ]

  Took-Apart :
      {size : ℕ} {bs out : List Block} {a : ℕ}
      → Took size bs a out
      → All (Apart x) bs
      → All (Apart x) out
  unfolding carve
  Took-Apart (Took.here {b} {bs} f fits) apart = ground arith
  Took-Apart (Took.past skip t) apart = (apart.0, Took-Apart t apart.1)

-- The heap is valid, the frame allocator's counter is exact, and no free frame belongs to the
-- heap.
pub record IsSound (h : Heap) (p : Pmm) : Type 0 where
  pub heap : IsHeap h
  pub frames : IsValid p
  pub backed :
      (g : ℕ)
      → g < managed_frames
      → test_bit p.bitmap g ≡ false
      → All (Apart (frame_block (g * frame_size))) h.blocks

-- What a non-null result of `kmalloc` is: the data of a block of the heap, in use, aligned, and
-- large enough.
pub record Handed (size a : ℕ) (h : Heap) : Type 0 where
  pub block : Block
  pub at : data_ptr block ≡ a
  pub aligned : a % 16 ≡ 0
  pub room : size ≤ block.size
  pub in_use : (block.free ≡ false) × (block.magic ≡ magic_allocated)
  pub found : find_block block.addr h.blocks ≡ some block

-- An outcome is sound, and its pointer is null or a block of the heap.
pub record IsOutcome (size : ℕ) (o : Outcome) : Type 0 where
  pub sound : IsSound o.1 o.2
  pub pointer : (o.0 ≡ 0) ⊎ Handed size o.0 o.1

IsSound-fewer :
    (h : Heap) (p p' : Pmm)
    → IsSound h p
    → IsValid p'
    → ((g : ℕ) → test_bit p'.bitmap g ≡ false → test_bit p.bitmap g ≡ false)
    → IsSound h p'
IsSound-fewer h p p' s v fewer = record {
  heap = s.heap;
  frames = v;
  backed = λ g lt free. s.backed g lt (fewer g free);
}

still_free :
    (p : Pmm) (f : ℕ)
    → Allocated p f (alloc_frame p)
    → (g : ℕ) → test_bit (alloc_frame p).1.bitmap g ≡ false
    → (f ≢ g) × (test_bit p.bitmap g ≡ false)
still_free p f a g e = ground (arith, a.bits g)

add_frame-IsSound :
    (h : Heap) (p : Pmm) (f : ℕ)
    → IsSound h p
    → Allocated p f (alloc_frame p)
    → f ≢ 0
    → IsSound (add_frame (f * frame_size) h) (alloc_frame p).1
unfolding add_frame
add_frame-IsSound h p f s a ne = record {
  heap =
      (add_frame-IsHeap (f * frame_size) h s.heap (omega arith) (omega arith)
        (s.backed f a.managed a.was_free)).0;
  frames = alloc_frame-IsValid p s.frames;
  backed = λ g lt free.
      let was = still_free p f a g free in
      insert_free_block-Apart (frame_block (g * frame_size)) (frame_block (f * frame_size)) h.blocks
        (ground (arith, was)) (s.backed g lt was.1);
}

-- What `grow_heap` gave: a sound heap and allocator, with or without the new heap.
abbrev Grown : Heap → Option Heap × Pmm → Type 0
Grown h g = ((g.0 ≡ none) × IsSound h g.1) ⊎ ((h' : Heap) × (g.0 ≡ some h') × IsSound h' g.1)

-- The frame that `grow_heap` gets is nobody else's.
grow_heap-IsSound : (h : Heap) (p : Pmm) → IsSound h p → Grown h (grow_heap h p)
unfolding grow_heap
grow_heap-IsSound h p s = elim (alloc_frame_lem p s.frames) [
  | inl (f, a) ↦ elim (ℕ_discrete f 0) [
    | yes null ↦ inl (
      ground (arith, a.address),
      IsSound-fewer h p (alloc_frame p).1 s (alloc_frame-IsValid p s.frames)
          (λ g e. (still_free p f a g e).1),
    )
    | no frame ↦ inr (
      add_frame (f * frame_size) h,
      rw a.address (ground (arith)),
      add_frame-IsSound h p f s a frame,
    )
  ]
  | inr o ↦ inl (ground (arith, o.null), rw o.null s)
]

take_fit-IsOutcome :
    (size : ℕ) (h : Heap) (p : Pmm) (r : ℕ × List Block)
    → size % 16 ≡ 0
    → IsSound h p
    → take_fit size h.blocks ≡ some r
    → IsOutcome size (r.0, record h { blocks = r.1 }, p)
take_fit-IsOutcome size h p r al s e = record {
  sound = record {
    heap = record {
      chain = Took-Chain h.heap_min h.heap_max al took s.heap.chain;
      low = inr (heap_min_pos_of_take_fit size h r s.heap e);
    };
    frames = s.frames;
    backed = λ g lt free. Took-Apart (frame_block (g * frame_size)) took (s.backed g lt free);
  };
  pointer = inr (record {
    block = given.block;
    at = given.at;
    aligned = given.aligned;
    room = given.room;
    in_use = given.in_use;
    found = given.found;
  });
}
  where
    took : Took size h.blocks r.0 r.1
    took = take_fit-Took size h.blocks r e

    given : HandsOut size h.heap_min h.heap_max r.0 h.blocks r.1
    given = Took-HandsOut h.heap_min h.heap_max al took s.heap.chain

retry-IsOutcome :
    (size : ℕ) (again : Heap → Pmm → Outcome) (h : Heap) (g : Option Heap × Pmm)
    → ((h' : Heap) (p' : Pmm) → IsSound h' p' → IsOutcome size (again h' p'))
    → Grown h g
    → IsOutcome size (retry again h g)
retry-IsOutcome size again h (none, p) works (inl (full, s)) = record {
  sound = s;
  pointer = inl refl;
}
retry-IsOutcome size again h (none, p) works (inr (h', grown, s)) = absurd (ground arith)
retry-IsOutcome size again h (some h'', p) works (inl (full, s)) = absurd (ground arith)
retry-IsOutcome size again h (some h'', p) works (inr (h', grown, s)) =
    works h'' p (subst (λ x. IsSound x p) (sym (some-injective _ _ grown)) s)

attempt-IsOutcome :
    (left size : ℕ) (h : Heap) (p : Pmm)
    → size % 16 ≡ 0
    → IsSound h p
    → IsOutcome size (attempt left size h p)
unfolding attempt
attempt-IsOutcome zero size h p al s = record { sound = s; pointer = inl refl }
attempt-IsOutcome (suc left) size h p al s = elim (Option-cases (take_fit size h.blocks)) [
  | inl full ↦
      rw (full, attempt)
        (retry-IsOutcome size (attempt left size) h (grow_heap h p)
          (λ h' p'. attempt-IsOutcome left size h' p' al) (grow_heap-IsSound h p s))
  | inr (r, found) ↦ rw (found, attempt) (take_fit-IsOutcome size h p r al s found)
]

align_up_wraps : (size : ℕ) → 2 ^ 64 - 16 < size → size < 2 ^ 64 → align_up size ≡ 0
unfolding align_up
align_up_wraps size h k = omega arith

-- Rounding up gives the next multiple of 16, if that is a 64-bit number.
pub align_up_lem :
    (size : ℕ)
    → size ≤ 2 ^ 64 - 16
    → (size ≤ align_up size) × (align_up size < size + 16) × (align_up size % 16 ≡ 0)
unfolding align_up
align_up_lem size h = omega arith

-- A request of more than 2 ^ 64 - 16 bytes is rounded to none: `kmalloc` then hands out the first
-- free block, however small.
pub kmalloc_huge :
    (size : ℕ) (h : Heap) (p : Pmm) (r : ℕ × List Block)
    → 2 ^ 64 - 16 < size
    → size < 2 ^ 64
    → take_fit 0 h.blocks ≡ some r
    → kmalloc size h p ≡ (r.0, record h { blocks = r.1 }, p)
unfolding kmalloc attempt
kmalloc_huge size h p r large small found = elim (Bool-cases (size == 0)) [
  | inl nothing ↦ absurd (ground arith)
  | inr something ↦ rw (something, align_up_wraps size large small) (rw (found, attempt) refl)
]

-- A block with room for more has room for less.
IsOutcome-less :
    (size large : ℕ) (o : Outcome) → size ≤ large → IsOutcome large o → IsOutcome size o
IsOutcome-less size large o le i = record {
  sound = i.sound;
  pointer = elim i.pointer [
    | inl null ↦ inl null
    | inr b ↦ inr (record {
      block = b.block;
      at = b.at;
      aligned = b.aligned;
      room = omega (arith, b.room);
      in_use = b.in_use;
      found = b.found;
    })
  ];
}

-- For a size of at most 2 ^ 64 - 16, `kmalloc` keeps the heap and the frame allocator sound, and
-- its result is null or the 16-byte aligned data of a block in use with room for the size.
pub kmalloc-IsSound :
    (size : ℕ) (h : Heap) (p : Pmm)
    → size ≤ 2 ^ 64 - 16
    → IsSound h p
    → IsOutcome size (kmalloc size h p)
unfolding kmalloc attempt
kmalloc-IsSound size h p small s = elim (Bool-cases (size == 0)) [
  | inl nothing ↦ rw nothing (record { sound = s; pointer = inl refl })
  | inr something ↦
      let bounds = align_up_lem size small in
      rw something (
        IsOutcome-less size (align_up size) _ bounds.0
          (attempt-IsOutcome 257 (align_up size) h p bounds.2 s))
]
