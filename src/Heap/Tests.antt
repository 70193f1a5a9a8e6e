-- ===== src/Heap/Tests.antt =====
-- Runs of the heap of heap.cpp on one page.
use venom_os.Base.{
  ℕ, ◌≡◌, ◌≢◌, ◌+◌, ◌-◌, ◌^◌, ◌%◌, ◌<◌, ◌≤◌, refl, arith, List, [], ◌∷◌, some, true, false, inl,
  inr,
}
use venom_os.Pmm.{E820Entry, Pmm, frame_size}
use venom_os.Pmm.Invariant.{init-IsValid}
use venom_os.Heap.{
  Block, Heap, freed, misaligned, magic_allocated, magic_freed, find_block, take_fit, carve,
  insert_free_block, kmalloc, align_up, free_block, kfree, bytes_in_use,
}
use venom_os.Heap.Chain.{IsHeap, span}
use venom_os.Heap.Free.{Freed, kfree-Freed, kfree_twice, kfree-take_fit}
use venom_os.Heap.Grow.{frame_block, insert_free_block-absorbs_allocated}
use venom_os.Heap.Kmalloc.{IsOutcome, align_up_lem, kmalloc_huge, kmalloc-IsSound}

-- A page with 64 bytes in use and the rest free.
abbrev in_use : Block
in_use = record { addr = 0x1000; size = 64; free = false; magic = magic_allocated }

abbrev rest_free : Block
rest_free = record { addr = 0x1060; size = 3968; free = true; magic = magic_freed }

abbrev page : Heap
page = record { blocks = in_use ∷ rest_free ∷ []; heap_min = 0x1000; heap_max = 0x2000 }

abbrev no_blocks : Heap
no_blocks = record { blocks = []; heap_min = 0; heap_max = 0 }

-- The scan for 16 bytes, and the scan for none.
abbrev taken : ℕ × List Block
taken = (
  0x1080,
  in_use
      ∷ record { addr = 0x1060; size = 16; free = false; magic = magic_allocated }
      ∷ record { addr = 0x1090; size = 3920; free = true; magic = magic_freed }
      ∷ [],
)

abbrev taken_none : ℕ × List Block
taken_none = (
  0x1080,
  in_use
      ∷ record { addr = 0x1060; size = 0; free = false; magic = magic_allocated }
      ∷ record { addr = 0x1080; size = 3936; free = true; magic = magic_freed }
      ∷ [],
)

abbrev memory_map : List E820Entry
memory_map = record { base = 0x10_0000; length = 0x10_0000; type = 1 } ∷ []

page-IsHeap : IsHeap page
page-IsHeap = record {
  chain = (
    omega arith,
    record { addr_aligned = omega arith; size_aligned = omega arith; magic_agrees = refl },
    (
      omega arith,
      record { addr_aligned = omega arith; size_aligned = omega arith; magic_agrees = refl },
      omega arith,
    ),
  );
  low = inr (omega arith);
}

page-take_fit : take_fit 16 page.blocks ≡ some taken
unfolding take_fit carve
page-take_fit = refl

page-take_none : take_fit 0 page.blocks ≡ some taken_none
unfolding take_fit carve
page-take_none = refl

page-kfree : (kfree 0x1020 page).0 ≡ freed
unfolding kfree free_block find_block
page-kfree = refl

page-misaligned : (kfree 0x1021 page).0 ≡ misaligned
unfolding kfree free_block find_block
page-misaligned = refl

not_freed : (kfree 0x1021 page).0 ≢ freed
not_freed e = ground (arith, page-misaligned, e)

kmalloc-IsSound_example :
    IsOutcome 24 (kmalloc 24 no_blocks (venom_os.Pmm.init memory_map 0x12_0000))
kmalloc-IsSound_example =
    kmalloc-IsSound 24 no_blocks (venom_os.Pmm.init memory_map 0x12_0000) (omega arith) (record {
      heap = record { chain = omega arith; low = inl refl };
      frames = init-IsValid memory_map 0x12_0000;
      backed = λ g lt free. tt;
    })

align_up_lem_example : (24 ≤ align_up 24) × (align_up 24 < 24 + 16) × (align_up 24 % 16 ≡ 0)
align_up_lem_example = align_up_lem 24 (omega arith)

kmalloc_huge_example :
    kmalloc (2 ^ 64 - 1) page (venom_os.Pmm.init memory_map 0)
    ≡ (taken_none.0, record page { blocks = taken_none.1 }, venom_os.Pmm.init memory_map 0)
kmalloc_huge_example =
    kmalloc_huge (2 ^ 64 - 1) page (venom_os.Pmm.init memory_map 0) taken_none (omega arith)
      (omega arith) page-take_none

kfree-Freed_example : Freed in_use page (kfree 0x1020 page)
kfree-Freed_example =
    kfree-Freed 0x1020 page in_use page-IsHeap (omega arith) (omega arith) (omega arith) found refl
      refl
  where
    found : find_block (0x1020 - 32) page.blocks ≡ some in_use
    found = unfold find_block in refl

kfree_twice_example :
    ((kfree 0x1020 (kfree 0x1020 page).1).0 ≢ freed)
    × ((kfree 0x1020 (kfree 0x1020 page).1).1 ≡ (kfree 0x1020 page).1)
kfree_twice_example = kfree_twice 0x1020 page page-IsHeap page-kfree

kfree-take_fit_example :
    let out = kfree taken.0 (record page { blocks = taken.1 }) in
    (out.0 ≡ freed)
    × IsHeap out.1
    × (span out.1.blocks ≡ span page.blocks)
    × (bytes_in_use out.1.blocks ≡ bytes_in_use page.blocks)
kfree-take_fit_example =
    kfree-take_fit 16 page taken page-IsHeap (omega arith) (omega arith) page-take_fit

-- An allocation on a page of its own, above a frame that the heap takes.
abbrev far_in_use : Block
far_in_use = record { addr = 0x4000; size = 64; free = false; magic = magic_allocated }

insert_free_block-absorbs_allocated_example :
    bytes_in_use (insert_free_block (frame_block 0x3000) (in_use ∷ rest_free ∷ far_in_use ∷ []))
      + 64
    ≡ bytes_in_use (in_use ∷ rest_free ∷ far_in_use ∷ [])
insert_free_block-absorbs_allocated_example =
    insert_free_block-absorbs_allocated (frame_block 0x3000) far_in_use (in_use ∷ rest_free ∷ []) []
      (omega arith, (omega arith, tt)) (omega arith) refl refl
