-- ===== src/Pmm/Tests.antt =====
-- Runs of the frame allocator of pmm.cpp on small memories.
use venom_os.Base.{
  ℕ, ◌≡◌, ap, refl, sym, arith, List, [], ◌∷◌, true, false, ◌⊎◌, inl, inr, if◌then◌else◌,
}
use venom_os.Bitmap.{test_bit, clear_bit}
use venom_os.Bitmap.Count.{count_free-all_used, test_bit-all_used}
use venom_os.Pmm.{
  Pmm, E820Entry, managed_frames, mark_range_free, init, find_free, alloc_at, alloc_frame,
  free_frame, release_frame, release_frames,
}
use venom_os.Pmm.Invariant.{IsValid, mark_range_free-IsValid}
use venom_os.Pmm.Ranges.{touches, some_usable, mark_range_free_lem, init_lem}
use venom_os.Pmm.Alloc.{Allocated, OutOfMemory, alloc_frame_lem, alloc_frame-zero, free_frame_twice}

-- Every frame in use, and the memory with frame 1 free.
abbrev full_memory : Pmm
full_memory = record { bitmap = λ i. 0xff; free_count = 0 }

abbrev one_free : Pmm
one_free = mark_range_free 0x1000 0x2000 full_memory

-- A memory map with a megabyte that is usable and a part that is not.
abbrev memory_map : List E820Entry
memory_map =
    record { base = 0x10_0000; length = 0x10_0000; type = 1 }
    ∷ record { base = 0x20_0000; length = 0x1000; type = 2 }
    ∷ []

full_memory-IsValid : IsValid full_memory
full_memory-IsValid = record {
  counted = sym (count_free-all_used managed_frames);
  small = omega arith;
}

one_free-IsValid : IsValid one_free
one_free-IsValid = mark_range_free-IsValid 0x1000 0x2000 full_memory full_memory-IsValid

one_free-first : (alloc_frame one_free).0 ≡ 0x1000
unfolding alloc_frame alloc_at find_free mark_range_free release_frames release_frame test_bit
    clear_bit
one_free-first = refl

full_memory-null : (alloc_frame full_memory).0 ≡ 0
full_memory-null = elim (alloc_frame_lem full_memory full_memory-IsValid) [
  | inl (f, a) ↦ absurd (ground (arith, test_bit-all_used f, a.was_free))
  | inr o ↦ ap (λ (out : ℕ × Pmm). out.0) o.null
]

alloc_frame_lem_example :
    ((f : ℕ) × Allocated one_free f (alloc_frame one_free))
    ⊎ OutOfMemory one_free (alloc_frame one_free)
alloc_frame_lem_example = alloc_frame_lem one_free one_free-IsValid

alloc_frame-zero_example :
    (test_bit full_memory.bitmap 9 ≡ true) × ((alloc_frame full_memory).1 ≡ full_memory)
alloc_frame-zero_example =
    alloc_frame-zero full_memory 9 full_memory-IsValid (test_bit-all_used 0) full_memory-null
      (omega arith)

free_frame_twice_example :
    free_frame (free_frame full_memory 0x1000) 0x1000 ≡ free_frame full_memory 0x1000
free_frame_twice_example = free_frame_twice full_memory 0x1000

mark_range_free_lem_example :
    test_bit (mark_range_free 0x1800 0x2000 full_memory).bitmap 1
    ≡ (if touches 0x1800 0x2000 1 then false else test_bit full_memory.bitmap 1)
mark_range_free_lem_example = mark_range_free_lem 0x1800 0x2000 full_memory 1

init_lem_example : test_bit (init memory_map 0x12_0000).bitmap 0x130 ≡ (
    if touches 0 0x10_0000 0x130
    then true
    else (if touches 0x10_0000 0x12_0000 0x130
        then true
        else (if some_usable memory_map 0x130 then false else true)))
init_lem_example = init_lem memory_map 0x12_0000 0x130
