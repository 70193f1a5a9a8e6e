-- ===== src/Pmm/Ranges.antt =====
-- Which frames the range operations of pmm.cpp and `init` mark, frame by frame.
use venom_os.Base.{
  ℕ, zero, suc, ◌+◌, ◌-◌, ◌*◌, ◌/◌, ◌≡◌, refl, arith, if◌then◌else◌, List, [], ◌∷◌, true, false,
  Bool, ◌&&◌, leb, ltb, ◌==◌,
}
use venom_os.Base.Memory.{u64}
use venom_os.Bitmap.{test_bit}
use venom_os.Bitmap.Laws.{test_bit-set_bit, test_bit-clear_bit}
use venom_os.Bitmap.Count.{test_bit-all_used}
use venom_os.Pmm.{
  Pmm, E820Entry, frame_size, e820_type_usable, clip, use_frame, release_frame, use_frames,
  release_frames, mark_range_used, mark_range_free, free_entry, free_entries, init,
}

test_bit-use_frame :
    (p : Pmm) (f g : ℕ)
    → test_bit (use_frame p f).bitmap g ≡ (if f == g then true else test_bit p.bitmap g)
unfolding use_frame
test_bit-use_frame p f g = ground (arith, test_bit-set_bit p.bitmap f g)

test_bit-release_frame :
    (p : Pmm) (f g : ℕ)
    → test_bit (release_frame p f).bitmap g ≡ (if f == g then false else test_bit p.bitmap g)
unfolding release_frame
test_bit-release_frame p f g = ground (arith, test_bit-clear_bit p.bitmap f g)

abbrev within : ℕ → ℕ → ℕ → Bool
within f left g = leb f g && ltb g (f + left)

test_bit-use_frames :
    (left f : ℕ) (p : Pmm) (g : ℕ)
    → test_bit (use_frames left f p).bitmap g
      ≡ (if within f left g then true else test_bit p.bitmap g)
unfolding use_frames
test_bit-use_frames zero f p g = ground arith
test_bit-use_frames (suc left) f p g =
    ground (arith, test_bit-use_frames left (f + 1) (use_frame p f) g, test_bit-use_frame p f g)

test_bit-release_frames :
    (left f : ℕ) (p : Pmm) (g : ℕ)
    → test_bit (release_frames left f p).bitmap g
      ≡ (if within f left g then false else test_bit p.bitmap g)
unfolding release_frames
test_bit-release_frames zero f p g = ground arith
test_bit-release_frames (suc left) f p g = ground (
  arith,
  test_bit-release_frames left (f + 1) (release_frame p f) g,
  test_bit-release_frame p f g,
)

-- Frame `g` has a byte in the part of [start, limit) that the allocator manages.
abbrev pub touches : ℕ → ℕ → ℕ → Bool
touches start limit g =
    ltb start (clip limit) && ltb start ((g + 1) * frame_size) && ltb (g * frame_size) (clip limit)

-- `mark_range_used` takes every managed frame that the range touches, and no other.
pub mark_range_used_lem :
    (start limit : ℕ) (p : Pmm) (g : ℕ)
    → test_bit (mark_range_used start limit p).bitmap g
      ≡ (if touches start limit g then true else test_bit p.bitmap g)
unfolding mark_range_used
mark_range_used_lem start limit p g = ground (
  arith,
  test_bit-use_frames ((clip limit + frame_size - 1) / frame_size - start / frame_size)
      (start / frame_size) p g,
)

-- `mark_range_free` frees every managed frame that the range touches, and no other: a frame that
-- lies only partly in the range is freed too.
pub mark_range_free_lem :
    (start limit : ℕ) (p : Pmm) (g : ℕ)
    → test_bit (mark_range_free start limit p).bitmap g
      ≡ (if touches start limit g then false else test_bit p.bitmap g)
unfolding mark_range_free
mark_range_free_lem start limit p g = ground (
  arith,
  test_bit-release_frames ((clip limit + frame_size - 1) / frame_size - start / frame_size)
      (start / frame_size) p g,
)

-- Some usable entry of the memory map touches frame `g`.
abbrev pub some_usable : List E820Entry → ℕ → Bool
some_usable [] g = false
some_usable (e ∷ es) g =
    if (e.type == e820_type_usable) && touches e.base (u64 (e.base + e.length)) g
    then true
    else some_usable es g

test_bit-free_entry :
    (p : Pmm) (e : E820Entry) (g : ℕ)
    → test_bit (free_entry p e).bitmap g ≡ (
        if (e.type == e820_type_usable) && touches e.base (u64 (e.base + e.length)) g
        then false
        else test_bit p.bitmap g)
unfolding free_entry
test_bit-free_entry p e g = ground (arith, mark_range_free_lem e.base (u64 (e.base + e.length)) p g)

free_entries_lem :
    (es : List E820Entry) (p : Pmm) (g : ℕ)
    → test_bit (free_entries es p).bitmap g
      ≡ (if some_usable es g then false else test_bit p.bitmap g)
unfolding free_entries
free_entries_lem [] p g = refl
free_entries_lem (e ∷ es) p g =
    ground (arith, free_entries_lem es (free_entry p e) g, test_bit-free_entry p e g)

-- After `init` a frame is free exactly when some usable entry of the memory map touches it, it
-- lies above the first megabyte, and the kernel image does not touch it.
pub init_lem :
    (es : List E820Entry) (kernel_end g : ℕ)
    → test_bit (init es kernel_end).bitmap g ≡ (
        if touches 0 0x10_0000 g
        then true
        else (if touches 0x10_0000 kernel_end g
            then true
            else (if some_usable es g then false else true)))
unfolding init
init_lem es kernel_end g = ground (
  arith,
  mark_range_used_lem 0x10_0000 kernel_end
      (mark_range_used 0 0x10_0000
        (free_entries es (record { bitmap = λ i. 0xff; free_count = 0 })))
      g,
  mark_range_used_lem 0 0x10_0000 (free_entries es (record { bitmap = λ i. 0xff; free_count = 0 }))
      g,
  free_entries_lem es (record { bitmap = λ i. 0xff; free_count = 0 }) g,
  test_bit-all_used g,
)
