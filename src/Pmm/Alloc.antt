-- ===== src/Pmm/Alloc.antt =====
-- `alloc_frame` and `free_frame` of pmm.cpp.
use venom_os.Base.{
  ap, sym, ◌∙◌, ℕ, ◌+◌, ◌*◌, ◌/◌, ◌<◌, ◌≡◌, ◌≢◌, refl, arith, if◌then◌else◌, ◌⊎◌, inl, inr, true,
  false, ◌==◌, some, Option-cases,
}
use venom_os.Bitmap.{test_bit}
use venom_os.Bitmap.Laws.{test_bit-set_bit, test_bit-clear_bit}
use venom_os.Bitmap.Count.{count_free-le, count_free_pos}
use venom_os.Pmm.{
  Pmm, managed_frames, frame_size, release_frame, find_free, alloc_at, alloc_frame, free_frame,
}
use venom_os.Pmm.Invariant.{IsValid, alloc_frame-IsValid, Found, find_free-some, find_free-none}

-- `out` is an allocation of the lowest free frame, `f`.
pub record Allocated (p : Pmm) (f : ℕ) (out : ℕ × Pmm) : Type 0 where
  pub address : out.0 ≡ f * frame_size
  pub managed : f < managed_frames
  pub was_free : test_bit p.bitmap f ≡ false
  pub lowest : (g : ℕ) → g < f → test_bit p.bitmap g ≡ true
  pub bits : (g : ℕ) → test_bit out.1.bitmap g ≡ (if f == g then true else test_bit p.bitmap g)
  pub counter : out.1.free_count + 1 ≡ p.free_count

-- No managed frame is free, and nothing changes.
pub record OutOfMemory (p : Pmm) (out : ℕ × Pmm) : Type 0 where
  pub null : out ≡ (0, p)
  pub full : (g : ℕ) → g < managed_frames → test_bit p.bitmap g ≡ true

alloc_at-Allocated :
    (p : Pmm) (f : ℕ)
    → IsValid p
    → Found p.bitmap 0 managed_frames f
    → Allocated p f (alloc_at (some f) p)
unfolding alloc_at
alloc_at-Allocated p f v found = record {
  address = refl;
  managed = found.below;
  was_free = found.free;
  lowest = λ g h. found.first g (omega arith) h;
  bits = test_bit-set_bit p.bitmap f;
  counter = omega (
    arith,
    count_free_pos p.bitmap f managed_frames found.below found.free,
    count_free-le p.bitmap managed_frames,
  );
}

-- With an exact counter, `alloc_frame` either takes the lowest free frame and leaves every other bit alone, or no
-- managed frame is free and it returns 0 and changes nothing.
pub alloc_frame_lem :
    (p : Pmm)
    → IsValid p
    → ((f : ℕ) × Allocated p f (alloc_frame p)) ⊎ OutOfMemory p (alloc_frame p)
unfolding alloc_frame
alloc_frame_lem p v = elim (Option-cases (find_free managed_frames 0 p.bitmap)) [
  | inl full ↦ inr (
      rw full (record {
        null = unfold alloc_at in refl;
        full = λ g h. find_free-none managed_frames 0 p.bitmap g full (omega arith) (omega arith);
      }))
  | inr (f, e) ↦
      inl (f, rw e (alloc_at-Allocated p f v (find_free-some managed_frames 0 p.bitmap f e)))
]

-- With an exact counter and frame 0 in use, a zero result of `alloc_frame` means that no managed
-- frame is free, and nothing changes.
pub alloc_frame-zero :
    (p : Pmm) (g : ℕ)
    → IsValid p
    → test_bit p.bitmap 0 ≡ true
    → (alloc_frame p).0 ≡ 0
    → g < managed_frames
    → (test_bit p.bitmap g ≡ true) × ((alloc_frame p).1 ≡ p)
alloc_frame-zero p g v reserved e h = elim (alloc_frame_lem p v) [
  | inl (f, a) ↦ absurd (ground (arith, a.address, a.was_free))
  | inr o ↦ (o.full g h, ap (λ (out : ℕ × Pmm). out.1) o.null)
]

-- With an exact counter, freeing a frame that was just allocated restores every bit and the counter.
pub free_frame-alloc_frame :
    (p : Pmm) (g : ℕ)
    → IsValid p
    → (alloc_frame p).0 ≢ 0
    → let q = free_frame (alloc_frame p).1 (alloc_frame p).0 in
      (test_bit q.bitmap g ≡ test_bit p.bitmap g) × (q.free_count ≡ p.free_count)
unfolding free_frame release_frame
free_frame-alloc_frame p g v ne = elim (alloc_frame_lem p v) [
  | inl (f, a) ↦ ground (
    arith,
    a.address,
    a.bits g,
    a.bits f,
    test_bit-clear_bit (alloc_frame p).1.bitmap f g,
    count_free-le p.bitmap managed_frames,
  )
  | inr o ↦ absurd (ne (ap (λ (out : ℕ × Pmm). out.0) o.null))
]

-- A second `free_frame` of the same address changes nothing.
pub free_frame_twice : (p : Pmm) (a : ℕ) → free_frame (free_frame p a) a ≡ free_frame p a
unfolding free_frame release_frame
free_frame_twice p a = ground (arith, test_bit-clear_bit p.bitmap (a / frame_size) (a / frame_size))

-- With an exact counter, the allocation after one that did not return 0 hands out another address.
pub alloc_frame_fresh :
    (p : Pmm)
    → IsValid p
    → (alloc_frame p).0 ≢ 0
    → (alloc_frame (alloc_frame p).1).0 ≢ (alloc_frame p).0
alloc_frame_fresh p v ne e = elim (alloc_frame_lem p v) [
  | inl (f, a) ↦ elim (alloc_frame_lem (alloc_frame p).1 (alloc_frame-IsValid p v)) [
    | inl (g, b) ↦ ground (arith, a.address, b.address, a.bits g)
    | inr o ↦ ne (sym e ∙ ap (λ (out : ℕ × Pmm). out.0) o.null)
  ]
  | inr o ↦ ne (ap (λ (out : ℕ × Pmm). out.0) o.null)
]
