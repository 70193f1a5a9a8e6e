-- ===== src/Pmm/Invariant.antt =====
-- The counter of pmm.cpp and the clear bits of its bitmap.
use venom_os.Base.{
  ℕ, zero, suc, ◌+◌, ◌/◌, ◌^◌, ◌≤◌, ◌<◌, ◌≡◌, arith, List, [], ◌∷◌, Option-cases, leb, sym,
  Bool-cases, inl, inr, true, false, none, some,
}
use venom_os.Bitmap.{Bitmap, test_bit, clear_bit, count_free}
use venom_os.Base.Memory.{u64}
use venom_os.Bitmap.Count.{
  count_free-all_used, count_free-set_bit, count_free-clear_bit, count_free-le,
}
use venom_os.Pmm.{
  Pmm, E820Entry, clip, frame_size, managed_frames, use_frame, release_frame, use_frames,
  release_frames, mark_range_used, mark_range_free, free_entry, free_entries, init, alloc_at,
  alloc_frame, free_frame, find_free,
}

-- `free_count` is the number of frames below `n` that the bitmap has free.
pub record Counts (n : ℕ) (p : Pmm) : Type 0 where
  pub counted : p.free_count ≡ count_free p.bitmap n
  pub small : n < 2 ^ 64

abbrev pub IsValid : Pmm → Type 0
IsValid p = Counts managed_frames p

module _ {n : ℕ} where
  pub use_frame-Counts : (p : Pmm) (f : ℕ) → f < n → Counts n p → Counts n (use_frame p f)
  unfolding use_frame
  use_frame-Counts p f h v =
      ground (arith, count_free-set_bit p.bitmap f n, count_free-le p.bitmap n)

  pub release_frame-Counts : (p : Pmm) (f : ℕ) → f < n → Counts n p → Counts n (release_frame p f)
  unfolding release_frame
  release_frame-Counts p f h v =
      ground (arith, count_free-clear_bit p.bitmap f n, count_free-le (clear_bit p.bitmap f) n)

  use_frames-Counts :
      (left f : ℕ) (p : Pmm) → f + left ≤ n → Counts n p → Counts n (use_frames left f p)
  unfolding use_frames
  use_frames-Counts zero f p h v = v
  use_frames-Counts (suc left) f p h v =
      use_frames-Counts left (f + 1) (use_frame p f) (omega arith)
        (use_frame-Counts p f (omega arith) v)

  release_frames-Counts :
      (left f : ℕ) (p : Pmm) → f + left ≤ n → Counts n p → Counts n (release_frames left f p)
  unfolding release_frames
  release_frames-Counts zero f p h v = v
  release_frames-Counts (suc left) f p h v =
      release_frames-Counts left (f + 1) (release_frame p f) (omega arith)
        (release_frame-Counts p f (omega arith) v)

-- `find_free` answers with a free frame of its range, and every frame before it is in use.
pub record Found (m : Bitmap) (lo hi f : ℕ) : Type 0 where
  pub above : lo ≤ f
  pub below : f < hi
  pub free : test_bit m f ≡ false
  pub first : (g : ℕ) → lo ≤ g → g < f → test_bit m g ≡ true

pub find_free-some :
    (left lo : ℕ) (m : Bitmap) (f : ℕ) → find_free left lo m ≡ some f → Found m lo (lo + left) f
unfolding find_free
find_free-some zero lo m f e = cc
find_free-some (suc left) lo m f e = elim (Bool-cases (test_bit m lo)) [
  | inl used ↦
      let rest : Found m (lo + 1) (lo + 1 + left) f =
        find_free-some left (lo + 1) m f (ground arith) in
      record {
        above = omega arith;
        below = omega arith;
        free = rest.free;
        first = λ g p q. ground (arith, rest.first g);
      }
  | inr free ↦ record {
    above = ground arith;
    below = ground arith;
    free = ground arith;
    first = λ g p q. absurd (ground arith);
  }
]

pub find_free-none :
    (left lo : ℕ) (m : Bitmap) (g : ℕ)
    → find_free left lo m ≡ none
    → lo ≤ g
    → g < lo + left
    → test_bit m g ≡ true
unfolding find_free
find_free-none zero lo m g e p q = absurd (omega arith)
find_free-none (suc left) lo m g e p q = ground (arith, find_free-none left (lo + 1) m g)

-- `mark_range_used` keeps the counter exact.
pub mark_range_used-IsValid :
    (start limit : ℕ) (p : Pmm) → IsValid p → IsValid (mark_range_used start limit p)
unfolding mark_range_used
mark_range_used-IsValid start limit p v = elim (Bool-cases (leb (clip limit) start)) [
  | inl empty ↦ rw empty v
  | inr some_frames ↦ rw some_frames (use_frames-Counts _ _ p (ground arith) v)
]

pub mark_range_free-IsValid :
    (start limit : ℕ) (p : Pmm) → IsValid p → IsValid (mark_range_free start limit p)
unfolding mark_range_free
mark_range_free-IsValid start limit p v = elim (Bool-cases (leb (clip limit) start)) [
  | inl empty ↦ rw empty v
  | inr some_frames ↦ rw some_frames (release_frames-Counts _ _ p (ground arith) v)
]

free_entry-IsValid : (p : Pmm) (e : E820Entry) → IsValid p → IsValid (free_entry p e)
unfolding free_entry
free_entry-IsValid p e v =
    ground (arith, mark_range_free-IsValid e.base (u64 (e.base + e.length)) p v)

free_entries-IsValid : (es : List E820Entry) (p : Pmm) → IsValid p → IsValid (free_entries es p)
unfolding free_entries
free_entries-IsValid [] p v = v
free_entries-IsValid (e ∷ es) p v = free_entries-IsValid es _ (free_entry-IsValid p e v)

-- After `init`, whatever the memory map says, the counter is exact.
pub init-IsValid : (es : List E820Entry) (kernel_end : ℕ) → IsValid (init es kernel_end)
unfolding init
init-IsValid es kernel_end = mark_range_used-IsValid _ _ _ (
    mark_range_used-IsValid _ _ _ (
      free_entries-IsValid es _
        (record { counted = sym (count_free-all_used managed_frames); small = omega arith })))

-- Allocating keeps the counter exact.
pub alloc_frame-IsValid : (p : Pmm) → IsValid p → IsValid (alloc_frame p).1
unfolding alloc_frame alloc_at
alloc_frame-IsValid p v = elim (Option-cases (find_free managed_frames 0 p.bitmap)) [
  | inl full ↦ rw full v
  | inr (f, e) ↦
      let found : Found p.bitmap 0 (0 + managed_frames) f = find_free-some _ _ _ f e in
      rw e (
        ground (
          arith,
          found,
          count_free-set_bit p.bitmap f managed_frames,
          count_free-le p.bitmap managed_frames,
        ))
]

-- Freeing keeps the counter exact, whatever address is handed in.
pub free_frame-IsValid : (p : Pmm) (a : ℕ) → IsValid p → IsValid (free_frame p a)
unfolding free_frame
free_frame-IsValid p a v =
    ground
      (arith, λ (h : a / frame_size < managed_frames). release_frame-Counts p (a / frame_size) h v)
