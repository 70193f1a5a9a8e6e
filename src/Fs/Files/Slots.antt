-- ===== src/Fs/Files/Slots.antt =====
-- The lemmas on the steps of `write` and `remove` of fs.cpp: the slots, the blocks, and the saves.
use venom_os.Base.{
  ℕ, zero, suc, ◌+◌, ◌≤◌, ◌<◌, ◌≡◌, if◌then◌else◌, true, false, ◌&&◌, refl, sym, ◌∙◌, ap, subst,
  arith, Bool-cases, inl, inr, some,
}
use venom_os.Base.Memory.{u8}
use venom_os.Bitmap.{Bitmap, test_bit}
use venom_os.Fs.{
  Fs, Extent, FileEntry, max_files, is_used, set_extents, clear_extents, free_entry, cleared,
  name_equals,
}
use venom_os.Fs.Blocks.{Extents}
use venom_os.Fs.Blocks.Fragments.{IsFreeExtent}
use venom_os.Fs.Blocks.Choice.{IsChoice}
use venom_os.Fs.Owners.{
  covers, covers-cong, AreInData, IsInData, test_bit-set_extents, test_bit-clear_extents,
}
use venom_os.Fs.Consistent.{owns, HasExtents, IsConsistent, IsConsistent-release}
use venom_os.Fs.Format.{
  save_file_table, save_bitmap, AreKept, save_file_table-AreKept, save_bitmap-AreKept,
}
use venom_os.Fs.Files.{find_from, find, unused_from, give_up, filled, commit}

-- The state's table and bitmap agree.
pub record IsSound (s : Fs) : Type 0 where
  pub consistent : IsConsistent s.file_table s.bitmap

-- A slot in use whose name is the one that is looked for.
pub record IsFound (t : ℕ → FileEntry) (name : ℕ → ℕ) (i : ℕ) : Type 0 where
  pub inside : i < max_files
  pub used : is_used (t i) ≡ true
  pub named : name_equals (t i).name name ≡ true

find_from-IsFound :
    (left i : ℕ) (t : ℕ → FileEntry) (name : ℕ → ℕ) (k : ℕ)
    → i + left ≤ max_files
    → find_from left i t name ≡ some k
    → IsFound t name k
unfolding find_from
find_from-IsFound zero i t name k fits e = cc
find_from-IsFound (suc left) i t name k fits e =
    elim (Bool-cases (is_used (t i) && name_equals (t i).name name)) [
      | inl here ↦
          let same : i ≡ k = ground arith in
          subst (IsFound t name) same
            (record { inside = omega arith; used = ground arith; named = ground arith })
      | inr on ↦ find_from-IsFound left (i + 1) t name k (omega arith) (ground arith)
    ]

pub find-IsFound :
    (t : ℕ → FileEntry) (name : ℕ → ℕ) (k : ℕ) → find t name ≡ some k → IsFound t name k
unfolding find
find-IsFound t name k e = find_from-IsFound max_files 0 t name k (omega arith) e

pub unused_from_lem :
    (left i : ℕ) (t : ℕ → FileEntry) (k : ℕ)
    → i + left ≤ max_files
    → unused_from left i t ≡ some k
    → (k < max_files) × (is_used (t k) ≡ false)
unfolding unused_from
unused_from_lem zero i t k fits e = cc
unused_from_lem (suc left) i t k fits e = elim (Bool-cases (is_used (t i))) [
  | inr free ↦
      let same : i ≡ k = ground arith in (ground arith, ap (λ x. is_used (t x)) (sym same) ∙ free)
  | inl used ↦ unused_from_lem left (i + 1) t k (omega arith) (ground arith)
]

pub owns-used :
    (f : FileEntry) (b : ℕ) → is_used f ≡ true → owns f b ≡ covers f.extent_count 0 f.extents b
unfolding owns
owns-used f b u = ground arith

pub free_entry-IsSound :
    (i : ℕ) (s : Fs)
    → i < max_files
    → is_used (s.file_table i) ≡ true
    → IsSound s
    → IsSound (free_entry i s)
unfolding free_entry
free_entry-IsSound i s lt used sound =
    let c = sound.consistent in
    let f = s.file_table i in
    let has = c.extents i lt used in
    record {
      consistent =
          IsConsistent-release s.file_table s.bitmap
            (clear_extents f.extent_count 0 f.extents s.bitmap) i (cleared f) lt refl
            (λ b.
              test_bit-clear_extents f.extent_count 0 f.extents s.bitmap b has.in_data
              ∙ ap (λ x. if x then false else test_bit s.bitmap b) (sym (owns-used f b used)))
            c;
    }

IsFreeExtent-IsInData : (m : Bitmap) (x : Extent) → IsFreeExtent m x → IsInData x
IsFreeExtent-IsInData m x f = record { above = f.above; inside = f.inside }

covers-free :
    (left e : ℕ) (xs : ℕ → Extent) (m : Bitmap) (b : ℕ)
    → ((k : ℕ) → e ≤ k → k < e + left → IsFreeExtent m (xs k))
    → covers left e xs b ≡ true
    → test_bit m b ≡ false
unfolding covers
covers-free zero e xs m b free o = ground arith
covers-free (suc left) e xs m b free o =
    let f = free e (omega arith) (omega arith) in
    let above = f.above in
    let inside = f.inside in
    let here = f.free b in
    let rest = covers-free left (e + 1) xs m b (λ k p q. free k (omega arith) (omega arith)) in
    ground arith

pub AreKept-IsSound : (s s' : Fs) → AreKept s s' → IsSound s → IsSound s'
AreKept-IsSound s s' k sound = record {
  consistent =
      subst (λ t. IsConsistent t s'.bitmap) (sym k.table)
        (subst (IsConsistent s.file_table) (sym k.bits) sound.consistent);
}

pub AreKept-then : (s₁ s₂ s₃ : Fs) → AreKept s₁ s₂ → AreKept s₂ s₃ → AreKept s₁ s₃
AreKept-then s₁ s₂ s₃ a b = record { table = b.table ∙ a.table; bits = b.bits ∙ a.bits }

pub give_up-AreKept : (s : Fs) → AreKept s (give_up s).1
give_up-AreKept s =
    AreKept-then s (save_bitmap s).1 (give_up s).1 (save_bitmap-AreKept s)
      (save_file_table-AreKept (save_bitmap s).1)

pub give_up-IsSound : (s : Fs) → IsSound s → IsSound (give_up s).1
give_up-IsSound s = AreKept-IsSound s (give_up s).1 (give_up-AreKept s)

pub commit-AreKept : (s : Fs) → AreKept s (commit s).1
unfolding commit
commit-AreKept s =
    AreKept-then s (save_file_table s).1 (commit s).1 (save_file_table-AreKept s)
      (save_bitmap-AreKept (save_file_table s).1)

-- What a choice of blocks says in terms of the blocks.
module _ (m : Bitmap) (needed : ℕ) (xs : Extents) (c : IsChoice m needed xs) where
  pub choice-AreInData : AreInData xs.count 0 xs.extents
  choice-AreInData k p q = IsFreeExtent-IsInData m (xs.extents k) (c.free k (omega arith))

  pub choice-free : (b : ℕ) → covers xs.count 0 xs.extents b ≡ true → test_bit m b ≡ false
  choice-free b = covers-free xs.count 0 xs.extents m b (λ k p q. c.free k (omega arith))

  -- The blocks are taken and released again.
  pub taken_and_released :
      (b : ℕ)
      → test_bit (clear_extents xs.count 0 xs.extents (set_extents xs.count 0 xs.extents m)) b
        ≡ test_bit m b
  taken_and_released b = ground (
    arith,
    test_bit-clear_extents xs.count 0 xs.extents (set_extents xs.count 0 xs.extents m) b
        choice-AreInData,
    test_bit-set_extents xs.count 0 xs.extents m b choice-AreInData,
    choice-free b,
  )

  -- The new entry has these blocks.
  module _ (f : FileEntry) (name : ℕ → ℕ) (size : ℕ) where
    pub filled-HasExtents : HasExtents (filled f name size xs)
    filled-HasExtents = record {
      few = let h = c.few in omega arith;
      in_data = λ k p q.
          let h = c.few in
          let small : k < 0 + xs.count = omega arith in
          subst IsInData (ground arith) (choice-AreInData k p small);
    }

    pub owns-filled : (b : ℕ) → owns (filled f name size xs) b ≡ covers xs.count 0 xs.extents b
    owns-filled b =
        let h = c.few in
        let count : u8 xs.count ≡ xs.count = omega arith in
        owns-used (filled f name size xs) b refl
        ∙ ap (λ n. covers n 0 (filled f name size xs).extents b) count
        ∙ covers-cong xs.count 0 (filled f name size xs).extents xs.extents b
            (λ k p q. ground arith)
