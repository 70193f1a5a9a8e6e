-- ===== src/Fs/Consistent.antt =====
-- What the bitmap says of the file table: the blocks that are taken are those that the files own.
use venom_os.Base.{
  ℕ, ◌≤◌, ◌<◌, ◌≡◌, ◌≢◌, if◌then◌else◌, Bool, true, false, refl, sym, ◌∙◌, ap, subst, arith, ◌⊎◌,
  Bool-cases, inl, inr, ℕ_discrete,
}
use venom_os.Base.Memory.{update}
use venom_os.Bitmap.{Bitmap, test_bit}
use venom_os.Fs.{FileEntry, max_files, max_extents, is_used}
use venom_os.Fs.Owners.{covers, AreInData}

-- The file is in use and has the block.
unfoldable pub owns : FileEntry → ℕ → Bool
owns f b = if is_used f then covers f.extent_count 0 f.extents b else false

-- Up to four extents, all of them in the data region.
pub record HasExtents (f : FileEntry) : Type 0 where
  pub few : f.extent_count ≤ max_extents
  pub in_data : AreInData f.extent_count 0 f.extents

-- The files' extents are in the data region, no two files share a block, and the bitmap marks the blocks
-- of the files and no others.
pub record IsConsistent (t : ℕ → FileEntry) (m : Bitmap) : Type 0 where
  pub extents : (i : ℕ) → i < max_files → is_used (t i) ≡ true → HasExtents (t i)
  pub marked : (i b : ℕ) → i < max_files → owns (t i) b ≡ true → test_bit m b ≡ true
  pub owned : (b : ℕ) → test_bit m b ≡ true → (i : ℕ) × (i < max_files) × (owns (t i) b ≡ true)
  pub unique :
      (i j b : ℕ)
      → i < max_files
      → j < max_files
      → owns (t i) b ≡ true
      → owns (t j) b ≡ true
      → i ≡ j

owns-unused : (f : FileEntry) (b : ℕ) → is_used f ≡ false → owns f b ≢ true
unfolding owns
owns-unused f b h e = ground arith

pub update-at {ℓ} : {A : Type ℓ} (t : ℕ → A) (i : ℕ) (f : A) → update t i f i ≡ f
update-at t i f = ground arith

pub update-other {ℓ} :
    {A : Type ℓ} (t : ℕ → A) (i : ℕ) (f : A) (k : ℕ) → k ≢ i → update t i f k ≡ t k
update-other t i f k ne = ground arith

-- Who has a block once the entry in slot `i` is another one.
owner :
    (t : ℕ → FileEntry) (i : ℕ) (f : FileEntry) (k b : ℕ)
    → owns (update t i f k) b ≡ true
    → ((k ≡ i) × (owns f b ≡ true)) ⊎ ((k ≢ i) × (owns (t k) b ≡ true))
owner t i f k b o = elim (ℕ_discrete k i) [
  | yes same ↦ inl (
    same,
    sym (ap (λ x. owns (update t i f x) b) same ∙ ap (λ x. owns x b) (update-at t i f)) ∙ o,
  )
  | no other ↦ inr (other, sym (ap (λ x. owns x b) (update-other t i f k other)) ∙ o)
]

-- A block that a file has after its slot `i` became unused, it had before.
kept :
    (t : ℕ → FileEntry) (i : ℕ) (f : FileEntry) (k b : ℕ)
    → is_used f ≡ false
    → owns (update t i f k) b ≡ true
    → (k ≢ i) × (owns (t k) b ≡ true)
kept t i f k b unused o = elim (owner t i f k b o) [
  | inl (same, mine) ↦ absurd (owns-unused f b unused mine)
  | inr old ↦ old
]

-- A slot in use becomes unused, and its blocks are free.
pub IsConsistent-release :
    (t : ℕ → FileEntry) (m m' : Bitmap) (i : ℕ) (f : FileEntry)
    → i < max_files
    → is_used f ≡ false
    → ((b : ℕ) → test_bit m' b ≡ (if owns (t i) b then false else test_bit m b))
    → IsConsistent t m
    → IsConsistent (update t i f) m'
IsConsistent-release t m m' i f lt unused bits c = record {
  extents = λ k p u. elim (ℕ_discrete k i) [
    | yes same ↦ ground arith
    | no other ↦
        let at = update-other t i f k other in
        subst HasExtents (sym at) (c.extents k p (sym (ap is_used at) ∙ u))
  ];
  marked = λ k b p o.
      let (other, o') = kept t i f k b unused o in
      let taken = c.marked k b p o' in
      elim (Bool-cases (owns (t i) b)) [
        | inl yours ↦ absurd (other (c.unique k i b p lt o' yours))
        | inr not_yours ↦ bits b ∙ (rw not_yours taken)
      ];
  owned = λ b taken. elim (Bool-cases (owns (t i) b)) [
    | inl yours ↦ ground (arith, bits b)
    | inr not_yours ↦
        let (k, p, o) = c.owned b (ground (arith, bits b)) in
        let other : k ≢ i = λ same. (let mine = ap (λ x. owns (t x) b) (sym same) ∙ o in cc) in
        (k, p, ap (λ x. owns x b) (update-other t i f k other) ∙ o)
  ];
  unique = λ k j b p q ok oj.
      c.unique k j b p q (kept t i f k b unused ok).1 (kept t i f j b unused oj).1;
}

-- An unused slot takes a file whose blocks were free, and they are marked.
pub IsConsistent-claim :
    (t : ℕ → FileEntry) (m m' : Bitmap) (i : ℕ) (f : FileEntry)
    → i < max_files
    → is_used (t i) ≡ false
    → HasExtents f
    → ((b : ℕ) → owns f b ≡ true → test_bit m b ≡ false)
    → ((b : ℕ) → test_bit m' b ≡ (if owns f b then true else test_bit m b))
    → IsConsistent t m
    → IsConsistent (update t i f) m'
IsConsistent-claim t m m' i f lt unused has free bits c = record {
  extents = λ k p u. elim (ℕ_discrete k i) [
    | yes same ↦ subst HasExtents (sym (ap (update t i f) same ∙ update-at t i f)) has
    | no other ↦
        let at = update-other t i f k other in
        subst HasExtents (sym at) (c.extents k p (sym (ap is_used at) ∙ u))
  ];
  marked = λ k b p o. elim (owner t i f k b o) [
    | inl (same, mine) ↦ bits b ∙ (rw mine refl)
    | inr (other, old) ↦ let taken = c.marked k b p old in ground (arith, bits b)
  ];
  owned = λ b taken. elim (Bool-cases (owns f b)) [
    | inl yours ↦ (i, lt, ap (λ x. owns x b) (update-at t i f) ∙ yours)
    | inr not_yours ↦
        let (k, p, o) = c.owned b (ground (arith, bits b)) in
        let other : k ≢ i = λ same. owns-unused (t k) b (ap (λ x. is_used (t x)) same ∙ unused) o in
        (k, p, ap (λ x. owns x b) (update-other t i f k other) ∙ o)
  ];
  unique = λ k j b p q ok oj.
      let taken_k = λ (old : owns (t k) b ≡ true). c.marked k b p old in
      let taken_j = λ (old : owns (t j) b ≡ true). c.marked j b q old in
      elim (owner t i f k b ok) [
        | inl (k_new, k_mine) ↦ elim (owner t i f j b oj) [
          | inl (j_new, j_mine) ↦ k_new ∙ sym j_new
          | inr (j_old, j_has) ↦ let taken = taken_j j_has in let not = free b k_mine in cc
        ]
        | inr (k_old, k_has) ↦ elim (owner t i f j b oj) [
          | inl (j_new, j_mine) ↦ let taken = taken_k k_has in let not = free b j_mine in cc
          | inr (j_old, j_has) ↦ c.unique k j b p q k_has j_has
        ]
      ];
}

-- The same entries and the same bits.
pub IsConsistent-same :
    (t t' : ℕ → FileEntry) (m m' : Bitmap)
    → ((k : ℕ) → t' k ≡ t k)
    → ((b : ℕ) → test_bit m' b ≡ test_bit m b)
    → IsConsistent t m
    → IsConsistent t' m'
IsConsistent-same t t' m m' entries bits c = record {
  extents = λ k p u.
      subst HasExtents (sym (entries k)) (c.extents k p (sym (ap is_used (entries k)) ∙ u));
  marked = λ k b p o. bits b ∙ c.marked k b p (sym (ap (λ x. owns x b) (entries k)) ∙ o);
  owned = λ b taken.
      let (k, p, o) = c.owned b (sym (bits b) ∙ taken) in
      (k, p, ap (λ x. owns x b) (entries k) ∙ o);
  unique = λ k j b p q ok oj.
      c.unique k j b p q (sym (ap (λ x. owns x b) (entries k)) ∙ ok)
        (sym (ap (λ x. owns x b) (entries j)) ∙ oj);
}
