-- ===== src/Elf/Accept.antt =====
-- The loop of `validate` over the program headers: each segment is sound and clear of the others.
use venom_os.Base.{
  ℕ, zero, suc, ◌+◌, ◌^◌, ◌≤◌, ◌<◌, ◌≡◌, ◌⊎◌, inl, inr, false, ◌==◌, arith, List, ◌∷◌, ◌||◌,
  Bool-cases, subst,
}
use native.Mathlib.Decide.{dec_lt}
use venom_os.Base.Result.{ok, Result-cases}
use venom_os.Elf.{
  Phdr, PageRange, page_range, check_contents, check_placement, check_load, check_phdr, check_phdrs,
  meets, meets_any, pt_null, pt_load, pt_gnu_stack,
}
use venom_os.Elf.Segment.{
  HasWidths, HasContents, HasPlacement, check_contents_iff, check_placement_sound,
}

-- A header that the loader skips, or a sound segment clear of those before it.
abbrev pub IsSkipped : Phdr → Type 0
IsSkipped p = (p.p_type ≡ pt_null) ⊎ (p.p_type ≡ pt_gnu_stack)

pub record IsSegment (p : Phdr) (file_size : ℕ) : Type 0 where
  pub loadable : p.p_type ≡ pt_load
  pub contents : HasContents p file_size
  pub placement : HasPlacement p

pub record Joins (p : Phdr) (file_size : ℕ) (loads out : List PageRange) : Type 0 where
  pub segment : IsSegment p file_size
  pub clear : meets_any (page_range p) loads ≡ false
  pub added : out ≡ page_range p ∷ loads

meets_any-cons :
    (r s : PageRange) (loads : List PageRange)
    → meets_any r (s ∷ loads) ≡ false
    → (meets r s ≡ false) × (meets_any r loads ≡ false)
unfolding meets_any
meets_any-cons r s loads h = ground arith

module _ (file_size : ℕ) (small : file_size < 2 ^ 64) where
  check_load_sound :
      (p : Phdr) (loads out : List PageRange)
      → HasWidths p
      → check_load p file_size loads ≡ ok out
      → Joins p file_size loads out
  unfolding check_load
  check_load_sound p loads out w e = elim (Result-cases (check_contents p file_size)) [
    | inl (x, bad) ↦ absurd (ground (arith, bad))
    | inr (u, contents) ↦ elim (Result-cases (check_placement p)) [
      | inl (x, bad) ↦ absurd (ground (arith, bad, contents))
      | inr (r, placed) ↦
          let sound = check_placement_sound p w r placed in
          record {
            segment = record {
              loadable = ground (arith, placed, contents);
              contents = (check_contents_iff p w file_size small).0 contents;
              placement = sound.0;
            };
            clear = ground (arith, placed, contents, sound.1);
            added = ground (arith, placed, contents, sound.1);
          }
    ]
  ]

  check_phdr_sound :
      (p : Phdr) (loads out : List PageRange)
      → HasWidths p
      → check_phdr p file_size loads ≡ ok out
      → (IsSkipped p × (out ≡ loads)) ⊎ Joins p file_size loads out
  unfolding check_phdr
  check_phdr_sound p loads out w e =
      elim (Bool-cases (p.p_type == pt_null || p.p_type == pt_gnu_stack)) [
        | inl skip ↦ inl (ground arith)
        | inr load ↦ inr (check_load_sound p loads out w (rw load at e))
      ]

  -- A header that is skipped, or a sound segment clear of the ranges before it.
  abbrev pub Sound : Phdr → List PageRange → Type 0
  Sound p loads = IsSkipped p ⊎ (IsSegment p file_size × (meets_any (page_range p) loads ≡ false))

  check_phdr-Sound :
      (p : Phdr) (loads mid : List PageRange)
      → HasWidths p
      → check_phdr p file_size loads ≡ ok mid
      → Sound p loads
  check_phdr-Sound p loads mid w e = elim (check_phdr_sound p loads mid w e) [
    | inl s ↦ inl s.0
    | inr j ↦ inr (j.segment, j.clear)
  ]

  -- What is clear of the ranges after a round is clear of those before it.
  Sound-before :
      (p q : Phdr) (loads mid : List PageRange)
      → HasWidths p
      → check_phdr p file_size loads ≡ ok mid
      → Sound q mid
      → Sound q loads
  Sound-before p q loads mid w e (inl s) = inl s
  Sound-before p q loads mid w e (inr (seg, clear)) = elim (check_phdr_sound p loads mid w e) [
    | inl s ↦ inr (seg, rw s.1 at clear)
    | inr j ↦
        inr (seg, (meets_any-cons (page_range q) (page_range p) loads (rw j.added at clear)).1)
  ]

  first_clear :
      (p q : Phdr) (loads mid : List PageRange)
      → p.p_type ≡ pt_load
      → q.p_type ≡ pt_load
      → (IsSkipped p × (mid ≡ loads)) ⊎ Joins p file_size loads mid
      → Sound q mid
      → meets (page_range q) (page_range p) ≡ false
  first_clear p q loads mid tp tq (inl s) later = absurd (ground arith)
  first_clear p q loads mid tp tq (inr j) (inl s) = absurd (ground arith)
  first_clear p q loads mid tp tq (inr j) (inr (seg, clear)) =
      (meets_any-cons (page_range q) (page_range p) loads (rw j.added at clear)).0

  module _ (phdr : ℕ → Phdr) (w : (k : ℕ) → HasWidths (phdr k)) where
    pub check_phdrs-Sound :
        (left i : ℕ) (loads out : List PageRange)
        → check_phdrs left i phdr file_size loads ≡ ok out
        → (k : ℕ) → i ≤ k
        → k < i + left
        → Sound (phdr k) loads
    unfolding check_phdrs
    check_phdrs-Sound zero i loads out e k p q = absurd (omega arith)
    check_phdrs-Sound (suc left) i loads out e k p q =
        elim (Result-cases (check_phdr (phdr i) file_size loads)) [
          | inl (x, bad) ↦ absurd (ground (arith, bad))
          | inr (mid, good) ↦ elim (dec_lt i k) [
            | yes above ↦ Sound-before (phdr i) (phdr k) loads mid (w i) good (
                check_phdrs-Sound left (i + 1) mid out (ground (arith, good)) k (omega arith)
                  (omega arith))
            | no not_above ↦
                let here : i ≡ k = omega arith in
                subst (λ j. Sound (phdr j) loads) here
                  (check_phdr-Sound (phdr i) loads mid (w i) good)
          ]
        ]

    -- The ranges of two segments of an accepted table do not meet.
    pub check_phdrs_disjoint :
        (left i : ℕ) (loads out : List PageRange)
        → check_phdrs left i phdr file_size loads ≡ ok out
        → (j k : ℕ) → i ≤ j
        → j < k
        → k < i + left
        → (phdr j).p_type ≡ pt_load
        → (phdr k).p_type ≡ pt_load
        → meets (page_range (phdr k)) (page_range (phdr j)) ≡ false
    unfolding check_phdrs
    check_phdrs_disjoint zero i loads out e j k p q r tj tk = absurd (omega arith)
    check_phdrs_disjoint (suc left) i loads out e j k p q r tj tk =
        elim (Result-cases (check_phdr (phdr i) file_size loads)) [
          | inl (x, bad) ↦ absurd (ground (arith, bad))
          | inr (mid, good) ↦ elim (dec_lt i j) [
            | yes above ↦
                check_phdrs_disjoint left (i + 1) mid out (ground (arith, good)) j k (omega arith) q
                  (omega arith) tj tk
            | no not_above ↦
                let here : i ≡ j = omega arith in
                let later =
                  check_phdrs-Sound left (i + 1) mid out (ground (arith, good)) k (omega arith)
                    (omega arith) in
                first_clear (phdr j) (phdr k) loads mid tj tk
                  (subst
                    (λ n. (IsSkipped (phdr n) × (mid ≡ loads)) ⊎ Joins (phdr n) file_size loads mid)
                    here (check_phdr_sound (phdr i) loads mid (w i) good))
                  later
          ]
        ]
