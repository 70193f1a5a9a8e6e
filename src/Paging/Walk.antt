-- ===== src/Paging/Walk.antt =====
-- The processor's walk of the tables, and what `count_wx_pages` says of it.
use venom_os.Base.{
  ℕ, zero, suc, ◌+◌, ◌≤◌, ◌<◌, ◌≡◌, ◌≢◌, inl, inr, if◌then◌else◌, true, false, Option, none, some,
  arith, Bool-cases, dec_lt, ℕ_discrete, subst,
}
use venom_os.Paging.{
  Tables, is_present, is_huge, is_wx, address, pml4_index, pdpt_index, pd_index, pt_index, count_pt,
  count_pd, count_pdpt, count_pml4, count_wx_pages,
}

-- The entry that maps an address, at whatever level: what the processor finds, from the page
-- directory, from the table above it, and from the root.
unfoldable pub leaf_pd : Tables → ℕ → ℕ → Option ℕ
leaf_pd t pd virt =
    let e₂ = t pd (pd_index virt) in
    if is_present e₂
    then (if is_huge e₂
        then some e₂
        else (let e₁ = t (address e₂) (pt_index virt) in if is_present e₁ then some e₁ else none))
    else none

unfoldable pub leaf_pdpt : Tables → ℕ → ℕ → Option ℕ
leaf_pdpt t pdpt virt =
    let e₃ = t pdpt (pdpt_index virt) in
    if is_present e₃ then (if is_huge e₃ then some e₃ else leaf_pd t (address e₃) virt) else none

unfoldable pub leaf : Tables → ℕ → ℕ → Option ℕ
leaf t pml4 virt =
    let e₄ = t pml4 (pml4_index virt) in
    if is_present e₄ then leaf_pdpt t (address e₄) virt else none

count_pt-zero :
    (left i : ℕ) (pt : ℕ → ℕ) (k : ℕ)
    → count_pt left i pt ≡ 0
    → i ≤ k
    → k < i + left
    → is_present (pt k) ≡ true
    → is_wx (pt k) ≡ false
unfolding count_pt
count_pt-zero zero i pt k e p q pr = absurd (omega arith)
count_pt-zero (suc left) i pt k e p q pr = elim (dec_lt i k) [
  | yes above ↦ count_pt-zero left (i + 1) pt k (omega arith) (omega arith) (omega arith) pr
  | no here ↦
      let same : i ≡ k = omega arith in
      subst (λ j. is_present (pt j) ≡ true → is_wx (pt j) ≡ false) same (λ pr'. ground arith) pr
]

count_pd-zero :
    (left i : ℕ) (pd : ℕ → ℕ) (t : Tables) (k : ℕ)
    → count_pd left i pd t ≡ 0
    → i ≤ k
    → k < i + left
    → is_present (pd k) ≡ true
    → (is_huge (pd k) ≡ true → is_wx (pd k) ≡ false)
      × (is_huge (pd k) ≡ false → count_pt 512 0 (t (address (pd k))) ≡ 0)
unfolding count_pd
count_pd-zero zero i pd t k e p q pr = absurd (omega arith)
count_pd-zero (suc left) i pd t k e p q pr = elim (dec_lt i k) [
  | yes above ↦ count_pd-zero left (i + 1) pd t k (omega arith) (omega arith) (omega arith) pr
  | no here ↦
      let same : i ≡ k = omega arith in
      subst
        (λ j.
          is_present (pd j) ≡ true
          → (is_huge (pd j) ≡ true → is_wx (pd j) ≡ false)
            × (is_huge (pd j) ≡ false → count_pt 512 0 (t (address (pd j))) ≡ 0))
        same (λ pr'. (λ h. ground arith, λ h. ground arith)) pr
]

count_pdpt-zero :
    (left i : ℕ) (pdpt : ℕ → ℕ) (t : Tables) (k : ℕ)
    → count_pdpt left i pdpt t ≡ 0
    → i ≤ k
    → k < i + left
    → is_present (pdpt k) ≡ true
    → (is_huge (pdpt k) ≡ true → is_wx (pdpt k) ≡ false)
      × (is_huge (pdpt k) ≡ false → count_pd 512 0 (t (address (pdpt k))) t ≡ 0)
unfolding count_pdpt
count_pdpt-zero zero i pdpt t k e p q pr = absurd (omega arith)
count_pdpt-zero (suc left) i pdpt t k e p q pr = elim (dec_lt i k) [
  | yes above ↦ count_pdpt-zero left (i + 1) pdpt t k (omega arith) (omega arith) (omega arith) pr
  | no here ↦
      let same : i ≡ k = omega arith in
      subst
        (λ j.
          is_present (pdpt j) ≡ true
          → (is_huge (pdpt j) ≡ true → is_wx (pdpt j) ≡ false)
            × (is_huge (pdpt j) ≡ false → count_pd 512 0 (t (address (pdpt j))) t ≡ 0))
        same (λ pr'. (λ h. ground arith, λ h. ground arith)) pr
]

count_pml4-zero :
    (left i : ℕ) (pml4 : ℕ → ℕ) (t : Tables) (k : ℕ)
    → count_pml4 left i pml4 t ≡ 0
    → i ≤ k
    → k < i + left
    → is_present (pml4 k) ≡ true
    → (k ≡ 0 → count_pdpt 511 1 (t (address (pml4 k))) t ≡ 0)
      × (k ≢ 0 → count_pdpt 512 0 (t (address (pml4 k))) t ≡ 0)
unfolding count_pml4
count_pml4-zero zero i pml4 t k e p q pr = absurd (omega arith)
count_pml4-zero (suc left) i pml4 t k e p q pr = elim (dec_lt i k) [
  | yes above ↦ count_pml4-zero left (i + 1) pml4 t k (omega arith) (omega arith) (omega arith) pr
  | no here ↦
      let same : i ≡ k = omega arith in
      subst
        (λ j.
          is_present (pml4 j) ≡ true
          → (j ≡ 0 → count_pdpt 511 1 (t (address (pml4 j))) t ≡ 0)
            × (j ≢ 0 → count_pdpt 512 0 (t (address (pml4 j))) t ≡ 0))
        same (λ pr'. (λ h. ground arith, λ h. ground arith)) pr
]

-- The first gigabyte, whose map all address spaces share with the kernel.
abbrev pub IsShared : ℕ → Type 0
IsShared virt = (pml4_index virt ≡ 0) × (pdpt_index virt ≡ 0)

leaf_pd-not_wx :
    (t : Tables) (pd virt e : ℕ)
    → count_pd 512 0 (t pd) t ≡ 0
    → leaf_pd t pd virt ≡ some e
    → is_wx e ≡ false
unfolding leaf_pd
leaf_pd-not_wx t pd virt e clear mapped = elim (Bool-cases (is_present (t pd (pd_index virt)))) [
  | inl there ↦
      let found =
        count_pd-zero 512 0 (t pd) t (pd_index virt) clear (omega arith) (omega arith) there in
      elim (Bool-cases (is_huge (t pd (pd_index virt)))) [
        | inl huge ↦ ground (arith, found.0 huge)
        | inr small ↦ ground (
          arith,
          count_pt-zero 512 0 (t (address (t pd (pd_index virt)))) (pt_index virt) (found.1 small)
              (omega arith) (omega arith),
        )
      ]
  | inr absent ↦ ground arith
]

leaf_pdpt-not_wx :
    (t : Tables) (pdpt virt e left i : ℕ)
    → count_pdpt left i (t pdpt) t ≡ 0
    → i ≤ pdpt_index virt
    → pdpt_index virt < i + left
    → leaf_pdpt t pdpt virt ≡ some e
    → is_wx e ≡ false
unfolding leaf_pdpt
leaf_pdpt-not_wx t pdpt virt e left i clear lo hi mapped =
    elim (Bool-cases (is_present (t pdpt (pdpt_index virt)))) [
      | inl there ↦
          let found = count_pdpt-zero left i (t pdpt) t (pdpt_index virt) clear lo hi there in
          elim (Bool-cases (is_huge (t pdpt (pdpt_index virt)))) [
            | inl huge ↦ ground (arith, found.0 huge)
            | inr small ↦
                leaf_pd-not_wx t (address (t pdpt (pdpt_index virt))) virt e (found.1 small)
                  (ground arith)
          ]
      | inr absent ↦ ground arith
    ]

-- Where `count_wx_pages` answers 0, no mapped address outside the shared first gigabyte is
-- writable and executable at once, by a page of any size.
pub count_wx_pages-zero :
    (t : Tables) (pml4 virt : ℕ) {e : ℕ}
    → count_wx_pages pml4 t ≡ 0
    → ¬ IsShared virt
    → leaf t pml4 virt ≡ some e
    → is_wx e ≡ false
unfolding count_wx_pages leaf
count_wx_pages-zero t pml4 virt {e} none_wx user mapped =
    elim (Bool-cases (is_present (t pml4 (pml4_index virt)))) [
      | inl there ↦
          let found =
            count_pml4-zero 512 0 (t pml4) t (pml4_index virt) none_wx (omega arith) (omega arith)
              there in
          let below : leaf_pdpt t (address (t pml4 (pml4_index virt))) virt ≡ some e =
            rw there at mapped in
          elim (ℕ_discrete (pml4_index virt) 0) [
            | yes first ↦
                leaf_pdpt-not_wx t (address (t pml4 (pml4_index virt))) virt e 511 1 (found.0 first)
                  (second first) (omega arith) below
            | no later ↦
                leaf_pdpt-not_wx t (address (t pml4 (pml4_index virt))) virt e 512 0 (found.1 later)
                  (omega arith) (omega arith) below
          ]
      | inr absent ↦ absurd (ground arith)
    ]
  where
    second : pml4_index virt ≡ 0 → 1 ≤ pdpt_index virt
    second first = elim (ℕ_discrete (pdpt_index virt) 0) [
      | yes zeroth ↦ absurd (user (first, zeroth))
      | no later ↦ omega arith
    ]
