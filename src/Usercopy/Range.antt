-- ===== src/Usercopy/Range.antt =====
-- The check of a user range in usercopy.cpp, and the copies behind it.
use venom_os.Base.{
  ℕ, zero, suc, ◌+◌, ◌-◌, ◌/◌, ◌%◌, ◌^◌, ◌≤◌, ◌<◌, ◌≡◌, ◌≢◌, ◌⊎◌, ◌↔◌, inl, inr, ◌==◌,
  if◌then◌else◌, Bool, true, false, ◌&&◌, ◌||◌, Option, some, ltb, leb, arith, refl, Bool-cases,
  subst, dec_lt, ℕ_discrete,
}
use venom_os.Base.Memory.{u64}
use venom_os.Base.Copy.{copy_bytes, copy_bytes_lem}
use venom_os.Elf.{user_space_min, user_space_max, page_down}
use venom_os.Paging.{
  address, pml4_index, pdpt_index, pd_index, pt_index, has_huge_bit, Tables, is_user, is_writable,
}
use venom_os.Paging.Walk.{leaf, leaf_pdpt, leaf_pd}
use venom_os.Usercopy.{
  pd_is_open, pdpt_is_open, page_is_user_accessible, pages_ok, rounds, last_page,
  validate_user_range, copy_from_user, copy_to_user, is_open, allows,
}

-- Every page from `first` to `last` passes the test.
abbrev pub AllPages : (ℕ → Bool) → ℕ → ℕ → Type 0
AllPages accessible first last =
    (page : ℕ) → page % 4096 ≡ 0 → first ≤ page → page ≤ last → accessible page ≡ true

-- What the loop answers: true if all pages pass, or false with a page that does not.
pub data Answer (accessible : ℕ → Bool) (first last : ℕ) : Option Bool → Type 0 where
  accepted : AllPages accessible first last → Answer accessible first last (some true)
  refused :
      (page : ℕ)
      → (page % 4096 ≡ 0) × (first ≤ page) × (page ≤ last)
      → accessible page ≡ false
      → Answer accessible first last (some false)

Answer-before :
    (acc : ℕ → Bool) (first last : ℕ)
    → acc first ≡ true
    → (o : Option Bool) → Answer acc (first + 4096) last o
    → first % 4096 ≡ 0
    → Answer acc first last o
Answer-before acc first last good o (Answer.accepted all) a = Answer.accepted λ page c lo hi.
    elim (dec_lt first page) [
      | yes above ↦ all page c (omega arith) hi
      | no here ↦ subst (λ n. acc n ≡ true) (omega arith) good
    ]
Answer-before acc first last good o (Answer.refused page at bad) a =
    Answer.refused page (omega arith) bad

pages_ok-Answer :
    (fuel : ℕ) (accessible : ℕ → Bool) (first last : ℕ)
    → first % 4096 ≡ 0
    → last % 4096 ≡ 0
    → first ≤ last
    → last < 2 ^ 63
    → (last - first) / 4096 < fuel
    → Answer accessible first last (pages_ok fuel accessible first last)
unfolding pages_ok
pages_ok-Answer zero acc first last a b le top enough = absurd (omega arith)
pages_ok-Answer (suc fuel) acc first last a b le top enough = elim (Bool-cases (acc first)) [
  | inr bad ↦ rw (bad, pages_ok) (Answer.refused first (a, omega arith, le) bad)
  | inl good ↦ elim (Bool-cases (first == last)) [
    | inl same ↦
        rw (good, same, pages_ok)
          (Answer.accepted (λ page c lo hi. subst (λ n. acc n ≡ true) (ground arith) good))
    | inr more ↦
        let next : first + 4096 ≡ u64 (first + 4096) = omega arith in
        rw (good, more, pages_ok)
          (subst (λ n. Answer acc first last (pages_ok fuel acc n last)) next
            (Answer-before acc first last good _
              (pages_ok-Answer fuel acc (first + 4096) last (omega arith) b (ground arith) top
                (ground arith))
              a))
  ]
]

-- The range needs no check, or it lies in user space and does not wrap.
abbrev pub InUserSpace : ℕ → ℕ → Type 0
InUserSpace addr len = (user_space_min ≤ addr) × (addr + len ≤ user_space_max)

-- Every page that a byte of the range lies in is open to the user, and to writes if asked.
abbrev pub AllAccessible : Tables → ℕ → ℕ → ℕ → Bool → Type 0
AllAccessible t cr3 addr len w =
    (a : ℕ) → addr ≤ a → a < addr + len → page_is_user_accessible t cr3 (page_down a) w ≡ true

-- What the check of a range answers, and when.
pub record Decides (t : Tables) (cr3 addr len : ℕ) (w : Bool) (o : Option Bool) : Type 0 where
  pub ends : (o ≡ some true) ⊎ (o ≡ some false)
  pub empty : len ≡ 0 → o ≡ some true
  pub sound : len ≢ 0 → o ≡ some true → InUserSpace addr len × AllAccessible t cr3 addr len w
  pub complete : InUserSpace addr len → AllAccessible t cr3 addr len w → o ≡ some true

of_Answer :
    (t : Tables) (cr3 addr len : ℕ) (w : Bool) (o : Option Bool)
    → len ≢ 0
    → InUserSpace addr len
    → Answer (λ page. page_is_user_accessible t cr3 page w) (page_down addr) (last_page addr len) o
    → Decides t cr3 addr len w o
of_Answer t cr3 addr len w o ne fits (Answer.accepted all) = record {
  ends = inl refl;
  empty = λ e. refl;
  sound = λ e q. (fits, λ a lo hi. all (page_down a) (omega arith) (omega arith) (omega arith));
  complete = λ f q. refl;
}
of_Answer t cr3 addr len w o ne fits (Answer.refused page at bad) = record {
  ends = inr refl;
  empty = λ e. absurd (ne e);
  sound = λ e q. absurd (ground arith);
  complete = λ f q. elim (dec_lt page addr) [
    | yes below ↦ absurd (
        ground (
          arith,
          subst (λ n. page_is_user_accessible t cr3 n w ≡ true)
              (page_of addr (omega (arith, at)) (omega (arith, at)))
              (q addr (omega arith) (omega arith)),
        ))
    | no above ↦ absurd (
        ground (
          arith,
          subst (λ n. page_is_user_accessible t cr3 n w ≡ true)
              (page_of page (omega (arith, at)) (omega (arith, at)))
              (q page (omega arith) (omega (arith, at))),
        ))
  ];
}
  where
    page_of : (a : ℕ) → page ≤ a → a < page + 4096 → page_down a ≡ page
    page_of a lo hi = omega (arith, at)

pub validate_user_range-Decides :
    (t : Tables) (cr3 addr len : ℕ) (w : Bool)
    → addr < 2 ^ 64
    → len < 2 ^ 64
    → Decides t cr3 addr len w (validate_user_range t cr3 addr len w)
unfolding validate_user_range
validate_user_range-Decides t cr3 addr len w ha hl = elim (Bool-cases (len == 0)) [
  | inl empty ↦ rw empty (record {
    ends = inl refl;
    empty = λ e. refl;
    sound = λ e q. absurd (ground arith);
    complete = λ f q. refl;
  })
  | inr some_bytes ↦
      elim (Bool-cases (
        ltb (u64 (addr + len)) addr
        || (ltb addr user_space_min || ltb user_space_max (u64 (addr + len))))) [
          | inl outside ↦ subst (Decides t cr3 addr len w) (ground arith) (record {
            ends = inr refl;
            empty = λ e. absurd (ground arith);
            sound = λ e q. absurd (ground arith);
            complete = λ f q. absurd (ground arith);
          })
          | inr inside ↦
              let fits : InUserSpace addr len = ground arith in
              subst (Decides t cr3 addr len w) (ground arith) (
                of_Answer t cr3 addr len w _ (ground arith) fits (
                  pages_ok-Answer (rounds (page_down addr) (last_page addr len))
                    (λ page. page_is_user_accessible t cr3 page w) (page_down addr)
                    (last_page addr len) (omega arith) (omega arith) (ground arith) (ground arith)
                    (omega arith)))
        ]
]

-- For an address and a length of 64 bits, `validate_user_range` always ends with an answer. It accepts exactly the empty ranges and those
-- that lie in user space with the page of each of their bytes open to the user, for writing if
-- that is asked.
pub validate_user_range_iff :
    (t : Tables) (cr3 addr len : ℕ) (w : Bool)
    → addr < 2 ^ 64
    → len < 2 ^ 64
    → ((validate_user_range t cr3 addr len w ≡ some true)
        ↔ ((len ≡ 0) ⊎ (InUserSpace addr len × AllAccessible t cr3 addr len w)))
      × ((validate_user_range t cr3 addr len w ≡ some true)
          ⊎ (validate_user_range t cr3 addr len w ≡ some false))
validate_user_range_iff t cr3 addr len w ha hl = ((accepted_is, is_accepted), d.ends)
  where
    d : Decides t cr3 addr len w (validate_user_range t cr3 addr len w)
    d = validate_user_range-Decides t cr3 addr len w ha hl

    accepted_is :
        validate_user_range t cr3 addr len w ≡ some true
        → (len ≡ 0) ⊎ (InUserSpace addr len × AllAccessible t cr3 addr len w)
    accepted_is e = elim (ℕ_discrete len 0) [ yes empty ↦ inl empty | no ne ↦ inr (d.sound ne e) ]

    is_accepted :
        (len ≡ 0) ⊎ (InUserSpace addr len × AllAccessible t cr3 addr len w)
        → validate_user_range t cr3 addr len w ≡ some true
    is_accepted c = elim c [ inl empty ↦ d.empty empty | inr (f, q) ↦ d.complete f q ]

-- The entry that maps a page lets the user in, and writes if that is asked.
abbrev pub Opens : Option ℕ → Bool → Type 0
Opens found w = (e : ℕ) × (found ≡ some e) × (is_user e ≡ true) × (w ≡ true → is_writable e ≡ true)

Opens-entry : (e : ℕ) (w : Bool) → is_open e ≡ true → allows w e ≡ true → Opens (some e) w
Opens-entry e w o a = (e, refl, ground arith, λ q. ground arith)

pd_is_open_sound :
    (t : Tables) (pd page : ℕ) (w : Bool)
    → pd_is_open t pd page w ≡ true
    → Opens (leaf_pd t pd page) w
unfolding pd_is_open leaf_pd
pd_is_open_sound t pd page w h = elim (Bool-cases (has_huge_bit (t pd (pd_index page)))) [
  | inl huge ↦
      subst (λ o. Opens o w) (ground arith)
        (Opens-entry (t pd (pd_index page)) w (ground arith) (ground arith))
  | inr small ↦
      subst (λ o. Opens o w) (ground arith)
        (Opens-entry (t (address (t pd (pd_index page))) (pt_index page)) w (ground arith)
          (ground arith))
]

pdpt_is_open_sound :
    (t : Tables) (pdpt page : ℕ) (w : Bool)
    → pdpt_is_open t pdpt page w ≡ true
    → Opens (leaf_pdpt t pdpt page) w
unfolding pdpt_is_open leaf_pdpt
pdpt_is_open_sound t pdpt page w h = elim (Bool-cases (has_huge_bit (t pdpt (pdpt_index page)))) [
  | inl huge ↦
      subst (λ o. Opens o w) (ground arith)
        (Opens-entry (t pdpt (pdpt_index page)) w (ground arith) (ground arith))
  | inr small ↦
      subst (λ o. Opens o w) (ground arith)
        (pd_is_open_sound t (address (t pdpt (pdpt_index page))) page w (ground arith))
]

-- A page that is open to the user is mapped, by an entry with the user bit, that is writable if
-- writing was asked.
pub page_is_user_accessible_sound :
    (t : Tables) (cr3 page : ℕ) (w : Bool)
    → page_is_user_accessible t cr3 page w ≡ true
    → Opens (leaf t (address cr3) page) w
unfolding page_is_user_accessible leaf
page_is_user_accessible_sound t cr3 page w h =
    subst (λ o. Opens o w) (ground arith)
      (pdpt_is_open_sound t (address (t (address cr3) (pml4_index page))) page w (ground arith))

-- For an address and a length of 64 bits, a copy from user memory either moves exactly the bytes of an accessible range, or changes
-- nothing.
pub copy_from_user_lem :
    (t : Tables) (cr3 : ℕ) (user dst : ℕ → ℕ) (addr len j : ℕ)
    → addr < 2 ^ 64
    → len < 2 ^ 64
    → ((out : ℕ → ℕ) × (copy_from_user t cr3 user dst addr len ≡ some (true, out))
        × ((len ≡ 0) ⊎ (InUserSpace addr len × AllAccessible t cr3 addr len false))
        × (out j ≡ (if ltb j len then user (addr + j) else dst j)))
      ⊎ (copy_from_user t cr3 user dst addr len ≡ some (false, dst))
unfolding copy_from_user
copy_from_user_lem t cr3 user dst addr len j ha hl =
    let d = validate_user_range_iff t cr3 addr len false ha hl in
    elim d.1 [
      | inl fine ↦ inl (
        copy_bytes len 0 addr user dst,
        rw fine refl,
        d.0.0 fine,
        ground (arith, copy_bytes_lem len 0 addr user dst j),
      )
      | inr bad ↦ inr (rw bad refl)
    ]

-- For an address and a length of 64 bits, a copy to user memory changes no byte outside the range, and none at all unless the range is
-- accessible for writing.
pub copy_to_user_lem :
    (t : Tables) (cr3 : ℕ) (user src : ℕ → ℕ) (addr len j : ℕ)
    → addr < 2 ^ 64
    → len < 2 ^ 64
    → ((out : ℕ → ℕ) × (copy_to_user t cr3 user src addr len ≡ some (true, out))
        × ((len ≡ 0) ⊎ (InUserSpace addr len × AllAccessible t cr3 addr len true))
        × (out j ≡ (if leb addr j && ltb j (addr + len) then src (j - addr) else user j)))
      ⊎ (copy_to_user t cr3 user src addr len ≡ some (false, user))
unfolding copy_to_user
copy_to_user_lem t cr3 user src addr len j ha hl =
    let d = validate_user_range_iff t cr3 addr len true ha hl in
    elim d.1 [
      | inl fine ↦ inl (
        copy_bytes len addr 0 src user,
        rw fine refl,
        d.0.0 fine,
        ground (arith, copy_bytes_lem len addr 0 src user j),
      )
      | inr bad ↦ inr (rw bad refl)
    ]
