-- ===== src/Usercopy/Tests.antt =====
-- Runs of the checks of usercopy.cpp on a small address space.
use venom_os.Base.{
  ℕ, ◌≡◌, ◌+◌, ◌%◌, ◌↔◌, refl, arith, some, true, false, ◌⊎◌, ◌==◌, if◌then◌else◌, ltb, leb, ◌&&◌,
}
use venom_os.Paging.{Tables, address}
use venom_os.Paging.Walk.{leaf}
use venom_os.Usercopy.{
  page_is_user_accessible, pdpt_is_open, pd_is_open, validate_user_range, copy_from_user,
  copy_to_user,
}
use venom_os.Usercopy.Range.{
  InUserSpace, AllAccessible, Opens, validate_user_range_iff, page_is_user_accessible_sound,
  copy_from_user_lem, copy_to_user_lem,
}

-- The first page of user space is mapped to 0x5000 for reading and writing, and nothing else is.
abbrev one_page : Tables
one_page table index =
    if table == 0x1000
    then (if index == 0 then 0x2007 else 0)
    else (if table == 0x2000
        then (if index == 1 then 0x3007 else 0)
        else (if table == 0x3000
            then (if index == 0 then 0x4007 else 0)
            else (if table == 0x4000 then (if index == 0 then 0x5007 else 0) else 0)))

abbrev user_bytes : ℕ → ℕ
user_bytes a = a % 256

one_page-open : page_is_user_accessible one_page 0x1000 0x4000_0000 true ≡ true
unfolding page_is_user_accessible pdpt_is_open pd_is_open address
one_page-open = refl

validate_user_range_iff_example :
    ((validate_user_range one_page 0x1000 0x4000_0010 8 true ≡ some true) ↔ (
      (◌≡◌ {A = ℕ} 8 0)
      ⊎ (InUserSpace 0x4000_0010 8 × AllAccessible one_page 0x1000 0x4000_0010 8 true)))
    × ((validate_user_range one_page 0x1000 0x4000_0010 8 true ≡ some true)
        ⊎ (validate_user_range one_page 0x1000 0x4000_0010 8 true ≡ some false))
validate_user_range_iff_example =
    validate_user_range_iff one_page 0x1000 0x4000_0010 8 true (omega arith) (omega arith)

page_is_user_accessible_sound_example : Opens (leaf one_page (address 0x1000) 0x4000_0000) true
page_is_user_accessible_sound_example =
    page_is_user_accessible_sound one_page 0x1000 0x4000_0000 true one_page-open

copy_from_user_lem_example :
    ((out : ℕ → ℕ) × (copy_from_user one_page 0x1000 user_bytes (λ i. 0) 0x4000_0010 8
        ≡ some (true, out))
      × ((◌≡◌ {A = ℕ} 8 0)
          ⊎ (InUserSpace 0x4000_0010 8 × AllAccessible one_page 0x1000 0x4000_0010 8 false))
      × (out 3 ≡ (if ltb 3 8 then user_bytes (0x4000_0010 + 3) else 0)))
    ⊎ (copy_from_user one_page 0x1000 user_bytes (λ i. 0) 0x4000_0010 8 ≡ some (false, λ i. 0))
copy_from_user_lem_example =
    copy_from_user_lem one_page 0x1000 user_bytes (λ i. 0) 0x4000_0010 8 3 (omega arith)
      (omega arith)

copy_to_user_lem_example :
    ((out : ℕ → ℕ) × (copy_to_user one_page 0x1000 user_bytes (λ i. 7) 0x4000_0010 8
        ≡ some (true, out))
      × ((◌≡◌ {A = ℕ} 8 0)
          ⊎ (InUserSpace 0x4000_0010 8 × AllAccessible one_page 0x1000 0x4000_0010 8 true))
      × (out 0x4000_0012 ≡ (
          if leb 0x4000_0010 0x4000_0012 && ltb 0x4000_0012 (0x4000_0010 + 8)
          then 7
          else user_bytes 0x4000_0012)))
    ⊎ (copy_to_user one_page 0x1000 user_bytes (λ i. 7) 0x4000_0010 8 ≡ some (false, user_bytes))
copy_to_user_lem_example =
    copy_to_user_lem one_page 0x1000 user_bytes (λ i. 7) 0x4000_0010 8 0x4000_0012 (omega arith)
      (omega arith)
