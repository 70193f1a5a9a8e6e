-- ===== src/Paging/Tests.antt =====
-- A small address space for count_wx_pages of paging.cpp.
use venom_os.Base.{◌≡◌, refl, arith, some, false, ◌==◌, if◌then◌else◌}
use venom_os.Paging.{
  Tables, address, is_wx, count_wx_pages, count_pml4, count_pdpt, count_pd, count_pt,
}
use venom_os.Paging.Walk.{leaf, leaf_pdpt, leaf_pd, IsShared, count_wx_pages-zero}

-- A page that can be executed and not written, at 0x40000000.
abbrev code_page : Tables
code_page table index =
    if table == 0x1000
    then (if index == 0 then 0x2007 else 0)
    else (if table == 0x2000
        then (if index == 1 then 0x3007 else 0)
        else (if table == 0x3000
            then (if index == 0 then 0x4007 else 0)
            else (if table == 0x4000 then (if index == 0 then 0x5005 else 0) else 0)))

code_page-none : count_wx_pages 0x1000 code_page ≡ 0
unfolding count_wx_pages count_pml4 count_pdpt count_pd count_pt address
code_page-none = refl

code_page-leaf : leaf code_page 0x1000 0x4000_0000 ≡ some 0x5005
unfolding leaf leaf_pdpt leaf_pd address
code_page-leaf = refl

code_page-user : ¬ IsShared 0x4000_0000
code_page-user shared = omega (arith, shared)

count_wx_pages-zero_example : is_wx 0x5005 ≡ false
count_wx_pages-zero_example =
    count_wx_pages-zero code_page 0x1000 0x4000_0000 code_page-none code_page-user code_page-leaf
