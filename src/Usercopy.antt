-- ===== src/Usercopy.antt =====
-- kernel/usercopy.cpp: copies between the kernel and user memory, behind a check that walks the
-- page tables. CR3 and the tables are arguments; memory is a byte for each virtual address.
pub mod Range
mod Tests
use venom_os.Base.{
  ℕ, zero, suc, ◌+◌, ◌-◌, ◌*◌, ◌/◌, ◌%◌, ◌^◌, ◌==◌, if◌then◌else◌, Bool, true, false, ◌&&◌, ◌||◌,
  Option, none, some, ltb, leb,
}
use venom_os.Base.Memory.{u64}
use venom_os.Base.Copy.{copy_bytes}
use venom_os.Elf.{user_space_min, user_space_max, page_down}
use venom_os.Paging.{
  Tables, is_present, is_user, is_writable, has_huge_bit, address, pml4_index, pdpt_index, pd_index,
  pt_index,
}

abbrev pub is_open : ℕ → Bool
is_open e = is_present e && is_user e

-- `!require_writable || (e & PAGE_WRITABLE)`
abbrev pub allows : Bool → ℕ → Bool
allows require_writable e = if require_writable then is_writable e else true

-- The checks from the page directory on, from the table above it, and from the root.
pub pd_is_open : Tables → ℕ → ℕ → Bool → Bool
pd_is_open t pd page w =
    let e₂ = t pd (pd_index page) in
    if is_open e₂
    then (if has_huge_bit e₂
        then allows w e₂
        else (let e₁ = t (address e₂) (pt_index page) in if is_open e₁ then allows w e₁ else false))
    else false

pub pdpt_is_open : Tables → ℕ → ℕ → Bool → Bool
pdpt_is_open t pdpt page w =
    let e₃ = t pdpt (pdpt_index page) in
    if is_open e₃
    then (if has_huge_bit e₃ then allows w e₃ else pd_is_open t (address e₃) page w)
    else false

pub page_is_user_accessible : Tables → ℕ → ℕ → Bool → Bool
page_is_user_accessible t cr3 page w =
    let e₄ = t (address cr3) (pml4_index page) in
    if is_open e₄ then pdpt_is_open t (address e₄) page w else false

-- The loop over the pages; `none` when the fuel runs out.
pub pages_ok : ℕ → (ℕ → Bool) → ℕ → ℕ → Option Bool
pages_ok zero accessible page last = none
pages_ok (suc fuel) accessible page last = elim (accessible page) [
  | false ↦ some false
  | true ↦ elim (page == last) [
    | true ↦ some true
    | false ↦ pages_ok fuel accessible (u64 (page + 4096)) last
  ]
]

-- One round for each page from the first to the last.
abbrev pub rounds : ℕ → ℕ → ℕ
rounds first last = (last - first) / 4096 + 1

abbrev pub last_page : ℕ → ℕ → ℕ
last_page addr len = page_down (u64 (addr + len) - 1)

pub validate_user_range : Tables → ℕ → ℕ → ℕ → Bool → Option Bool
validate_user_range t cr3 addr len w =
    if len == 0
    then some true
    else (if ltb (u64 (addr + len)) addr
        then some false
        else (if ltb addr user_space_min
            then some false
            else (if ltb user_space_max (u64 (addr + len))
                then some false
                else pages_ok (rounds (page_down addr) (last_page addr len))
                    (λ page. page_is_user_accessible t cr3 page w) (page_down addr)
                    (last_page addr len))))

-- Nothing is copied unless the range was found sound; otherwise the bytes arrive one by one.
abbrev pub copy_if : Option Bool → (ℕ → ℕ) → (ℕ → ℕ) → Option (Bool × (ℕ → ℕ))
copy_if none dst copied = none
copy_if (some false) dst copied = some (false, dst)
copy_if (some true) dst copied = some (true, copied)

-- From user memory at `addr` to a kernel buffer.
pub copy_from_user : Tables → ℕ → (ℕ → ℕ) → (ℕ → ℕ) → ℕ → ℕ → Option (Bool × (ℕ → ℕ))
copy_from_user t cr3 user dst addr len =
    copy_if (validate_user_range t cr3 addr len false) dst (copy_bytes len 0 addr user dst)

-- From a kernel buffer to user memory at `addr`.
pub copy_to_user : Tables → ℕ → (ℕ → ℕ) → (ℕ → ℕ) → ℕ → ℕ → Option (Bool × (ℕ → ℕ))
copy_to_user t cr3 user src addr len =
    copy_if (validate_user_range t cr3 addr len true) user (copy_bytes len addr 0 src user)
