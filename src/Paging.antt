-- ===== src/Paging.antt =====
-- kernel/paging.cpp: four-level page tables. A table is the frame where it stands; the memory of
-- the tables gives each frame its 512 entries. The physical address space is mapped to itself, so
-- `table_ptr` is the identity. Every operation takes the value of CR3 where it reads it; the TLB is
-- not part of the model.
pub mod Walk
mod Tests
use venom_os.Base.{
  ℕ, zero, suc, ◌+◌, ◌-◌, ◌*◌, ◌/◌, ◌%◌, ◌^◌, bit_and, bit_or, ◌==◌, if◌then◌else◌, Bool, true,
  false, ◌&&◌, ◌||◌, Option, none, some, ltb, leb,
}
use venom_os.Base.Bits.{bit}
use venom_os.Base.Memory.{update}
use venom_os.Pmm.{Pmm, alloc_frame, free_frame}

-- The entries of the tables, by the address of the table and the index.
abbrev pub Tables : Type 0
Tables = ℕ → ℕ → ℕ

pub record Machine : Type 0 where
  pub tables : Tables
  pub pmm : Pmm

-- `e & PAGE_PRESENT` and the like: the bit is set.
abbrev pub is_present : ℕ → Bool
is_present e = bit e 0 == 1

abbrev pub is_writable : ℕ → Bool
is_writable e = bit e 1 == 1

abbrev pub is_user : ℕ → Bool
is_user e = bit e 2 == 1

abbrev pub has_huge_bit : ℕ → Bool
has_huge_bit e = bit e 7 == 1

abbrev pub is_owned : ℕ → Bool
is_owned e = bit e 9 == 1

abbrev pub is_no_execute : ℕ → Bool
is_no_execute e = bit e 63 == 1

abbrev pub page_present : ℕ
page_present = 2 ^ 0

abbrev pub page_writable : ℕ
page_writable = 2 ^ 1

abbrev pub page_user : ℕ
page_user = 2 ^ 2

abbrev pub page_owned : ℕ
page_owned = 2 ^ 9

abbrev pub page_nx : ℕ
page_nx = 2 ^ 63

-- ADDR_MASK, and the bits of `~ADDR_MASK` and of `~ADDR_MASK & ~PAGE_HUGE & ~PAGE_NX`.
abbrev pub addr_mask : ℕ
addr_mask = 0x000f_ffff_ffff_f000

abbrev pub flag_mask : ℕ
flag_mask = 0xfff0_0000_0000_0fff

abbrev pub extra_mask : ℕ
extra_mask = 0x7ff0_0000_0000_0f7f

-- `e & ADDR_MASK`
unfoldable pub address : ℕ → ℕ
address e = bit_and e addr_mask

abbrev pub is_huge : ℕ → Bool
is_huge e = is_present e && has_huge_bit e

abbrev pub pml4_index : ℕ → ℕ
pml4_index virt = virt / 2 ^ 39 % 512

abbrev pub pdpt_index : ℕ → ℕ
pdpt_index virt = virt / 2 ^ 30 % 512

abbrev pub pd_index : ℕ → ℕ
pd_index virt = virt / 2 ^ 21 % 512

abbrev pub pt_index : ℕ → ℕ
pt_index virt = virt / 2 ^ 12 % 512

abbrev pub write_entry : Tables → ℕ → ℕ → ℕ → Tables
write_entry t table index e = update t table (update (t table) index e)

abbrev pub zero_table : Tables → ℕ → Tables
zero_table t table = update t table (λ i. 0)

-- The table that an entry leads to, made if the entry is absent; 0 when no frame is free.
pub get_or_create_table : ℕ → ℕ → ℕ → Machine → ℕ × Machine
get_or_create_table table index flags m =
    let extra = bit_and flags extra_mask in
    let old = m.tables table index in
    if is_present old
    then (let e = bit_or old (bit_or page_writable extra) in
        (address e, record m { tables = write_entry m.tables table index e }))
    else (let (frame, p) = alloc_frame m.pmm in
        if frame == 0 then (0, record m { pmm = p }) else (
          frame,
          record {
            tables =
                write_entry (zero_table m.tables frame) table index
                  (bit_or (bit_or (bit_or frame page_present) page_writable) extra);
            pmm = p;
          },
        ))

-- One level of `map_page_in`: the table below, unless a huge page stands in its place or no frame
-- is free. `none` is the early return, with the machine as it is then.
pub descend : Bool → ℕ → ℕ → ℕ → Machine → Option ℕ × Machine
descend may_be_huge table index flags m =
    if may_be_huge && is_huge (m.tables table index)
    then (none, m)
    else (let (next, m') = get_or_create_table table index flags m in
        if next == 0 then (none, m') else (some next, m'))

-- The rest of an operation after a level.
abbrev pub and_then : Option ℕ × Machine → (ℕ → Machine → Bool × Machine) → Bool × Machine
and_then (none, m) k = (false, m)
and_then (some next, m) k = k next m

-- The last level of `map_page_in`.
pub map_leaf : ℕ → ℕ → ℕ → ℕ → Machine → Bool × Machine
map_leaf virt phys flags pt m = (
  true,
  record m {
    tables =
        write_entry m.tables pt (pt_index virt) (bit_or (address phys) (bit_or flags page_present));
  },
)

pub map_page_in : ℕ → ℕ → ℕ → ℕ → Machine → Bool × Machine
map_page_in pml4 virt phys flags m =
    if virt % 4096 == 0 && phys % 4096 == 0
    then (and_then (descend false pml4 (pml4_index virt) flags m) λ pdpt m₁.
        and_then (descend true pdpt (pdpt_index virt) flags m₁) λ pd m₂.
          and_then (descend true pd (pd_index virt) flags m₂)
            λ pt m₃. map_leaf virt phys flags pt m₃)
    else (false, m)

pub map_page : ℕ → ℕ → ℕ → ℕ → Machine → Bool × Machine
map_page cr3 virt phys flags m = map_page_in (address cr3) virt phys flags m

-- An entry that leads to a table of the level below.
abbrev pub leads_down : ℕ → Bool
leads_down e = if is_present e then (if is_huge e then false else true) else false

-- The three tables under the root on the way to an address, if no level is absent or huge.
pub record Path4 : Type 0 where
  pub pdpt : ℕ
  pub pd : ℕ
  pub pt : ℕ

pub path_to : Tables → ℕ → ℕ → Option Path4
path_to t pml4 virt =
    if is_present (t pml4 (pml4_index virt))
    then (let pdpt = address (t pml4 (pml4_index virt)) in
        if leads_down (t pdpt (pdpt_index virt))
        then (let pd = address (t pdpt (pdpt_index virt)) in
            if leads_down (t pd (pd_index virt))
            then some (record { pdpt = pdpt; pd = pd; pt = address (t pd (pd_index virt)) })
            else none)
        else none)
    else none

-- No entry of a table is present, of the first `n`.
pub is_table_empty : ℕ → (ℕ → ℕ) → Bool
is_table_empty zero table = true
is_table_empty (suc n) table = if is_present (table n) then false else is_table_empty n table

-- An entry is cleared and the table that it led to goes back to the allocator.
pub drop_entry : ℕ → ℕ → ℕ → Machine → Machine
drop_entry table index below m = record {
  tables = write_entry m.tables table index 0;
  pmm = free_frame m.pmm below;
}

-- The tables above an emptied one that are empty too go back to the allocator.
pub prune : ℕ → ℕ → Path4 → Machine → Machine
prune pml4 virt w m =
    if is_table_empty 512 (m.tables w.pt)
    then (let m₁ = drop_entry w.pd (pd_index virt) w.pt m in
        if is_table_empty 512 (m₁.tables w.pd)
        then (let m₂ = drop_entry w.pdpt (pdpt_index virt) w.pd m₁ in
            if is_table_empty 512 (m₂.tables w.pdpt)
            then drop_entry pml4 (pml4_index virt) w.pdpt m₂
            else m₂)
        else m₁)
    else m

pub unmap_at : ℕ → ℕ → Option Path4 → Machine → Bool × Machine
unmap_at pml4 virt none m = (false, m)
unmap_at pml4 virt (some w) m =
    if is_present (m.tables w.pt (pt_index virt))
    then (
      true,
      prune pml4 virt w (record m { tables = write_entry m.tables w.pt (pt_index virt) 0 }),
    )
    else (false, m)

pub unmap_page : ℕ → ℕ → Machine → Bool × Machine
unmap_page cr3 virt m =
    if virt % 4096 == 0
    then unmap_at (address cr3) virt (path_to m.tables (address cr3) virt) m
    else (false, m)

pub protect_at : ℕ → ℕ → Option Path4 → Machine → Bool × Machine
protect_at virt flags none m = (false, m)
protect_at virt flags (some w) m =
    let old = m.tables w.pt (pt_index virt) in
    if is_present old
    then (
      true,
      record m {
        tables =
            write_entry m.tables w.pt (pt_index virt)
              (bit_or (bit_or (address old) (bit_and flags flag_mask)) page_present);
      },
    )
    else (false, m)

pub protect_page : ℕ → ℕ → ℕ → Machine → Bool × Machine
protect_page cr3 virt flags m =
    if virt % 4096 == 0
    then protect_at virt flags (path_to m.tables (address cr3) virt) m
    else (false, m)

-- The new root, or 0. The kernel's first gigabyte is shared through the first entry.
pub create_address_space : ℕ → Machine → ℕ × Machine
create_address_space cr3 m =
    let kernel = m.tables (address cr3) 0 in
    if is_present kernel
    then (let shared = m.tables (address kernel) 0 in
        let (pml4, p₁) = alloc_frame m.pmm in
        if pml4 == 0
        then (0, record m { pmm = p₁ })
        else (let (pdpt, p₂) = alloc_frame p₁ in
            if pdpt == 0 then (0, record m { pmm = free_frame p₂ pml4 }) else (
              pml4,
              record {
                tables =
                    write_entry
                      (write_entry (zero_table (zero_table m.tables pml4) pdpt) pdpt 0 shared) pml4
                      0 (bit_or (bit_or pdpt page_present) page_writable);
                pmm = p₂;
              },
            )))
    else (0, m)

-- The three loops of `destroy_address_space`, each with the index it is at and the rounds left.
pub free_pages : ℕ → ℕ → (ℕ → ℕ) → Pmm → Pmm
free_pages zero i pt p = p
free_pages (suc left) i pt p =
    free_pages left (i + 1) pt
      (if is_present (pt i) && is_owned (pt i) then free_frame p (address (pt i)) else p)

pub free_pts : ℕ → ℕ → (ℕ → ℕ) → Tables → Pmm → Pmm
free_pts zero i pd t p = p
free_pts (suc left) i pd t p = free_pts left (i + 1) pd t (
    if leads_down (pd i)
    then free_frame (free_pages 512 0 (t (address (pd i))) p) (address (pd i))
    else p)

pub free_pds : ℕ → ℕ → (ℕ → ℕ) → Tables → Pmm → Pmm
free_pds zero i pdpt t p = p
free_pds (suc left) i pdpt t p = free_pds left (i + 1) pdpt t (
    if leads_down (pdpt i)
    then free_frame (free_pts 512 0 (t (address (pdpt i))) t p) (address (pdpt i))
    else p)

pub destroy_address_space : ℕ → Machine → Machine
destroy_address_space pml4 m =
    let root = m.tables pml4 0 in
    record m {
      pmm =
          if is_present root
          then free_frame
              (free_frame (free_pds 511 1 (m.tables (address root)) m.tables m.pmm) (address root))
              pml4
          else free_frame m.pmm pml4;
    }

-- A present page that can be written and executed.
abbrev pub is_wx : ℕ → Bool
is_wx e = is_writable e && (if is_no_execute e then false else true)

-- The four loops of `count_wx_pages`, innermost first.
pub count_pt : ℕ → ℕ → (ℕ → ℕ) → ℕ
count_pt zero i pt = 0
count_pt (suc left) i pt =
    (if is_present (pt i) && is_wx (pt i) then 1 else 0) + count_pt left (i + 1) pt

pub count_pd : ℕ → ℕ → (ℕ → ℕ) → Tables → ℕ
count_pd zero i pd t = 0
count_pd (suc left) i pd t =
    (if is_present (pd i)
      then (if is_huge (pd i)
          then (if is_wx (pd i) then 1 else 0)
          else count_pt 512 0 (t (address (pd i))))
      else 0)
    + count_pd left (i + 1) pd t

pub count_pdpt : ℕ → ℕ → (ℕ → ℕ) → Tables → ℕ
count_pdpt zero i pdpt t = 0
count_pdpt (suc left) i pdpt t =
    (if is_present (pdpt i)
      then (if is_huge (pdpt i)
          then (if is_wx (pdpt i) then 1 else 0)
          else count_pd 512 0 (t (address (pdpt i))) t)
      else 0)
    + count_pdpt left (i + 1) pdpt t

-- Slot 0 of the table under slot 0 is the kernel's map and is left out.
pub count_pml4 : ℕ → ℕ → (ℕ → ℕ) → Tables → ℕ
count_pml4 zero i pml4 t = 0
count_pml4 (suc left) i pml4 t =
    (if is_present (pml4 i)
      then (if i == 0
          then count_pdpt 511 1 (t (address (pml4 i))) t
          else count_pdpt 512 0 (t (address (pml4 i))) t)
      else 0)
    + count_pml4 left (i + 1) pml4 t

pub count_wx_pages : ℕ → Tables → ℕ
count_wx_pages pml4 t = count_pml4 512 0 (t pml4) t
