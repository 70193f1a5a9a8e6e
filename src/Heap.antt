-- ===== src/Heap.antt =====
-- kernel/heap.cpp: the kernel heap. The block headers stand in the heap's own memory and are
-- linked in the order of their addresses; here they are the list that starts at `free_list_head`,
-- each with its address. Interrupts are off during every operation, so each runs whole.
pub mod Chain
pub mod Malloc
pub mod Free
pub mod Grow
pub mod Kmalloc
mod Tests
use venom_os.Base.{
  ℕ, zero, suc, ◌+◌, ◌-◌, ◌*◌, ◌/◌, ◌%◌, ◌^◌, ◌==◌, if◌then◌else◌, Bool, true, false, ◌&&◌, ◌||◌,
  Option, none, some, List, [], ◌∷◌, leb, ltb, max, min,
}
use venom_os.Base.Memory.{u64, sub64}
use venom_os.Pmm.{Pmm, alloc_frame, frame_size}

abbrev pub alignment : ℕ
alignment = 16

abbrev pub min_split_remainder : ℕ
min_split_remainder = 32

abbrev pub max_grow_attempts : ℕ
max_grow_attempts = 256

abbrev pub magic_allocated : ℕ
magic_allocated = 0xc0ff_ee11

abbrev pub magic_freed : ℕ
magic_freed = 0xdead_f4ee

-- `sizeof(BlockHeader)`
abbrev pub header_size : ℕ
header_size = 32

-- A `BlockHeader` and the address where it stands. `next` is the rest of the list.
pub record Block : Type 0 where
  pub addr : ℕ
  pub size : ℕ
  pub free : Bool
  pub magic : ℕ

pub record Heap : Type 0 where
  pub blocks : List Block
  pub heap_min : ℕ
  pub heap_max : ℕ

-- `(value + alignment - 1) & ~(alignment - 1)`, for the one alignment in use.
unfoldable pub align_up : ℕ → ℕ
align_up value = u64 (value + alignment - 1) / alignment * alignment

abbrev pub data_ptr : Block → ℕ
data_ptr b = b.addr + header_size

abbrev pub adjacent : Block → Block → Bool
adjacent first second = data_ptr first + first.size == second.addr

abbrev pub in_heap_range : Heap → ℕ → Bool
in_heap_range h addr = ltb 0 h.heap_min && leb h.heap_min addr && ltb addr h.heap_max

abbrev pub as_free : Block → Block
as_free b = record b { free = true; magic = magic_freed }

abbrev pub as_allocated : Block → Block
as_allocated b = record b { free = false; magic = magic_allocated }

-- `first` takes over the space of `second`, header included.
abbrev pub absorb : Block → Block → Block
absorb first second = record first { size = first.size + header_size + second.size }

-- The block in front of the ones after it, joined with the next one if they touch.
pub link_next : Block → List Block → List Block
link_next b [] = b ∷ []
link_next b (n ∷ bs) = if adjacent b n then absorb b n ∷ bs else b ∷ n ∷ bs

-- `prev` in front of the block that was just linked behind it.
pub link_prev : Block → List Block → List Block
link_prev prev [] = prev ∷ []
link_prev prev (b ∷ bs) = if adjacent prev b && prev.free then absorb prev b ∷ bs else prev ∷ b ∷ bs

-- The loop that finds `prev`, and the rest of `insert_free_block`.
pub insert_after : Block → Block → List Block → List Block
insert_after prev b [] = link_prev prev (link_next b [])
insert_after prev b (n ∷ bs) =
    let further = insert_after n b bs in
    if ltb n.addr b.addr then prev ∷ further else link_prev prev (link_next b (n ∷ bs))

pub insert_free_block : Block → List Block → List Block
insert_free_block b [] = as_free b ∷ []
insert_free_block b (head ∷ bs) =
    if ltb b.addr head.addr
    then link_next (as_free b) (head ∷ bs)
    else insert_after head (as_free b) bs

-- A frame that `pmm::alloc_frame` returned becomes one free block.
pub add_frame : ℕ → Heap → Heap
add_frame frame h = record {
  blocks =
      insert_free_block
        (record { addr = frame; size = frame_size - header_size; free = true; magic = magic_freed })
        h.blocks;
  heap_min = if h.heap_min == 0 || ltb frame h.heap_min then frame else h.heap_min;
  heap_max = if ltb h.heap_max (frame + frame_size) then frame + frame_size else h.heap_max;
}

-- `none` when no frame is free.
pub grow_heap : Heap → Pmm → Option Heap × Pmm
grow_heap h p =
    let (frame, p') = alloc_frame p in (if frame == 0 then none else some (add_frame frame h), p')

-- `init` only empties the list.
pub init : Heap → Heap
init h = record h { blocks = [] }

-- A block that is large enough, allocated, with the part that is left over as a block of its own.
unfoldable pub carve : ℕ → Block → List Block → List Block
carve size b bs =
    if leb (header_size + min_split_remainder) (b.size - size)
    then as_allocated (record b { size = size })
      ∷ (record {
        addr = data_ptr b + size;
        size = b.size - size - header_size;
        free = true;
        magic = magic_freed;
      })
      ∷ bs
    else as_allocated b ∷ bs

abbrev pub keep_block : Block → Option (ℕ × List Block) → Option (ℕ × List Block)
keep_block b none = none
keep_block b (some (a, rest)) = some (a, b ∷ rest)

-- The scan of `kmalloc`: the address returned and the list after it.
unfoldable pub take_fit : ℕ → List Block → Option (ℕ × List Block)
take_fit size [] = none
take_fit size (b ∷ bs) =
    if b.free && leb size b.size
    then some (data_ptr b, carve size b bs)
    else keep_block b (take_fit size bs)

-- The heap and the frame allocator, and what an operation returns.
abbrev pub Outcome : Type 0
Outcome = ℕ × Heap × Pmm

-- `if (!grow_heap()) return nullptr;` before the next attempt.
abbrev pub retry : (Heap → Pmm → Outcome) → Heap → Option Heap × Pmm → Outcome
retry again h (none, p) = (0, h, p)
retry again h (some h', p) = again h' p

-- The loop of `kmalloc` over its attempts, with those that are left. 0 is the null pointer.
unfoldable pub attempt : ℕ → ℕ → Heap → Pmm → Outcome
attempt zero size h p = (0, h, p)
attempt (suc left) size h p = elim (take_fit size h.blocks) [
  | some (a, blocks) ↦ (a, record h { blocks = blocks }, p)
  | none ↦ retry (attempt left size) h (grow_heap h p)
]

unfoldable pub kmalloc : ℕ → Heap → Pmm → Outcome
kmalloc size h p =
    if size == 0 then (0, h, p) else attempt (suc max_grow_attempts) (align_up size) h p

-- What `kfree` does with a pointer: it frees a block, ignores a null pointer, or reports why not.
pub data FreeResult : Type 0 where
  freed ignored : FreeResult
  misaligned outside_range too_low not_tracked double_free corrupted : FreeResult

-- `is_tracked_block`, with the block that it finds.
pub find_block : ℕ → List Block → Option Block
find_block addr [] = none
find_block addr (b ∷ bs) = if b.addr == addr then some b else find_block addr bs

-- The block joined with a free block that follows it.
pub join_next : Block → List Block → List Block
join_next b [] = b ∷ []
join_next b (n ∷ bs) = if n.free && adjacent b n then absorb b n ∷ bs else b ∷ n ∷ bs

-- A block before the one at `addr` in the list; if it is the one just before, and free, the two
-- are joined.
pub join_prev : ℕ → Block → List Block → List Block
join_prev addr prev [] = prev ∷ []
join_prev addr prev (b ∷ bs) =
    if b.addr == addr && (prev.free && adjacent prev b) then absorb prev b ∷ bs else prev ∷ b ∷ bs

-- The block at `addr` is freed and joined with its free neighbours.
pub release : ℕ → List Block → List Block
release addr [] = []
release addr (b ∷ bs) =
    let rest = release addr bs in
    if b.addr == addr then join_next (as_free b) bs else join_prev addr b rest

pub free_block : ℕ → Option Block → Heap → FreeResult × Heap
free_block addr none h = (not_tracked, h)
free_block addr (some b) h =
    if b.magic == magic_freed
    then (double_free, h)
    else (if b.magic == magic_allocated
        then (if b.free
            then (corrupted, h)
            else (freed, record h { blocks = release addr h.blocks }))
        else (corrupted, h))

pub kfree : ℕ → Heap → FreeResult × Heap
kfree ptr h =
    if ptr == 0
    then (ignored, h)
    else (if ptr % alignment == 0
        then (if in_heap_range h ptr
            then (if ltb ptr (h.heap_min + header_size)
                then (too_low, h)
                else free_block (ptr - header_size) (find_block (ptr - header_size) h.blocks) h)
            else (outside_range, h))
        else (misaligned, h))

pub bytes_in_use : List Block → ℕ
bytes_in_use [] = 0
bytes_in_use (b ∷ bs) = (if b.free then 0 else b.size) + bytes_in_use bs

pub bytes_free : List Block → ℕ
bytes_free [] = 0
bytes_free (b ∷ bs) = (if b.free then b.size else 0) + bytes_free bs
