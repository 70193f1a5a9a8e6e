-- ===== src/Heap/Chain.antt =====
-- The blocks in order: they lie one after the other without overlap, aligned, and each header
-- says the same twice, in `free` and in `magic`.
use venom_os.Base.{
  ℕ, ◌+◌, ◌%◌, ◌≤◌, ◌<◌, ◌≡◌, ◌≢◌, ◌⊎◌, inl, inr, if◌then◌else◌, none, some, List, [], ◌∷◌, arith,
  refl,
}
use venom_os.Heap.{Heap, Block, header_size, data_ptr, magic_allocated, magic_freed, find_block}

abbrev pub block_end : Block → ℕ
block_end b = data_ptr b + b.size

pub record IsBlock (b : Block) : Type 0 where
  pub addr_aligned : b.addr % 16 ≡ 0
  pub size_aligned : b.size % 16 ≡ 0
  pub magic_agrees : b.magic ≡ (if b.free then magic_freed else magic_allocated)

-- The blocks lie in order between the two addresses.
abbrev pub Chain : ℕ → ℕ → List Block → Type 0
Chain lo hi [] = lo ≤ hi
Chain lo hi (b ∷ bs) = (lo ≤ b.addr) × IsBlock b × Chain (block_end b) hi bs

pub Chain-le : (lo hi : ℕ) (bs : List Block) → Chain lo hi bs → lo ≤ hi
Chain-le lo hi [] c = c
Chain-le lo hi (b ∷ bs) c = omega (arith, Chain-le (block_end b) hi bs c.2)

-- A lower start serves too.
pub Chain-weaken : (lo lo' hi : ℕ) (bs : List Block) → lo' ≤ lo → Chain lo hi bs → Chain lo' hi bs
Chain-weaken lo lo' hi [] h c = omega arith
Chain-weaken lo lo' hi (b ∷ bs) h c = (omega arith, c.1, c.2)

-- The space that the blocks take, headers included.
unfoldable pub span : List Block → ℕ
span [] = 0
span (b ∷ bs) = header_size + b.size + span bs

pub find_block_self : (b : Block) (bs : List Block) → find_block b.addr (b ∷ bs) ≡ some b
unfolding find_block
find_block_self b bs = ground arith

-- A block is looked for past those that stand lower.
pub find_block-past :
    (addr : ℕ) (b : Block) (bs : List Block)
    → b.addr ≢ addr
    → find_block addr (b ∷ bs) ≡ find_block addr bs
unfolding find_block
find_block-past addr b bs h = ground arith

-- No block of a chain stands below its start.
pub find_block-none :
    (addr lo hi : ℕ) (bs : List Block) → addr < lo → Chain lo hi bs → find_block addr bs ≡ none
unfolding find_block
find_block-none addr lo hi [] h c = refl
find_block-none addr lo hi (b ∷ bs) h c = ground (arith, find_block-none addr (block_end b) hi bs)

-- The validity of a whole heap.
pub record IsHeap (h : Heap) : Type 0 where
  pub chain : Chain h.heap_min h.heap_max h.blocks
  pub low : (h.blocks ≡ []) ⊎ (0 < h.heap_min)

pub heap_min_pos :
    (h : Heap) (addr : ℕ) (b : Block)
    → IsHeap h
    → find_block addr h.blocks ≡ some b
    → 0 < h.heap_min
heap_min_pos h addr b v found = elim v.low [
  | inl empty ↦ absurd (nothing (rw empty at found))
  | inr pos ↦ pos
]
  where
    nothing : find_block addr [] ≡ some b → ⊥
    nothing e = unfold find_block in cc

-- A higher end serves too.
pub Chain-raise : (lo hi hi' : ℕ) (bs : List Block) → hi ≤ hi' → Chain lo hi bs → Chain lo hi' bs
Chain-raise lo hi hi' [] h c = omega arith
Chain-raise lo hi hi' (b ∷ bs) h (above, block, rest) =
    (above, block, Chain-raise (block_end b) hi hi' bs h rest)
