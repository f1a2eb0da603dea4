-- ===== src/Mm/Heap.antt =====
-- kernel/src/mm/heap.rs: the free list of the kernel's heap, its blocks in the order of the list. A
-- block is its address and its size; that a header lies in the block it describes, so that no two
-- headers share memory, is the disjointness of the blocks. A panic is `none`.
pub mod Push
pub mod Insert
pub mod Returns
pub mod Alloc
pub mod Unique
pub mod Arena
pub mod Correct
mod Tests
use bedrock_stack.Base.{
  ℕ, zero, suc, ◌+◌, ◌-◌, ◌*◌, ◌/◌, ◌%◌, ◌^◌, max, Bool, true, false, not, ◌&&◌, ◌||◌, Option, none,
  some, List, [], ◌∷◌, if◌then◌else◌, ltb, leb, ◌==◌, any,
}

pub record Block : Type 0 where
  pub addr : ℕ
  pub size : ℕ

abbrev pub header_size : ℕ
header_size = 16

abbrev pub backptr_size : ℕ
backptr_size = 8

abbrev pub block_align : ℕ
block_align = 8

abbrev pub min_alloc : ℕ
min_alloc = 8

abbrev pub min_block_size : ℕ
min_block_size = 32

-- 0x40000000
abbrev pub max_block_size : ℕ
max_block_size = 1073741824

abbrev pub free_list_walk_bound : ℕ
free_list_walk_bound = 1000000

-- The test of the arena's bounds only refuses what is too large anyway.
unfoldable pub is_valid : Block → Bool
is_valid b =
    leb min_block_size b.size
    && (b.size % block_align == 0)
    && ltb (b.addr + b.size) (2 ^ 64)
    && leb b.size max_block_size

abbrev pub end_of : Block → ℕ
end_of b = b.addr + b.size

-- The block in front of the list at `cur`, joined with its first block where that one follows it
-- immediately.
unfoldable pub join_next : Block → List Block → Option (Block × List Block)
join_next block [] = some (block, [])
join_next block (c ∷ rest) =
    if end_of block == c.addr
    then if ltb max_block_size (block.size + c.size)
      then none
      else some (record block { size = block.size + c.size }, rest)
    else some (block, c ∷ rest)

-- An invalid block at `cur` is dropped first.
unfoldable pub place : Block → List Block → Option (Block × List Block)
unfolding is_valid join_next
place block [] = join_next block []
place block (c ∷ rest) = if is_valid c then join_next block (c ∷ rest) else join_next block rest

unfoldable pub join_prev : Block → Option (Block × List Block) → Option (List Block)
join_prev p none = none
join_prev p (some (b, rest)) =
    if end_of p == b.addr
    then if ltb max_block_size (p.size + b.size)
      then none
      else some (record p { size = p.size + b.size } ∷ rest)
    else some (p ∷ b ∷ rest)

abbrev pub cons_some : Block → Option (List Block) → Option (List Block)
cons_some p none = none
cons_some p (some l) = some (p ∷ l)

-- The walk behind `prev`, with the steps done.
unfoldable pub walk_after : ℕ → Block → Block → List Block → Option (List Block)
unfolding is_valid place join_prev
walk_after steps prev block [] = join_prev prev (place block [])
walk_after steps prev block (c ∷ rest) = elim (ltb c.addr block.addr) [
  | false ↦ join_prev prev (place block (c ∷ rest))
  | true ↦ elim (ltb free_list_walk_bound (steps + 1)) [
    | true ↦ none
    | false ↦ elim (is_valid c) [
      | true ↦ cons_some prev (walk_after (steps + 1) c block rest)
      | false ↦ walk_after (steps + 1) prev block rest
    ]
  ]
]

abbrev pub as_head : Option (Block × List Block) → Option (List Block)
as_head none = none
as_head (some (b, rest)) = some (b ∷ rest)

-- The walk as long as no block was passed.
unfoldable pub walk : ℕ → Block → List Block → Option (List Block)
unfolding is_valid place walk_after
walk steps block [] = as_head (place block [])
walk steps block (c ∷ rest) = elim (ltb c.addr block.addr) [
  | false ↦ as_head (place block (c ∷ rest))
  | true ↦ elim (ltb free_list_walk_bound (steps + 1)) [
    | true ↦ none
    | false ↦ elim (is_valid c) [
      | true ↦ walk_after (steps + 1) c block rest
      | false ↦ walk (steps + 1) block rest
    ]
  ]
]

unfoldable pub push_free : Block → List Block → Option (List Block)
unfolding is_valid walk
push_free block list = if is_valid block then walk 0 block list else some list

-- What a search answers: `hang` where the loop goes on with the same block.
pub data Search : Type 0 where
  found : ℕ → Block → List Block → Search
  null : Search
  hang : Search

abbrev pub behind : Block → Search → Search
behind c (found payload b list) = found payload b (c ∷ list)
behind c null = null
behind c hang = hang

-- `v & !(align - 1)` for a power of two.
abbrev pub align_down : ℕ → ℕ → ℕ
align_down align v = v / align * align

abbrev pub payload_of : ℕ → Block → ℕ
payload_of align c = align_down align (c.addr + (header_size + backptr_size + align - 1))

abbrev pub alloc_end_of : ℕ → ℕ → Block → ℕ
alloc_end_of align needed c =
    align_down block_align (payload_of align c + needed + (block_align - 1))

-- One of the sums of the loop overflows, and `continue` leaves `curr` as it is.
unfoldable pub overflows : ℕ → ℕ → Block → Bool
overflows align needed c =
    leb (2 ^ 64) (end_of c)
    || leb (2 ^ 64) (c.addr + (header_size + backptr_size + align - 1))
    || leb (2 ^ 64) (payload_of align c + needed)
    || leb (2 ^ 64) (payload_of align c + needed + (block_align - 1))

-- The block is taken as a whole, or its end is left on the list.
unfoldable pub take_block : ℕ → ℕ → Block → List Block → Search
take_block align needed c rest =
    let alloc_end = alloc_end_of align needed c in
    let remaining = end_of c - alloc_end in
    if leb min_block_size remaining
    then found (payload_of align c) (record c { size = alloc_end - c.addr })
        (record { addr = alloc_end; size = remaining } ∷ rest)
    else found (payload_of align c) c rest

unfoldable pub search : ℕ → ℕ → List Block → Search
unfolding overflows take_block
search align needed [] = null
search align needed (c ∷ rest) = elim (overflows align needed c) [
  | true ↦ hang
  | false ↦ elim (leb (alloc_end_of align needed c) (end_of c)) [
    | true ↦ take_block align needed c rest
    | false ↦ behind c (search align needed rest)
  ]
]

unfoldable pub alloc_inner : ℕ → ℕ → List Block → Search
unfolding search
alloc_inner size align list = search (max align block_align) (max size min_alloc) list
