-- ===== src/Mm/Heap/Tests.antt =====
-- kernel/src/mm/heap.rs: the free list on examples.
use bedrock_stack.Base.{◌≡◌, refl, inl, inr, ◌||◌, some, List, [], ◌∷◌, arith}
use bedrock_stack.Mm.Heap.{Block, is_valid, push_free, found, null, hang, overflows, alloc_inner}
use bedrock_stack.Mm.Heap.Push.{in_block, is_free, IsSorted, Lists}
use bedrock_stack.Mm.Heap.Arena.{
  Arena, Chunk, reserve, rollback, Reach, empty, reserves, rolls_back, no_chunk,
}
use bedrock_stack.Mm.Heap.Arena.Layout.{IsLaidOut, Reach-IsLaidOut}
use bedrock_stack.Mm.Heap.Correct.{push_free_correct, push_free-alloc_inner}

abbrev low_block : Block
low_block = record { addr = 4096; size = 64 }

abbrev gap_block : Block
gap_block = record { addr = 4160; size = 64 }

abbrev high_block : Block
high_block = record { addr = 4224; size = 256 }

abbrev two_blocks : List Block
two_blocks = low_block ∷ high_block ∷ []

two_blocks-IsSorted : IsSorted 0 two_blocks
unfolding is_valid
two_blocks-IsSorted = (omega arith, refl, refl, (omega arith, refl, refl, tt))

-- The block closes the gap.
push_free_gap : push_free gap_block two_blocks ≡ some (record { addr = 4096; size = 384 } ∷ [])
unfolding push_free
push_free_gap = refl

-- The request does not fit the first block and leaves the end of the second.
alloc_inner_second :
    alloc_inner 40 64 two_blocks
    ≡ found 4288
        (record { addr = 4224; size = 104 })
        (low_block ∷ record { addr = 4328; size = 152 } ∷ [])
unfolding alloc_inner
alloc_inner_second = refl

-- A request of 512 bytes has no room.
alloc_inner_null : alloc_inner 512 8 two_blocks ≡ null
unfolding alloc_inner
alloc_inner_null = refl

push_free_correct_example :
    (l : List Block) × (push_free gap_block two_blocks ≡ some l)
    × Lists 0 (λ x. in_block gap_block x || is_free two_blocks x) l
unfolding is_valid
push_free_correct_example =
    push_free_correct 4096 gap_block two_blocks (omega arith, refl, refl) (omega arith, omega arith)
      two_blocks-IsSorted ((omega arith, omega arith), ((omega arith, omega arith), tt))
      (inr (omega arith), (inl (omega arith), tt)) (omega arith)

push_free-alloc_inner_example :
    push_free
      (record { addr = 4224; size = 104 })
      (low_block ∷ record { addr = 4328; size = 152 } ∷ [])
    ≡ some two_blocks
push_free-alloc_inner_example =
    push_free-alloc_inner 4096 40 64 4288 (record { addr = 4224; size = 104 }) two_blocks
      (low_block ∷ record { addr = 4328; size = 152 } ∷ []) two_blocks-IsSorted
      ((omega arith, omega arith), ((omega arith, omega arith), tt)) (omega arith)
      alloc_inner_second

-- The first page of the heap's arena, which is at 0xFFFFFFFF90000000.
abbrev arena_block : Block
arena_block = record { addr = 18446744071830503424; size = 4096 }

-- A request of 2 GiB.
too_large_hangs : alloc_inner 2147483648 8 (arena_block ∷ []) ≡ hang
unfolding alloc_inner overflows
too_large_hangs = refl

-- Two calls have reserved, 256 pages and 16.
abbrev base_chunk : Chunk
base_chunk = record { start = 18446744072500543488; size = 1048576; old_low = no_chunk }

abbrev next_chunk : Chunk
next_chunk = record { start = 18446744072500473856; size = 65536; old_low = 18446744072500543488 }

abbrev one_reserved : Arena
one_reserved = record { low = 18446744072500543488; chunks = base_chunk ∷ [] }

abbrev two_reserved : Arena
two_reserved = record { low = 18446744072500473856; chunks = next_chunk ∷ base_chunk ∷ [] }

two_reserved-Reach : Reach two_reserved
unfolding reserve
two_reserved-Reach =
    reserves 16 one_reserved two_reserved (reserves 256 _ one_reserved empty refl) refl

-- The first call gives back while the second one still holds.
Reach-IsLaidOut_example : IsLaidOut (rollback 1 two_reserved).chunks
Reach-IsLaidOut_example =
    Reach-IsLaidOut (rollback 1 two_reserved) (rolls_back 1 two_reserved two_reserved-Reach)
