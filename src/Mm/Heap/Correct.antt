-- ===== src/Mm/Heap/Correct.antt =====
-- kernel/src/mm/heap.rs: what `push_free` and `alloc_inner` promise, on their own and one after the
-- other.
use bedrock_stack.Base.{ℕ, ◌≤◌, ◌≡◌, sym, ap, ◌∙◌, max, ◌||◌, some, List, All, arith, length, subst}
use bedrock_stack.Mm.Heap.{
  Block, push_free, free_list_walk_bound, found, alloc_inner, block_align, min_alloc,
}
use bedrock_stack.Mm.Heap.Push.{in_block, is_free, IsSorted, IsApart, IsBlock, Lists}
use bedrock_stack.Mm.Heap.Insert.{push_free-Lists}
use bedrock_stack.Mm.Heap.Returns.{IsWithin, push_free_returns}
use bedrock_stack.Mm.Heap.Unique.{sorted_unique}
use bedrock_stack.Mm.Heap.Alloc.{Answer, search-Answer}

-- An aligned, valid block that has no byte in common with a sorted free list of at most a million
-- blocks, pushed to it, where all lie in an arena of at most 1 GiB: nothing faults, the new list is
-- sorted, with a gap between each block and the next, and its free bytes are those of the old list and
-- of the block, no others.
pub push_free_correct :
    (lo : ℕ) (block : Block) (list : List Block)
    → IsBlock 0 block
    → IsWithin lo block
    → IsSorted 0 list
    → All (IsWithin lo) list
    → IsApart block list
    → length list ≤ free_list_walk_bound
    → (l : List Block) × (push_free block list ≡ some l)
      × Lists 0 (λ x. in_block block x || is_free list x) l
push_free_correct lo block list k w s a apart n =
    let (l, e) = push_free_returns lo block list w s a n in
    (l, e, push_free-Lists block list l k s apart e)

pub alloc_inner-Answer :
    (size align : ℕ) (list : List Block)
    → IsSorted 0 list
    → Answer (max align block_align) (max size min_alloc) 0 list (alloc_inner size align list)
unfolding alloc_inner
alloc_inner-Answer size align list s =
    search-Answer (max align block_align) (max size min_alloc) list 0 (omega arith) (omega arith) s

-- A block that `alloc_inner` took from a sorted free list of at most a million blocks of an arena of at
-- most 1 GiB, pushed to the list that was left, restores the list as it was, block for block.
pub push_free-alloc_inner :
    (lo size align payload : ℕ) (b : Block) (list left : List Block)
    → IsSorted 0 list
    → All (IsWithin lo) list
    → length list ≤ free_list_walk_bound
    → alloc_inner size align list ≡ found payload b left
    → push_free b left ≡ some list
push_free-alloc_inner lo size align payload b list left s w n e =
    let taken =
      subst (Answer (max align block_align) (max size min_alloc) 0 list) e
        (alloc_inner-Answer size align list s) in
    let inside = taken.inside lo w in
    let (l, q, (sorted, bytes)) =
      push_free_correct lo b left taken.block inside.0 taken.sorted inside.1 taken.apart
        (omega (arith, taken.shorter, n)) in
    q ∙ ap some (sorted_unique l list 0 sorted s (λ x. bytes x ∙ sym (taken.bytes x)))
