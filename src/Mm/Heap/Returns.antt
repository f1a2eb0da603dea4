-- ===== src/Mm/Heap/Returns.antt =====
-- kernel/src/mm/heap.rs: a block pushed to a free list of the heap's arena causes no fault.
use bedrock_stack.Base.{
  ℕ, ◌+◌, ◌≤◌, ◌≡◌, refl, ap, ◌∙◌, inl, inr, Option, some, List, [], ◌∷◌, Bool-cases, ltb, ◌==◌,
  All, arith, length,
}
use bedrock_stack.Mm.Heap.{
  Block, is_valid, end_of, place, join_prev, walk_after, as_head, walk, push_free, max_block_size,
  free_list_walk_bound, join_next,
}
use bedrock_stack.Mm.Heap.Push.{IsSorted}

-- The block lies in an arena that starts at `lo`, of at most 1 GiB.
abbrev pub IsWithin : ℕ → Block → Type 0
IsWithin lo b = (lo ≤ b.addr) × (end_of b ≤ lo + max_block_size)

-- `place` answers with a block of the arena that starts where the given one does.
abbrev IsPlaced : ℕ → Block → Option (Block × List Block) → Type 0
IsPlaced lo block o =
    (out : Block × List Block) × (o ≡ some out) × (out.0.addr ≡ block.addr) × IsWithin lo out.0

place-IsPlaced :
    (lo low : ℕ) (block : Block) (list : List Block)
    → IsWithin lo block
    → IsSorted low list
    → All (IsWithin lo) list
    → IsPlaced lo block (place block list)
unfolding place join_next
place-IsPlaced lo low block [] w s a = ((block, []), refl, refl, w)
place-IsPlaced lo low block (c ∷ rest) w (g, ca, cv, s) (cw, a) =
    elim (Bool-cases (end_of block == c.addr)) [
      | inl t ↦ (
        (record block { size = block.size + c.size }, rest),
        ground (arith, cv, t, w, cw),
        refl,
        (w.0, ground (arith, t, cw)),
      )
      | inr t ↦ ((block, c ∷ rest), ground (arith, cv, t), refl, w)
    ]

join_prev_returns :
    (lo : ℕ) (prev : Block) (out : Block × List Block)
    → IsWithin lo prev
    → IsWithin lo out.0
    → (l : List Block) × (join_prev prev (some out) ≡ some l)
unfolding join_prev
join_prev_returns lo prev (b, rest) p w = elim (Bool-cases (end_of prev == b.addr)) [
  | inl t ↦ (record prev { size = prev.size + b.size } ∷ rest, ground (arith, t, p, w))
  | inr t ↦ (prev ∷ b ∷ rest, ground (arith, t))
]

stop_returns :
    (lo low : ℕ) (prev block : Block) (list : List Block)
    → IsWithin lo prev
    → IsWithin lo block
    → IsSorted low list
    → All (IsWithin lo) list
    → (l : List Block) × (join_prev prev (place block list) ≡ some l)
stop_returns lo low prev block list p w s a =
    let (out, q, start, within) = place-IsPlaced lo low block list w s a in
    let (l, e) = join_prev_returns lo prev out p within in (l, ap (join_prev prev) q ∙ e)

walk_after_returns :
    (list : List Block) (lo low steps : ℕ) (prev block : Block)
    → IsWithin lo prev
    → IsWithin lo block
    → IsSorted low list
    → All (IsWithin lo) list
    → length list + steps ≤ free_list_walk_bound
    → (l : List Block) × (walk_after steps prev block list ≡ some l)
unfolding walk_after
walk_after_returns [] lo low steps prev block p w s a n =
    stop_returns lo low prev block [] p w tt tt
walk_after_returns (c ∷ rest) lo low steps prev block p w (g, ca, cv, s) (cw, a) n =
    let (stop, e) = stop_returns lo low prev block (c ∷ rest) p w (g, ca, cv, s) (cw, a) in
    let (l, q) =
      walk_after_returns rest lo (end_of c + 1) (steps + 1) c block cw w s a (omega (arith, n)) in
    elim (Bool-cases (ltb c.addr block.addr)) [
      | inl t ↦ (prev ∷ l, ground (arith, t, cv, q, n))
      | inr t ↦ (stop, ground (arith, t, e))
    ]

head_returns :
    (lo low : ℕ) (block : Block) (list : List Block)
    → IsWithin lo block
    → IsSorted low list
    → All (IsWithin lo) list
    → (l : List Block) × (as_head (place block list) ≡ some l)
head_returns lo low block list w s a =
    let (out, q, start, within) = place-IsPlaced lo low block list w s a in
    (out.0 ∷ out.1, ap as_head q)

-- The walk of a sorted list of at most a million blocks of the arena ends in a list.
walk_returns :
    (list : List Block) (lo low steps : ℕ) (block : Block)
    → IsWithin lo block
    → IsSorted low list
    → All (IsWithin lo) list
    → length list + steps ≤ free_list_walk_bound
    → (l : List Block) × (walk steps block list ≡ some l)
unfolding walk
walk_returns [] lo low steps block w s a n = head_returns lo low block [] w tt tt
walk_returns (c ∷ rest) lo low steps block w (g, ca, cv, s) (cw, a) n =
    let (stop, e) = head_returns lo low block (c ∷ rest) w (g, ca, cv, s) (cw, a) in
    let (l, q) =
      walk_after_returns rest lo (end_of c + 1) (steps + 1) c block cw w s a (omega (arith, n)) in
    elim (Bool-cases (ltb c.addr block.addr)) [
      | inl t ↦ (l, ground (arith, t, cv, q, n))
      | inr t ↦ (stop, ground (arith, t, e))
    ]

-- A block of an arena of at most 1 GiB, pushed to a sorted free list of at most a million blocks of
-- the arena, causes no fault.
pub push_free_returns :
    (lo : ℕ) (block : Block) (list : List Block)
    → IsWithin lo block
    → IsSorted 0 list
    → All (IsWithin lo) list
    → length list ≤ free_list_walk_bound
    → (l : List Block) × (push_free block list ≡ some l)
unfolding push_free
push_free_returns lo block list w s a n =
    let (l, e) = walk_returns list lo 0 0 block w s a (omega (arith, n)) in
    elim (Bool-cases (is_valid block)) [
      | inl t ↦ (l, ground (arith, t, e))
      | inr t ↦ (list, ground (arith, t))
    ]
