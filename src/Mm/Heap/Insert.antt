-- ===== src/Mm/Heap/Insert.antt =====
-- kernel/src/mm/heap.rs: `push_free` puts a block at its place in a sorted free list.
use bedrock_stack.Base.{
  ℕ, ◌+◌, ◌%◌, ◌≤◌, ◌≡◌, sym, ap, ◌∙◌, ◌⊎◌, inl, inr, true, false, ◌||◌, none, some, List, [], ◌∷◌,
  Bool-cases, Option-cases, ltb, arith, subst,
}
use bedrock_stack.Mm.Heap.{
  Block, is_valid, end_of, place, join_prev, walk_after, as_head, walk, push_free,
}
use bedrock_stack.Mm.Heap.Push.{
  in_block, is_free, IsSorted, IsApart, IsBlock, Lists, some_injective, place-Placed,
  join_prev-Lists, or_swap,
}

-- A block of the list apart from the one to insert lies wholly on the side where its start is.
apart_before :
    (block c : Block)
    → is_valid block ≡ true
    → (end_of block ≤ c.addr) ⊎ (end_of c ≤ block.addr)
    → ltb c.addr block.addr ≡ true
    → end_of c ≤ block.addr
unfolding is_valid
apart_before block c v apart t = ground (arith, v, apart, t)

apart_behind :
    (block c : Block)
    → is_valid c ≡ true
    → (end_of block ≤ c.addr) ⊎ (end_of c ≤ block.addr)
    → ltb c.addr block.addr ≡ false
    → end_of block ≤ c.addr
unfolding is_valid
apart_behind block c v apart t = ground (arith, v, apart, t)

walk_after_stop :
    (steps : ℕ) (prev block c : Block) (rest : List Block)
    → ltb c.addr block.addr ≡ false
    → walk_after steps prev block (c ∷ rest) ≡ join_prev prev (place block (c ∷ rest))
unfolding walk_after
walk_after_stop steps prev block c rest t = ground (arith, t)

walk_after_step :
    (steps : ℕ) (prev block c : Block) (rest l : List Block)
    → ltb c.addr block.addr ≡ true
    → is_valid c ≡ true
    → walk_after steps prev block (c ∷ rest) ≡ some l
    → (t : List Block) × (walk_after (steps + 1) c block rest ≡ some t) × (l ≡ prev ∷ t)
unfolding walk_after
walk_after_step steps prev block c rest l t v e =
    elim (Option-cases (walk_after (steps + 1) c block rest)) [
      | inl n ↦ ground (arith, t, v, e, n)
      | inr (tail, q) ↦ (tail, q, ground (arith, t, v, e, q))
    ]

walk_stop :
    (steps : ℕ) (block c : Block) (rest : List Block)
    → ltb c.addr block.addr ≡ false
    → walk steps block (c ∷ rest) ≡ as_head (place block (c ∷ rest))
unfolding walk
walk_stop steps block c rest t = ground (arith, t)

walk_step :
    (steps : ℕ) (block c : Block) (rest l : List Block)
    → ltb c.addr block.addr ≡ true
    → is_valid c ≡ true
    → walk steps block (c ∷ rest) ≡ some l
    → walk_after (steps + 1) c block rest ≡ some l
unfolding walk
walk_step steps block c rest l t v e = ground (arith, t, v, e)

-- Where the walk stops, the block is placed in front of the rest and joined with `prev`.
Lists-stop :
    (low : ℕ) (prev block : Block) (list l : List Block)
    → IsBlock low prev
    → IsBlock (end_of prev) block
    → IsSorted (end_of block) list
    → join_prev prev (place block list) ≡ some l
    → Lists low (λ x. in_block prev x || (in_block block x || is_free list x)) l
unfolding join_prev
Lists-stop low prev block list l p k s e = elim (Option-cases (place block list)) [
  | inl n ↦ (let no : none ≡ some l = ap (join_prev prev) (sym n) ∙ e in ground (arith, no))
  | inr ((b, rest), q) ↦
      join_prev-Lists low prev block b list rest l p k
        (place-Placed block (end_of block) list (b, rest) k.2 (omega arith) s q)
        (ap (join_prev prev) (sym q) ∙ e)
]

walk_after-Lists :
    (list : List Block) (low steps : ℕ) (prev block : Block) (l : List Block)
    → IsBlock low prev
    → IsBlock (end_of prev) block
    → IsSorted (end_of prev + 1) list
    → IsApart block list
    → walk_after steps prev block list ≡ some l
    → Lists low (λ x. in_block prev x || (in_block block x || is_free list x)) l
unfolding walk_after
walk_after-Lists [] low steps prev block l p k s a e = Lists-stop low prev block [] l p k tt e
walk_after-Lists (c ∷ rest) low steps prev block l p k (g, ca, cv, s) (a, apart) e =
    elim (Bool-cases (ltb c.addr block.addr)) [
      | inr t ↦
          Lists-stop low prev block (c ∷ rest) l p k (apart_behind block c cv a t, ca, cv, s)
            (sym (walk_after_stop steps prev block c rest t) ∙ e)
      | inl t ↦
          let (tail, q, same) = walk_after_step steps prev block c rest l t cv e in
          let got =
            walk_after-Lists rest (end_of prev + 1) (steps + 1) c block tail (g, ca, cv)
              (apart_before block c k.2 a t, k.1, k.2) s apart q in
          subst (Lists low _) (sym same) (
            (p.0, p.1, p.2, got.0),
            λ x.
                ap (λ t. in_block prev x || t)
                  (got.1 x ∙ or_swap (in_block c x) (in_block block x) (is_free rest x)),
          )
    ]

push_free_valid :
    (block : Block) (list : List Block)
    → is_valid block ≡ true
    → push_free block list ≡ walk 0 block list
unfolding push_free
push_free_valid block list v = ground (arith, v)

Lists-head :
    (low : ℕ) (block : Block) (list l : List Block)
    → IsBlock low block
    → IsSorted (end_of block) list
    → as_head (place block list) ≡ some l
    → Lists low (λ x. in_block block x || is_free list x) l
Lists-head low block list l k s e = elim (Option-cases (place block list)) [
  | inl n ↦ (let no : none ≡ some l = ap as_head (sym n) ∙ e in ground (arith, no))
  | inr ((b, rest), q) ↦
      let placed = place-Placed block (end_of block) list (b, rest) k.2 (omega arith) s q in
      let same : b ∷ rest ≡ l = some_injective (ap as_head (sym q) ∙ e) in
      let start : b.addr ≡ block.addr = placed.start in
      subst (Lists low _) same (
        (
          subst (λ a. low ≤ a) (sym start) k.0,
          subst (λ a. a % 8 ≡ 0) (sym start) k.1,
          placed.valid,
          placed.rest,
        ),
        placed.bytes,
      )
]

walk-Lists :
    (list : List Block) (low steps : ℕ) (block : Block) (l : List Block)
    → IsBlock low block
    → IsSorted low list
    → IsApart block list
    → walk steps block list ≡ some l
    → Lists low (λ x. in_block block x || is_free list x) l
unfolding walk
walk-Lists [] low steps block l k s a e = Lists-head low block [] l k tt e
walk-Lists (c ∷ rest) low steps block l k (g, ca, cv, s) (a, apart) e =
    elim (Bool-cases (ltb c.addr block.addr)) [
      | inr t ↦
          Lists-head low block (c ∷ rest) l k (apart_behind block c cv a t, ca, cv, s)
            (sym (walk_stop steps block c rest t) ∙ e)
      | inl t ↦
          let got =
            walk_after-Lists rest low (steps + 1) c block l (g, ca, cv)
              (apart_before block c k.2 a t, k.1, k.2) s apart
              (walk_step steps block c rest l t cv e) in
          (got.0, λ x. got.1 x ∙ or_swap (in_block c x) (in_block block x) (is_free rest x))
    ]

-- Where a valid, aligned block that has no byte in common with a sorted free list is pushed and nothing
-- faults, the new list is sorted, with a gap between each block and the next, and its free bytes are
-- those of the old list and of the block, no others.
pub push_free-Lists :
    (block : Block) (list l : List Block)
    → IsBlock 0 block
    → IsSorted 0 list
    → IsApart block list
    → push_free block list ≡ some l
    → Lists 0 (λ x. in_block block x || is_free list x) l
unfolding push_free
push_free-Lists block list l k s a e =
    walk-Lists list 0 0 block l k s a (sym (push_free_valid block list k.2) ∙ e)
