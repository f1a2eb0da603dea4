-- ===== src/Mm/Heap/Arena/Layout.antt =====
-- kernel/src/mm/heap.rs: the layout of the chunks that `heap_grow` reserves.
use bedrock_stack.Base.{
  ℕ, zero, suc, ◌+◌, ◌*◌, ◌≤◌, ◌≡◌, refl, ◌⊎◌, inl, inr, some, List, [], ◌∷◌, ◌==◌, All, arith,
  Bool-cases, Option-cases, subst, sym,
}
use bedrock_stack.Mm.Heap.Arena.{
  heap_top, heap_floor, heap_guard_bytes, no_chunk, Chunk, Arena, place_below, reserve, remove_at,
  chunk_at, rollback, Reach, empty, reserves, rolls_back,
}
use bedrock_stack.Mm.Heap.Push.{some_injective}

-- Nothing is reserved yet, or the lowest address is in the arena.
abbrev IsLow : ℕ → Type 0
IsLow low = (low ≡ no_chunk) ⊎ (low ≤ heap_top)

-- The chunks from `low` up, each where its call found the lowest address.
abbrev IsStack : ℕ → List Chunk → Type 0
IsStack low [] = IsLow low
IsStack low (c ∷ rest) =
    (low ≤ c.start)
    × (heap_floor ≤ c.start)
    × (c.start + c.size ≤ heap_top)
    × ((c.old_low ≡ no_chunk) ⊎ (c.start + c.size + heap_guard_bytes ≤ c.old_low))
    × IsStack c.old_low rest

IsStack-IsLow : (low : ℕ) (list : List Chunk) → IsStack low list → IsLow low
IsStack-IsLow low [] s = s
IsStack-IsLow low (c ∷ rest) s = inr (omega (arith, s.0, s.2))

IsStack-below :
    (low low' : ℕ) (list : List Chunk)
    → low ≤ heap_top
    → low ≤ low'
    → IsStack low' list
    → IsStack low list
IsStack-below low low' [] t le s = inr t
IsStack-below low low' (c ∷ rest) t le s = (omega (arith, le, s.0), s.1, s.2, s.3, s.4)

place_below_bounds :
    (low size v : ℕ)
    → IsLow low
    → place_below low size ≡ some v
    → (heap_floor ≤ v)
      × (v + size ≤ heap_top)
      × ((low ≡ no_chunk) ⊎ (v + size + heap_guard_bytes ≤ low))
unfolding place_below
place_below_bounds low size v t e = elim (Bool-cases (low == no_chunk)) [
  | inl n ↦
      let b : (heap_floor ≤ v) × (v + size ≤ heap_top) = ground (arith, n, e) in
      (b.0, b.1, inl (ground (arith, n)))
  | inr n ↦
      let b : (heap_floor ≤ v) × (v + size + heap_guard_bytes ≤ low) = ground (arith, n, e) in
      let top : low ≤ heap_top = ground (arith, n, t) in (b.0, omega (arith, b, top), inr b.1)
]

reserve-some :
    (count : ℕ) (a b : Arena)
    → reserve count a ≡ some b
    → (v : ℕ) × (place_below a.low (count * 4096) ≡ some v)
      × (b ≡ record {
        low = v;
        chunks = record { start = v; size = count * 4096; old_low = a.low } ∷ a.chunks;
      })
unfolding reserve
reserve-some count a b e = elim (Option-cases (place_below a.low (count * 4096))) [
  | inl n ↦ ground (arith, e, n)
  | inr (v, q) ↦ (v, q, ground (arith, e, q))
]

reserve-IsStack :
    (count : ℕ) (a b : Arena)
    → IsStack a.low a.chunks
    → reserve count a ≡ some b
    → IsStack b.low b.chunks
reserve-IsStack count a b s e =
    let (v, q, same) = reserve-some count a b e in
    let g = place_below_bounds a.low (count * 4096) v (IsStack-IsLow a.low a.chunks s) q in
    subst (λ b. IsStack b.low b.chunks) (sym same) (omega arith, g.0, g.1, g.2, s)

remove_at-IsStack :
    (i : ℕ) (low : ℕ) (list : List Chunk) → IsStack low list → IsStack low (remove_at i list)
remove_at-IsStack i low [] s = s
remove_at-IsStack zero low (c ∷ rest) s =
    IsStack-below low c.old_low rest (omega (arith, s.0, s.2)) (ground (arith, s.0, s.2, s.3)) s.4
remove_at-IsStack (suc i) low (c ∷ rest) s =
    (s.0, s.1, s.2, s.3, remove_at-IsStack i c.old_low rest s.4)

chunk_at_above :
    (i low : ℕ) (list : List Chunk) (c : Chunk)
    → IsStack low list
    → chunk_at i list ≡ some c
    → (low ≤ c.start) × (c.start ≤ heap_top)
chunk_at_above i low [] c s e = ground (arith, e)
chunk_at_above zero low (d ∷ rest) c s e =
    subst (λ x. (low ≤ x.start) × (x.start ≤ heap_top)) (some_injective e) (s.0, omega (arith, s.2))
chunk_at_above (suc i) low (d ∷ rest) c s e =
    let up = chunk_at_above i d.old_low rest c s.4 e in (ground (arith, s.0, s.2, s.3, up), up.1)

-- A chunk that starts at the lowest address is the last one reserved.
lowest_first :
    (i low : ℕ) (list : List Chunk) (c : Chunk)
    → IsStack low list
    → chunk_at i list ≡ some c
    → low ≡ c.start
    → IsStack c.old_low (remove_at i list)
lowest_first i low [] c s e h = ground (arith, e)
lowest_first zero low (d ∷ rest) c s e h =
    subst (λ x. IsStack x.old_low rest) (some_injective e) s.4
lowest_first (suc i) low (d ∷ rest) c s e h =
    let up = chunk_at_above i d.old_low rest c s.4 e in ground (arith, s.0, s.2, s.3, h, up)

rollback-IsStack :
    (i : ℕ) (a : Arena) → IsStack a.low a.chunks → IsStack (rollback i a).low (rollback i a).chunks
unfolding rollback
rollback-IsStack i a s = elim (Option-cases (chunk_at i a.chunks)) [
  | inl n ↦
      let same : rollback i a ≡ a = ground (arith, n) in
      subst (λ b. IsStack b.low b.chunks) (sym same) s
  | inr (c, q) ↦ elim (Bool-cases (a.low == c.start)) [
    | inl t ↦
        let same : rollback i a ≡ record { low = c.old_low; chunks = remove_at i a.chunks } =
          ground (arith, q, t) in
        subst (λ b. IsStack b.low b.chunks) (sym same)
          (lowest_first i a.low a.chunks c s q (ground (arith, t)))
    | inr t ↦
        let same : rollback i a ≡ record { low = a.low; chunks = remove_at i a.chunks } =
          ground (arith, q, t) in
        subst (λ b. IsStack b.low b.chunks) (sym same) (remove_at-IsStack i a.low a.chunks s)
  ]
]

Reach-IsStack : (a : Arena) → Reach a → IsStack a.low a.chunks
Reach-IsStack _ empty = inl refl
Reach-IsStack _ (reserves count a b r e) = reserve-IsStack count a b (Reach-IsStack a r) e
Reach-IsStack _ (rolls_back i a r) = rollback-IsStack i a (Reach-IsStack a r)

-- Chunks in the arena, each with the guard between it and all that were reserved before it.
abbrev pub IsLaidOut : List Chunk → Type 0
IsLaidOut [] = Unit
IsLaidOut (c ∷ rest) =
    (heap_floor ≤ c.start)
    × (c.start + c.size ≤ heap_top)
    × All (λ d. c.start + c.size + heap_guard_bytes ≤ d.start) rest
    × IsLaidOut rest

all_above :
    (bound low : ℕ) (list : List Chunk)
    → IsStack low list
    → bound ≤ low
    → All (λ d. bound ≤ d.start) list
all_above bound low [] s h = tt
all_above bound low (c ∷ rest) s h =
    (omega (arith, s.0, h), all_above bound c.old_low rest s.4 (ground (arith, s.0, s.2, s.3, h)))

IsStack-IsLaidOut : (low : ℕ) (list : List Chunk) → IsStack low list → IsLaidOut list
IsStack-IsLaidOut low [] s = tt
IsStack-IsLaidOut low (c ∷ rest) s =
    let above =
      all_above (c.start + c.size + heap_guard_bytes) c.old_low rest s.4
        (ground (arith, s.2, s.3)) in
    (s.1, s.2, above, IsStack-IsLaidOut c.old_low rest s.4)

-- In whatever order calls of `heap_grow` reserve and give back, the chunks that are reserved or mapped
-- lie in the arena, in the order of their reservation from the top down, with a guard page at least
-- between any two of them.
pub Reach-IsLaidOut : (a : Arena) → Reach a → IsLaidOut a.chunks
Reach-IsLaidOut a r = IsStack-IsLaidOut a.low a.chunks (Reach-IsStack a r)
